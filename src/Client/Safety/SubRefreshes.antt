-- ===== src/Client/Safety/SubRefreshes.antt =====
-- The invariant through the refresh of a subscription token (centrifuge/client.py).
use centrifuge_python.Client.Subscription.{session_current}
use centrifuge_python.Events.{Error, Text, Channel, empty_text}
use centrifuge_python.Client.Coroutine.{
  raised, protocol_error, token_of, Answer, ends, opened, position_of, waits, returned, replied,
  cancelled, connection_closed,
}
use centrifuge_python.Client.Commands.{next_command_id}
use centrifuge_python.Client.World.{get, World, ReplyError, Subscription, modify_sub, RefreshResult}
use centrifuge_python.Client.Refreshing.{
  sub_refresh_replied, sub_refresh_of, refresh_subscription, schedule_sub_refresh_retry,
  sub_refresh_accepted, sub_refresh_token_failed, sub_refresh_token_answered, sub_refresh_answered,
  sub_refresh, send_sub_refresh, sub_refresh_current,
}
use centrifuge_python.Client.Connecting.{is_unauthorized}
use centrifuge_python.Base.{ℕ, true, false, not, ◌≡◌, refl, Option, none, some, ◌&&◌, arith, ◌==◌}
use centrifuge_python.Client.Safety.Rules.{Keeps, Safe-bind, Safe-if}
use centrifuge_python.Client.Safety.Sound.{Sound, Sound-modify_sub}
use centrifuge_python.Client.Safety.Subscriptions.{move_unsubscribed-Keeps}
use centrifuge_python.Client.Safety.Calls.{submit-Keeps}

Sound-schedule_sub_refresh_retry :
    (i session : ℕ) (w : World)
    → Sound w
    → Sound (modify_sub i (schedule_sub_refresh_retry session) w)
unfolding schedule_sub_refresh_retry
Sound-schedule_sub_refresh_retry i session w s =
    Sound-modify_sub i (schedule_sub_refresh_retry session) w (λ t. ground arith) s

sub_refresh_token_failed-Keeps :
    (i session connection : ℕ) (error : Error)
    → Keeps Sound (sub_refresh_token_failed i session connection error)
unfolding sub_refresh_token_failed
sub_refresh_token_failed-Keeps i session connection error w s =
    Safe-if (sub_refresh_current i session connection w)
      (λ _.
        Safe-if (is_unauthorized error) (λ _. move_unsubscribed-Keeps i _ _ true w s)
          (waits s (λ ans w' s'. ends (Sound-schedule_sub_refresh_retry i session w' s'))))
      (ends s)

push_id-sub_refresh_accepted :
    (result : Option RefreshResult) (s : Subscription)
    → (sub_refresh_accepted result s).push_id ≡ s.push_id
unfolding sub_refresh_accepted
push_id-sub_refresh_accepted none s = refl
push_id-sub_refresh_accepted (some result) s = ground arith

sub_refresh_replied-Keeps :
    (i session : ℕ) (error : Option ReplyError) (result : Option RefreshResult)
    → Keeps Sound (sub_refresh_replied i session error result)
unfolding sub_refresh_replied
sub_refresh_replied-Keeps i session none result w s =
    ends
      (Sound-modify_sub i (sub_refresh_accepted result) w (push_id-sub_refresh_accepted result) s)
sub_refresh_replied-Keeps i session (some error) result w s =
    Safe-if (not error.temporary) (λ _. move_unsubscribed-Keeps i _ _ true w s)
      (waits s (λ ans w' s'. ends (Sound-schedule_sub_refresh_retry i session w' s')))

sub_refresh_answered-Keeps :
    (i session connection : ℕ) (answer : Answer)
    → Keeps Sound (sub_refresh_answered i session connection answer)
unfolding sub_refresh_answered
sub_refresh_answered-Keeps i session connection (raised error) w s =
    Safe-if (sub_refresh_current i session connection w)
      (λ _. waits s (λ ans w' s'. ends (Sound-schedule_sub_refresh_retry i session w' s'))) (ends s)
sub_refresh_answered-Keeps i session connection (replied reply) w s =
    Safe-if (sub_refresh_current i session connection w)
      (λ _. sub_refresh_replied-Keeps i session reply.error reply.sub_refresh w s) (ends s)
sub_refresh_answered-Keeps i session connection returned w s = ends s
sub_refresh_answered-Keeps i session connection cancelled w s = ends s
sub_refresh_answered-Keeps i session connection connection_closed w s = ends s
sub_refresh_answered-Keeps i session connection protocol_error w s = ends s
sub_refresh_answered-Keeps i session connection (token_of token) w s = ends s
sub_refresh_answered-Keeps i session connection (position_of position) w s = ends s
sub_refresh_answered-Keeps i session connection (opened conn) w s = ends s

send_sub_refresh-Keeps :
    (i : ℕ) (channel : Channel) (session connection : ℕ) (token : Text)
    → Keeps Sound (send_sub_refresh i channel session connection token)
unfolding send_sub_refresh next_command_id modify_sub
send_sub_refresh-Keeps i channel session connection token w s =
    let hold : Subscription → Subscription = λ t. record t { token = token } in
    Safe-bind _
      (submit-Keeps false w.timeout _ (modify_sub i hold w)
        (Sound-modify_sub i hold w (λ _. refl) s))
      (λ _ w' s'. waits s' (λ answer. sub_refresh_answered-Keeps i session connection answer))

sub_refresh_token_answered-Keeps :
    (i : ℕ) (channel : Channel) (session connection : ℕ) (answer : Answer)
    → Keeps Sound (sub_refresh_token_answered i channel session connection answer)
unfolding sub_refresh_token_answered
sub_refresh_token_answered-Keeps i channel session connection (token_of token) w s =
    Safe-if (sub_refresh_current i session connection w)
      (λ _.
        Safe-if (token == empty_text) (λ _. move_unsubscribed-Keeps i _ _ true w s)
          (send_sub_refresh-Keeps i channel session connection token w s))
      (ends s)
sub_refresh_token_answered-Keeps i channel session connection (raised error) w s =
    sub_refresh_token_failed-Keeps i session connection error w s
sub_refresh_token_answered-Keeps i channel session connection returned w s =
    sub_refresh_token_failed-Keeps i session connection _ w s
sub_refresh_token_answered-Keeps i channel session connection cancelled w s =
    sub_refresh_token_failed-Keeps i session connection _ w s
sub_refresh_token_answered-Keeps i channel session connection connection_closed w s =
    sub_refresh_token_failed-Keeps i session connection _ w s
sub_refresh_token_answered-Keeps i channel session connection protocol_error w s =
    sub_refresh_token_failed-Keeps i session connection _ w s
sub_refresh_token_answered-Keeps i channel session connection (position_of position) w s =
    sub_refresh_token_failed-Keeps i session connection _ w s
sub_refresh_token_answered-Keeps i channel session connection (opened conn) w s =
    sub_refresh_token_failed-Keeps i session connection _ w s
sub_refresh_token_answered-Keeps i channel session connection (replied reply) w s =
    sub_refresh_token_failed-Keeps i session connection _ w s

sub_refresh_of-Keeps :
    (found : Option ℕ) (channel : Channel) (session : ℕ)
    → Keeps Sound (sub_refresh_of found channel session)
unfolding sub_refresh_of
sub_refresh_of-Keeps none channel session w s = ends s
sub_refresh_of-Keeps (some i) channel session w s =
    Safe-if (sub_refresh_current i session w.transport_id w && (w.sub i).has_get_token)
      (λ _.
        waits s
          (λ answer. sub_refresh_token_answered-Keeps i channel session w.transport_id answer))
      (ends s)

pub refresh_subscription-Keeps : (i session : ℕ) → Keeps Sound (refresh_subscription i session)
unfolding refresh_subscription sub_refresh
refresh_subscription-Keeps i session w s =
    Safe-if (session_current session (w.sub i))
      (λ _. sub_refresh_of-Keeps (get (w.sub i).channel w.subs) _ session w s) (ends s)
