-- ===== src/Client/Safety/Flows.antt =====
-- The invariant through the subscribe flow (centrifuge/client.py).
use centrifuge_python.Client.Safety.SubReplies.{
  send_subscribe-Keeps, Sound-schedule_resubscribe, subscribe_token_failed-Keeps,
}
use centrifuge_python.Client.Publications.{ApplyDelta}
use centrifuge_python.Client.Teardown.{is_connected, connection_current}
use centrifuge_python.Client.Safety.Subscriptions.{Sound-resubscribe, move_unsubscribed-Keeps}
use centrifuge_python.Events.{Channel, Text, empty_text, Error}
use centrifuge_python.Client.Safety.Pushes.{handler_failed-Keeps}
use centrifuge_python.Client.Subscription.{is_subscribing, next_attempt}
use centrifuge_python.Client.Coroutine.{
  returned, token_of, Answer, protocol_error, done, raised, connection_closed, position_of, waits,
  ends, opened, replied, cancelled, bind,
}
use centrifuge_python.Client.Subscribing.{
  subscribe_of, subscribe_channel, load_state_position, subscribe_current, subscribe_attempt,
  subscribe_with_token, state_answered, adopt_position, sub_token_answered, end_flow, run_flow,
  resubscribe_fired, has_flow, subscribe_raised, subscribe_steps, subscribe_token_failed,
}
use centrifuge_python.Client.World.{Subscription, World, modify_sub, get}
use centrifuge_python.Base.{ℕ, true, false, not, refl, Option, none, some, ◌&&◌, ◌||◌, arith, ◌==◌}
use centrifuge_python.Client.Safety.Rules.{Keeps, Safe-bind, Safe-if}
use centrifuge_python.Client.Safety.Sound.{Sound, Sound-modify_sub}

-- The end of the flow where the app has no token.
token_failure :
    (i attempt connection : ℕ) (error : Error)
    → Keeps Sound
        (λ w. bind (subscribe_token_failed i attempt connection error w) (λ _ w'. done true w'))
token_failure i attempt connection error w s =
    Safe-bind _ (subscribe_token_failed-Keeps i attempt connection error w s) (λ _ w' s'. ends s')

sub_token_answered-Keeps :
    (apply_delta : ApplyDelta) (i attempt connection : ℕ) (answer : Answer)
    → Keeps Sound (sub_token_answered apply_delta i attempt connection answer)
unfolding sub_token_answered
sub_token_answered-Keeps apply_delta i attempt connection (token_of token) w s =
    Safe-if (subscribe_current i attempt connection w)
      (λ _.
        Safe-if (token == empty_text)
          (λ _. Safe-bind _ (move_unsubscribed-Keeps i _ _ false w s) (λ _ w' s'. ends s'))
          (send_subscribe-Keeps apply_delta i attempt connection _
            (Sound-modify_sub i (λ t. record t { token = token }) w (λ _. refl) s)))
      (ends s)
sub_token_answered-Keeps apply_delta i attempt connection (raised error) w s =
    token_failure i attempt connection error w s
sub_token_answered-Keeps apply_delta i attempt connection returned w s =
    token_failure i attempt connection _ w s
sub_token_answered-Keeps apply_delta i attempt connection cancelled w s =
    token_failure i attempt connection _ w s
sub_token_answered-Keeps apply_delta i attempt connection connection_closed w s =
    token_failure i attempt connection _ w s
sub_token_answered-Keeps apply_delta i attempt connection protocol_error w s =
    token_failure i attempt connection _ w s
sub_token_answered-Keeps apply_delta i attempt connection (position_of position) w s =
    token_failure i attempt connection _ w s
sub_token_answered-Keeps apply_delta i attempt connection (opened conn) w s =
    token_failure i attempt connection _ w s
sub_token_answered-Keeps apply_delta i attempt connection (replied reply) w s =
    token_failure i attempt connection _ w s

subscribe_with_token-Keeps :
    (apply_delta : ApplyDelta) (i attempt connection : ℕ)
    → Keeps Sound (subscribe_with_token apply_delta i attempt connection)
unfolding subscribe_with_token
subscribe_with_token-Keeps apply_delta i attempt connection w s =
    Safe-if ((w.sub i).token == empty_text && (w.sub i).has_get_token)
      (λ _. waits s (λ answer. sub_token_answered-Keeps apply_delta i attempt connection answer))
      (send_subscribe-Keeps apply_delta i attempt connection w s)

state_answered-Keeps :
    (i attempt connection : ℕ) (answer : Answer)
    → Keeps Sound (state_answered i attempt connection answer)
unfolding state_answered
state_answered-Keeps i attempt connection (position_of position) w s =
    Safe-if (not ((w.sub i).attempt == attempt) || not (is_subscribing (w.sub i).state))
      (λ _. ends s) (ends (Sound-modify_sub i (adopt_position position) w (λ _. refl) s))
state_answered-Keeps i attempt connection (raised error) w s =
    Safe-bind _
      (Safe-if (subscribe_current i attempt connection w) (λ _. waits s (λ ans w' s'. ends s'))
        (ends s))
      (λ _ w' s'. ends s')
state_answered-Keeps i attempt connection returned w s = ends s
state_answered-Keeps i attempt connection cancelled w s = ends s
state_answered-Keeps i attempt connection connection_closed w s = ends s
state_answered-Keeps i attempt connection protocol_error w s = ends s
state_answered-Keeps i attempt connection (token_of token) w s = ends s
state_answered-Keeps i attempt connection (opened conn) w s = ends s
state_answered-Keeps i attempt connection (replied reply) w s = ends s

subscribe_steps-Keeps :
    (apply_delta : ApplyDelta) (i attempt connection : ℕ)
    → Keeps Sound (subscribe_steps apply_delta i attempt connection)
unfolding subscribe_steps load_state_position
subscribe_steps-Keeps apply_delta i attempt connection w s =
    Safe-if ((w.sub i).has_get_state && not (w.sub i).recover)
      (λ _. waits s (λ answer w' s'.
        Safe-bind _ (state_answered-Keeps i attempt connection answer w' s') (λ proceed w₂ s₂.
          Safe-if proceed (λ _. subscribe_with_token-Keeps apply_delta i attempt connection w₂ s₂)
            (ends s₂))))
      (subscribe_with_token-Keeps apply_delta i attempt connection w s)

Sound-end_flow :
    (i connection attempt : ℕ) (w : World)
    → Sound w
    → Sound (modify_sub i (end_flow connection attempt) w)
unfolding end_flow
Sound-end_flow i connection attempt w s =
    Sound-modify_sub i (end_flow connection attempt) w (λ t. ground arith) s

run_flow-Keeps : (apply_delta : ApplyDelta) (i : ℕ) → Keeps Sound (run_flow apply_delta i)
unfolding run_flow
run_flow-Keeps apply_delta i w s =
    let w₁ = modify_sub i next_attempt w in
    let flow : Subscription → Subscription =
      λ t. record t { inflight = some (w₁.transport_id, (w₁.sub i).attempt) } in
    Safe-bind _
      (subscribe_steps-Keeps apply_delta i (w₁.sub i).attempt w₁.transport_id (modify_sub i flow w₁)
        (Sound-modify_sub i flow w₁ (λ _. refl) (Sound-modify_sub i next_attempt w (λ _. refl) s)))
      (λ finished w' s'. ends (Sound-end_flow i w₁.transport_id (w₁.sub i).attempt w' s'))

subscribe_raised-Keeps :
    (i connection : ℕ) (message : Text) → Keeps Sound (subscribe_raised i connection message)
unfolding subscribe_raised
subscribe_raised-Keeps i connection message w s =
    Safe-if (connection_current connection w)
      (λ _.
        Safe-if (is_subscribing (w.sub i).state) (λ _. ends (Sound-schedule_resubscribe i w s))
          (handler_failed-Keeps connection message w s))
      (ends s)

subscribe_attempt-Keeps :
    (apply_delta : ApplyDelta) (i : ℕ) → Keeps Sound (subscribe_attempt apply_delta i)
unfolding subscribe_attempt
subscribe_attempt-Keeps apply_delta i w s =
    Safe-if
      (not (is_connected w.state)
        || not (is_subscribing (w.sub i).state)
        || has_flow w.transport_id (w.sub i).attempt (w.sub i))
      (λ _. ends s) (run_flow-Keeps apply_delta i w s)

subscribe_of-Keeps :
    (apply_delta : ApplyDelta) (message : Text) (found : Option ℕ)
    → Keeps Sound (subscribe_of apply_delta message found)
unfolding subscribe_of
subscribe_of-Keeps apply_delta message none w s = ends s
subscribe_of-Keeps apply_delta message (some i) w s =
    Safe-bind _ (subscribe_attempt-Keeps apply_delta i w s) (λ finished w' s'.
      Safe-if finished (λ _. ends s') (subscribe_raised-Keeps i w.transport_id message w' s'))

pub subscribe_channel-Keeps :
    (apply_delta : ApplyDelta) (channel : Channel) (message : Text)
    → Keeps Sound (subscribe_channel apply_delta channel message)
unfolding subscribe_channel
subscribe_channel-Keeps apply_delta channel message w s =
    subscribe_of-Keeps apply_delta message (get channel w.subs) w s

pub resubscribe_fired-Keeps : (i : ℕ) → Keeps Sound (resubscribe_fired i)
unfolding resubscribe_fired
resubscribe_fired-Keeps i w s =
    Safe-if (is_subscribing (w.sub i).state) (λ _. ends (Sound-resubscribe i w s)) (ends s)
