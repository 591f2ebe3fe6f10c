-- ===== src/Client/Handlers/Refreshing.antt =====
-- The handlers and commands that the token refreshes lead to (centrifuge/client.py).
use centrifuge_python.Client.Handlers.Teardown.{do_disconnect-Polite, send_commands-Polite}
use centrifuge_python.Events.{Channel, Error, Text, empty_text, other_error}
use centrifuge_python.Client.World.{World, modify_sub, RefreshResult, ReplyError}
use centrifuge_python.Client.Coroutine.{replied, Answer, raised, token_of}
use centrifuge_python.Client.Handlers.Moves.{move_unsubscribed-Polite}
use centrifuge_python.Client.Commands.{next_command_id, register_future}
use centrifuge_python.Client.Teardown.{connection_current, is_connected}
use centrifuge_python.Client.Refreshing.{
  refresh_subscription, refresh_answered, sub_refresh_token_answered, refresh_replied,
  send_sub_refresh, sub_refresh, refresh, sub_refresh_token_failed, refresh_token_answered,
  sub_refresh_answered, sub_refresh_replied, sub_refresh_current, send_refresh,
  refresh_token_failed, sub_refresh_of,
}
use centrifuge_python.Client.Handlers.{
  Polite-bind, command_fits, fits, Polite, call_fits, polite_call, second_true, Polite-if,
  polite_end, polite,
}
use centrifuge_python.Base.{ℕ, some, none, Option, ◌≡◌, true, false, ◌==◌, refl}

refresh_token_failed-Polite :
    (connection : ℕ) (error : Error) (w : World) → Polite (refresh_token_failed connection error w)
unfolding refresh_token_failed call_fits fits
refresh_token_failed-Polite connection error w = search (polite, do_disconnect-Polite)

refresh_replied-Polite :
    (connection : ℕ) (error : Option ReplyError) (result : Option RefreshResult) (w : World)
    → Polite (refresh_replied connection error result w)
unfolding refresh_replied call_fits fits
refresh_replied-Polite connection none result w = search (polite)
refresh_replied-Polite connection (some error) result w = search (polite, do_disconnect-Polite)

refresh_answered-Polite :
    (connection : ℕ) (answer : Answer) (w : World) → Polite (refresh_answered connection answer w)
unfolding refresh_answered call_fits fits
refresh_answered-Polite connection (raised error) w = search (polite)
refresh_answered-Polite connection (replied reply) w = search (polite, refresh_replied-Polite)
refresh_answered-Polite connection _ w = search (polite)

send_refresh-Polite :
    (connection : ℕ) (token : Text) (w : World)
    → is_connected w.state ≡ true
    → Polite (send_refresh connection token w)
unfolding send_refresh call_fits command_fits next_command_id register_future
send_refresh-Polite connection token w e =
    Polite-bind _ (send_commands-Polite _ _ _ e)
      (λ _ w'. polite_call refl (λ ans w''. refresh_answered-Polite connection ans w''))

refresh_token_answered-Polite :
    (connection : ℕ) (answer : Answer) (w : World)
    → Polite (refresh_token_answered connection answer w)
unfolding refresh_token_answered
refresh_token_answered-Polite connection (token_of token) w =
    Polite-if (connection_current connection w)
      (λ e.
        Polite-if (token == empty_text) (λ _. do_disconnect-Polite _ _ false w)
          (send_refresh-Polite connection token w (second_true _ _ e)))
      polite_end
refresh_token_answered-Polite connection (raised error) w =
    refresh_token_failed-Polite connection error w
refresh_token_answered-Polite connection _ w = refresh_token_failed-Polite connection other_error w

pub refresh-Polite : (connection : ℕ) (w : World) → Polite (refresh connection w)
unfolding refresh call_fits fits
refresh-Polite connection w = search (polite, refresh_token_answered-Polite)

sub_refresh_token_failed-Polite :
    (i : ℕ) (session : ℕ) (connection : ℕ) (error : Error) (w : World)
    → Polite (sub_refresh_token_failed i session connection error w)
unfolding sub_refresh_token_failed call_fits fits
sub_refresh_token_failed-Polite i session connection error w =
    search (polite, move_unsubscribed-Polite)

sub_refresh_replied-Polite :
    (i : ℕ) (session : ℕ) (error : Option ReplyError) (result : Option RefreshResult) (w : World)
    → Polite (sub_refresh_replied i session error result w)
unfolding sub_refresh_replied call_fits fits
sub_refresh_replied-Polite i session none result w = search (polite)
sub_refresh_replied-Polite i session (some error) result w =
    search (polite, move_unsubscribed-Polite)

sub_refresh_answered-Polite :
    (i : ℕ) (session : ℕ) (connection : ℕ) (answer : Answer) (w : World)
    → Polite (sub_refresh_answered i session connection answer w)
unfolding sub_refresh_answered call_fits fits
sub_refresh_answered-Polite i session connection (raised error) w = search (polite)
sub_refresh_answered-Polite i session connection (replied reply) w =
    search (polite, sub_refresh_replied-Polite)
sub_refresh_answered-Polite i session connection _ w = search (polite)

send_sub_refresh-Polite :
    (i : ℕ) (channel : Channel) (session connection : ℕ) (token : Text) (w : World)
    → is_connected w.state ≡ true
    → Polite (send_sub_refresh i channel session connection token w)
unfolding send_sub_refresh call_fits command_fits next_command_id register_future modify_sub
send_sub_refresh-Polite i channel session connection token w e =
    Polite-bind _ (send_commands-Polite _ _ _ e) (λ _ w'.
      polite_call refl (λ ans w''. sub_refresh_answered-Polite i session connection ans w''))

sub_refresh_token_answered-Polite :
    (i : ℕ) (channel : Channel) (session connection : ℕ) (answer : Answer) (w : World)
    → Polite (sub_refresh_token_answered i channel session connection answer w)
unfolding sub_refresh_token_answered
sub_refresh_token_answered-Polite i channel session connection (token_of token) w =
    Polite-if (sub_refresh_current i session connection w)
      (λ e.
        Polite-if (token == empty_text) (λ _. move_unsubscribed-Polite i _ _ true w)
          (send_sub_refresh-Polite i channel session connection token w
            (second_true _ _ (second_true _ _ e))))
      polite_end
sub_refresh_token_answered-Polite i channel session connection (raised error) w =
    sub_refresh_token_failed-Polite i session connection error w
sub_refresh_token_answered-Polite i channel session connection _ w =
    sub_refresh_token_failed-Polite i session connection other_error w

sub_refresh_of-Polite :
    (sub : Option ℕ) (channel : Channel) (session : ℕ) (w : World)
    → Polite (sub_refresh_of sub channel session w)
unfolding sub_refresh_of call_fits fits
sub_refresh_of-Polite none channel session w = search (polite)
sub_refresh_of-Polite (some i) channel session w =
    search (polite, sub_refresh_token_answered-Polite)

sub_refresh-Polite :
    (channel : Channel) (session : ℕ) (w : World) → Polite (sub_refresh channel session w)
unfolding sub_refresh call_fits fits
sub_refresh-Polite channel session w = search (polite, sub_refresh_of-Polite)

pub refresh_subscription-Polite :
    (i : ℕ) (session : ℕ) (w : World) → Polite (refresh_subscription i session w)
unfolding refresh_subscription call_fits fits
refresh_subscription-Polite i session w = search (polite, sub_refresh-Polite)
