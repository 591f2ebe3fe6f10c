-- ===== src/Client/Handlers/Subscribing.antt =====
-- The handlers and commands that the subscribe flow leads to (centrifuge/client.py).
use centrifuge_python.Client.World.{
  SubscribeRequest, modify_sub, SubscribeResult, World, ReplyError,
}
use centrifuge_python.Client.Subscribing.{
  submit_subscribe, subscribe_current, subscribe_failed, adopt_position, subscribe_raised,
  load_state_position, subscribe_token_failed, subscribe_with_token, subscribe_steps,
  send_subscribe, subscribe_attempt, subscribe_answered, subscribe_refused, sub_token_answered,
  subscribe_replied, subscribe_of, resubscribe_fired, run_flow, subscribe_rejected, state_answered,
  subscribe_channel,
}
use centrifuge_python.Client.Commands.{
  construct_subscribe_command, register_future, next_command_id,
}
use centrifuge_python.Client.Subscription.{is_subscribing}
use centrifuge_python.Client.Handlers.Moves.{move_subscribed-Polite, move_unsubscribed-Polite}
use centrifuge_python.Client.Handlers.Messages.{handler_failed-Polite}
use centrifuge_python.Client.Handlers.Teardown.{do_disconnect-Polite, send_commands-Polite}
use centrifuge_python.Client.Handlers.{
  polite_call, fits, Polite, Polite-else, Polite-bind, command_fits, call_fits, Polite-if,
  polite_end, polite,
}
use centrifuge_python.Events.{Channel, empty_text, Error, Text}
use centrifuge_python.Client.Publications.{ApplyDelta}
use centrifuge_python.Client.Coroutine.{replied, position_of, raised, Answer, done, bind, token_of}
use centrifuge_python.Client.Teardown.{is_connected}
use centrifuge_python.Base.{
  ℕ, some, none, Option, ◌≡◌, ◌||◌, not, true, false, ◌==◌, ◌&&◌, if◌then◌else◌, refl, arith,
  Bool-cases, inl, inr, Bool, ◌+◌,
}

subscribe_token_failed-Polite :
    (i : ℕ) (attempt : ℕ) (connection : ℕ) (error : Error) (w : World)
    → Polite (subscribe_token_failed i attempt connection error w)
unfolding subscribe_token_failed call_fits fits
subscribe_token_failed-Polite i attempt connection error w =
    search (polite, move_unsubscribed-Polite)

subscribe_refused-Polite :
    (i : ℕ) (error : ReplyError) (w : World) → Polite (subscribe_refused i error w)
unfolding subscribe_refused call_fits fits
subscribe_refused-Polite i error w = search (polite, move_unsubscribed-Polite)

subscribe_rejected-Polite :
    (i : ℕ) (attempt : ℕ) (connection : ℕ) (error : ReplyError) (w : World)
    → Polite (subscribe_rejected i attempt connection error w)
unfolding subscribe_rejected call_fits fits
subscribe_rejected-Polite i attempt connection error w =
    search (polite, move_unsubscribed-Polite, subscribe_refused-Polite)

subscribe_replied-Polite :
    (apply_delta : ApplyDelta) (i : ℕ) (attempt : ℕ) (connection : ℕ) (error : Option ReplyError)
    (result : Option SubscribeResult) (w : World)
    → Polite (subscribe_replied apply_delta i attempt connection error result w)
unfolding subscribe_replied call_fits fits
subscribe_replied-Polite apply_delta i attempt connection (some error) result w =
    search (polite, subscribe_rejected-Polite)
subscribe_replied-Polite apply_delta i attempt connection none (some result) w =
    search (polite, move_subscribed-Polite)
subscribe_replied-Polite apply_delta i attempt connection none none w = search (polite)

subscribe_failed-Polite :
    (i : ℕ) (attempt : ℕ) (connection : ℕ) (error : Error) (w : World)
    → Polite (subscribe_failed i attempt connection error w)
unfolding subscribe_failed call_fits fits
subscribe_failed-Polite i attempt connection error w = search (polite, do_disconnect-Polite)

subscribe_answered-Polite :
    (apply_delta : ApplyDelta) (i : ℕ) (attempt : ℕ) (connection : ℕ) (answer : Answer) (w : World)
    → Polite (subscribe_answered apply_delta i attempt connection answer w)
unfolding subscribe_answered call_fits fits
subscribe_answered-Polite apply_delta i attempt connection (raised error) w =
    search (polite, subscribe_failed-Polite)
subscribe_answered-Polite apply_delta i attempt connection (replied reply) w =
    search (polite, subscribe_replied-Polite)
subscribe_answered-Polite apply_delta i attempt connection _ w = search (polite)

submit_subscribe-Polite :
    (apply_delta : ApplyDelta) (i attempt connection cmd_id : ℕ) (request : Option SubscribeRequest)
    (w : World)
    → is_connected w.state ≡ true
    → Polite (submit_subscribe apply_delta i attempt connection cmd_id request w)
unfolding submit_subscribe call_fits command_fits register_future
submit_subscribe-Polite apply_delta i attempt connection cmd_id none w e = polite_end
submit_subscribe-Polite apply_delta i attempt connection cmd_id (some request) w e =
    Polite-bind _ (send_commands-Polite _ _ _ e) (λ _ w'.
      polite_call refl
        (λ ans w''. subscribe_answered-Polite apply_delta i attempt connection ans w''))

send_subscribe-Polite :
    (apply_delta : ApplyDelta) (i attempt connection : ℕ) (w : World)
    → is_connected w.state ≡ true
    → Polite (send_subscribe apply_delta i attempt connection w)
unfolding send_subscribe next_command_id
send_subscribe-Polite apply_delta i attempt connection w e =
    submit_subscribe-Polite apply_delta i attempt connection (w.command_id + 1)
      (construct_subscribe_command (w.sub i)) (record w { command_id = w.command_id + 1 }) e

-- A flow that is current belongs to a client that is connected.
current-connected :
    (i attempt connection : ℕ) (w : World)
    → subscribe_current i attempt connection w ≡ true
    → is_connected w.state ≡ true
current-connected i attempt connection w e = ground (arith, e)

sub_token_answered-Polite :
    (apply_delta : ApplyDelta) (i attempt connection : ℕ) (answer : Answer) (w : World)
    → Polite (sub_token_answered apply_delta i attempt connection answer w)
unfolding sub_token_answered modify_sub
sub_token_answered-Polite apply_delta i attempt connection (token_of token) w =
    Polite-if (subscribe_current i attempt connection w)
      (λ e.
        Polite-if (token == empty_text)
          (λ _. Polite-bind _ (move_unsubscribed-Polite i _ _ false w) (λ _ _. polite_end))
          (send_subscribe-Polite apply_delta i attempt connection _
            (current-connected i attempt connection w e)))
      polite_end
sub_token_answered-Polite apply_delta i attempt connection (raised error) w =
    search (polite, subscribe_token_failed-Polite)
sub_token_answered-Polite apply_delta i attempt connection _ w =
    search (polite, subscribe_token_failed-Polite)

subscribe_with_token-Polite :
    (apply_delta : ApplyDelta) (i attempt connection : ℕ) (w : World)
    → is_connected w.state ≡ true
    → Polite (subscribe_with_token apply_delta i attempt connection w)
unfolding subscribe_with_token call_fits
subscribe_with_token-Polite apply_delta i attempt connection w e =
    Polite-if ((w.sub i).token == empty_text && (w.sub i).has_get_token)
      (λ _.
        polite_call refl
          (λ ans w'. sub_token_answered-Polite apply_delta i attempt connection ans w'))
      (send_subscribe-Polite apply_delta i attempt connection w e)

-- `_subscribe_steps` after `_load_state_position`.
after_state :
    (apply_delta : ApplyDelta) (i attempt connection : ℕ) (proceed : Bool) (w : World)
    → (proceed ≡ true → is_connected w.state ≡ true)
    → Polite
        (if proceed then subscribe_with_token apply_delta i attempt connection w else done true w)
after_state apply_delta i attempt connection true w e =
    subscribe_with_token-Polite apply_delta i attempt connection w (e refl)
after_state apply_delta i attempt connection false w e = polite_end

state_answered-Polite :
    (apply_delta : ApplyDelta) (i attempt connection : ℕ) (answer : Answer) (w : World)
    → Polite (
        bind (state_answered i attempt connection answer w) (λ proceed w'.
          if proceed
          then subscribe_with_token apply_delta i attempt connection w'
          else done true w'))
unfolding state_answered call_fits fits
state_answered-Polite apply_delta i attempt connection (position_of p) w =
    elim (Bool-cases (not ((w.sub i).attempt == attempt) || not (is_subscribing (w.sub i).state))) [
      | inl e ↦ rw e polite_end
      | inr e ↦
          let w₁ = modify_sub i (adopt_position p) w in
          rw e (
            after_state apply_delta i attempt connection (subscribe_current i attempt connection w₁)
              w₁ (current-connected i attempt connection w₁))
    ]
state_answered-Polite apply_delta i attempt connection (raised error) w =
    elim (Bool-cases (subscribe_current i attempt connection w)) [
      | inl e ↦ rw e (polite_call refl (λ _ w'. polite_end))
      | inr e ↦ rw e polite_end
    ]
state_answered-Polite apply_delta i attempt connection _ w = polite_end

subscribe_steps-Polite :
    (apply_delta : ApplyDelta) (i attempt connection : ℕ) (w : World)
    → is_connected w.state ≡ true
    → Polite (subscribe_steps apply_delta i attempt connection w)
unfolding subscribe_steps load_state_position call_fits
subscribe_steps-Polite apply_delta i attempt connection w e =
    Polite-if ((w.sub i).has_get_state && not (w.sub i).recover)
      (λ _.
        polite_call refl (λ ans w'. state_answered-Polite apply_delta i attempt connection ans w'))
      (subscribe_with_token-Polite apply_delta i attempt connection w e)

run_flow-Polite :
    (apply_delta : ApplyDelta) (i : ℕ) (w : World)
    → is_connected w.state ≡ true
    → Polite (run_flow apply_delta i w)
unfolding run_flow modify_sub
run_flow-Polite apply_delta i w e =
    Polite-bind _ (subscribe_steps-Polite apply_delta i _ w.transport_id _ e) (λ _ w'. polite_end)

connected-flow : (a b c : Bool) → (not a || b || c) ≡ false → a ≡ true
connected-flow a b c e = ground (arith, e)

subscribe_attempt-Polite :
    (apply_delta : ApplyDelta) (i : ℕ) (w : World) → Polite (subscribe_attempt apply_delta i w)
unfolding subscribe_attempt
subscribe_attempt-Polite apply_delta i w =
    Polite-else _ polite_end (λ e. run_flow-Polite apply_delta i w (connected-flow _ _ _ e))

subscribe_raised-Polite :
    (i : ℕ) (connection : ℕ) (message : Text) (w : World)
    → Polite (subscribe_raised i connection message w)
unfolding subscribe_raised call_fits fits
subscribe_raised-Polite i connection message w = search (polite, handler_failed-Polite)

subscribe_of-Polite :
    (apply_delta : ApplyDelta) (message : Text) (sub : Option ℕ) (w : World)
    → Polite (subscribe_of apply_delta message sub w)
unfolding subscribe_of call_fits fits
subscribe_of-Polite apply_delta message none w = search (polite)
subscribe_of-Polite apply_delta message (some i) w =
    search (polite, subscribe_attempt-Polite, subscribe_raised-Polite)

pub subscribe_channel-Polite :
    (apply_delta : ApplyDelta) (channel : Channel) (message : Text) (w : World)
    → Polite (subscribe_channel apply_delta channel message w)
unfolding subscribe_channel call_fits fits
subscribe_channel-Polite apply_delta channel message w = search (polite, subscribe_of-Polite)

pub resubscribe_fired-Polite : (i : ℕ) (w : World) → Polite (resubscribe_fired i w)
unfolding resubscribe_fired call_fits fits
resubscribe_fired-Polite i w = search (polite)
