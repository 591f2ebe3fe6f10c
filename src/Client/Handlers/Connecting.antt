-- ===== src/Client/Handlers/Connecting.antt =====
-- The handlers and commands that a connection attempt leads to (centrifuge/client.py).
use centrifuge_python.Client.Commands.{construct_connect_command, next_command_id, register_future}
use centrifuge_python.Client.World.{ConnectRequest, ConnectResult, ReplyError, World}
use centrifuge_python.Client.Connecting.{
  start_listening, submit_connect, connect_rejected, obtain_token, connect, send_connect,
  accept_connected, start_attempt, on_connect_reply, open_connection, token_answered,
  connect_token_failed, connection_attempt, transport_answered, connect_replied, connect_answered,
  forget_open_task,
}
use centrifuge_python.Client.Messages.{restart_ping_wait}
use centrifuge_python.Client.Handlers.ServerSubs.{process_server_subs-Polite}
use centrifuge_python.Client.Handlers.Teardown.{do_disconnect-Polite, send_commands-Polite}
use centrifuge_python.Client.Handlers.Messages.{fail_connection_attempt-Polite}
use centrifuge_python.Client.Coroutine.{token_of, opened, raised, Answer, replied, cancelled}
use centrifuge_python.Events.{Text, Error}
use centrifuge_python.Client.Teardown.{is_connecting, is_connected, attempt_current}
use centrifuge_python.Client.Handlers.{
  Polite, command_fits, second_true, fits, polite_call, call_fits, Polite-if, polite_end,
  Polite-bind, polite,
}
use centrifuge_python.Base.{ℕ, some, none, Option, ◌≡◌, true, refl, arith, ◌+◌}

connected-accept_connected :
    (result : ConnectResult) (w : World) → is_connected (accept_connected result w).state ≡ true
unfolding accept_connected restart_ping_wait
connected-accept_connected result w = ground arith

on_connect_reply-Polite :
    (result : ConnectResult) (attempt : ℕ) (w : World) → Polite (on_connect_reply result attempt w)
unfolding on_connect_reply call_fits fits
on_connect_reply-Polite result attempt w =
    search (polite, process_server_subs-Polite, connected-accept_connected) depth 8

connect_token_failed-Polite :
    (attempt : ℕ) (error : Error) (w : World) → Polite (connect_token_failed attempt error w)
unfolding connect_token_failed call_fits fits
connect_token_failed-Polite attempt error w = search (polite, do_disconnect-Polite)

connect_rejected-Polite :
    (attempt : ℕ) (sent_token : Text) (error : ReplyError) (w : World)
    → Polite (connect_rejected attempt sent_token error w)
unfolding connect_rejected call_fits fits
connect_rejected-Polite attempt sent_token error w =
    search (polite, do_disconnect-Polite, fail_connection_attempt-Polite)

connect_replied-Polite :
    (attempt : ℕ) (sent_token : Text) (error : Option ReplyError) (result : Option ConnectResult)
    (w : World)
    → Polite (connect_replied attempt sent_token error result w)
unfolding connect_replied call_fits fits
connect_replied-Polite attempt sent_token (some error) result w =
    search (polite, connect_rejected-Polite)
connect_replied-Polite attempt sent_token none (some result) w =
    search (polite, on_connect_reply-Polite)
connect_replied-Polite attempt sent_token none none w =
    search (polite, fail_connection_attempt-Polite)

connect_answered-Polite :
    (attempt : ℕ) (sent_token : Text) (answer : Answer) (w : World)
    → Polite (connect_answered attempt sent_token answer w)
unfolding connect_answered call_fits fits
connect_answered-Polite attempt sent_token (raised error) w =
    search (polite, fail_connection_attempt-Polite)
connect_answered-Polite attempt sent_token (replied reply) w =
    search (polite, connect_replied-Polite)
connect_answered-Polite attempt sent_token _ w = search (polite)

submit_connect-Polite :
    (attempt cmd_id : ℕ) (sent_token : Text) (request : Option ConnectRequest) (w : World)
    → is_connecting w.state ≡ true
    → Polite (submit_connect attempt cmd_id sent_token request w)
unfolding submit_connect call_fits command_fits register_future
submit_connect-Polite attempt cmd_id sent_token none w e = fail_connection_attempt-Polite attempt w
submit_connect-Polite attempt cmd_id sent_token (some request) w e =
    Polite-bind _ (send_commands-Polite _ _ _ e)
      (λ _ w'. polite_call refl (λ ans w''. connect_answered-Polite attempt _ ans w''))

send_connect-Polite :
    (attempt conn : ℕ) (w : World)
    → is_connecting w.state ≡ true
    → Polite (send_connect attempt conn w)
unfolding send_connect next_command_id
send_connect-Polite attempt conn w e =
    let w' = record (start_listening conn attempt w) { command_id = w.command_id + 1 } in
    submit_connect-Polite attempt (w.command_id + 1) w.token (construct_connect_command w') w' e

transport_answered-Polite :
    (attempt : ℕ) (answer : Answer) (w : World) → Polite (transport_answered attempt answer w)
unfolding transport_answered call_fits fits
transport_answered-Polite attempt cancelled w = polite_end
transport_answered-Polite attempt (opened conn) w =
    Polite-if (attempt_current attempt (forget_open_task attempt w))
      (λ e. send_connect-Polite attempt conn (forget_open_task attempt w) (second_true _ _ e))
      polite_end
transport_answered-Polite attempt _ w = search polite depth 8

open_connection-Polite : (attempt : ℕ) (w : World) → Polite (open_connection attempt w)
unfolding open_connection call_fits fits
open_connection-Polite attempt w = search (polite, transport_answered-Polite)

token_answered-Polite :
    (attempt : ℕ) (answer : Answer) (w : World) → Polite (token_answered attempt answer w)
unfolding token_answered call_fits fits
token_answered-Polite attempt (token_of token) w = search (polite, open_connection-Polite)
token_answered-Polite attempt (raised error) w = search (polite, connect_token_failed-Polite)
token_answered-Polite attempt _ w = search (polite, connect_token_failed-Polite)

obtain_token-Polite : (attempt : ℕ) (w : World) → Polite (obtain_token attempt w)
unfolding obtain_token call_fits fits
obtain_token-Polite attempt w = search (polite, token_answered-Polite)

start_attempt-Polite : (attempt : ℕ) (w : World) → Polite (start_attempt attempt w)
unfolding start_attempt call_fits fits
start_attempt-Polite attempt w =
    search (polite, do_disconnect-Polite, open_connection-Polite, obtain_token-Polite)

pub connection_attempt-Polite : (w : World) → Polite (connection_attempt w)
unfolding connection_attempt call_fits fits
connection_attempt-Polite w = search (polite, start_attempt-Polite)

pub connect-Polite : (w : World) → Polite (connect w)
unfolding connect call_fits fits
connect-Polite w = search (polite)
