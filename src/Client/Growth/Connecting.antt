-- ===== src/Client/Growth/Connecting.antt =====
-- The growth of the numbers through a connection attempt (centrifuge/client.py).
use centrifuge_python.Client.Connecting.{
  submit_connect, open_connection, connect_answered, connect_rejected, transport_answered,
  connect_replied, obtain_token, connection_attempt, start_attempt, send_connect, on_connect_reply,
  token_answered, connect_token_failed, connect,
}
use centrifuge_python.Client.World.{ConnectRequest, ReplyError, World, ConnectResult}
use centrifuge_python.Client.Growth.Teardown.{send_commands-Grows, do_disconnect-Grows}
use centrifuge_python.Client.Growth.Subscriptions.{Later-next_command_id, Later-register_future}
use centrifuge_python.Client.Growth.Numbers.{Later-schedule_reconnect}
use centrifuge_python.Events.{Error, Text}
use centrifuge_python.Client.Growth.Messages.{fail_connection_attempt-Grows}
use centrifuge_python.Client.Growth.Updates.{
  Later-next_transition, Later-clear_connecting_state, Later-resubscribe_all,
  Later-forget_open_task, Later-next_connection, Later-close_listening, Later-accept_connected,
}
use centrifuge_python.Client.Growth.{Mark, Later, Grows, mark, growth}
use centrifuge_python.Client.Growth.ServerSubs.{process_server_subs-Grows}
use centrifuge_python.Client.Coroutine.{Answer, token_of, replied, raised, cancelled, opened}
use centrifuge_python.Base.{ℕ, some, none, Option}

on_connect_reply-Grows :
    (result : ConnectResult) (attempt : ℕ) (m : Mark) (w : World)
    → Later m (mark w)
    → Grows m (on_connect_reply result attempt w)
unfolding on_connect_reply
on_connect_reply-Grows result attempt m w l =
    search
      (
        growth, process_server_subs-Grows, Later-accept_connected, Later-clear_connecting_state,
        Later-resubscribe_all,
      )
      depth 8

connect_token_failed-Grows :
    (attempt : ℕ) (error : Error) (m : Mark) (w : World)
    → Later m (mark w)
    → Grows m (connect_token_failed attempt error w)
unfolding connect_token_failed
connect_token_failed-Grows attempt error m w l =
    search (growth, do_disconnect-Grows, Later-schedule_reconnect) depth 8

connect_rejected-Grows :
    (attempt : ℕ) (sent_token : Text) (error : ReplyError) (m : Mark) (w : World)
    → Later m (mark w)
    → Grows m (connect_rejected attempt sent_token error w)
unfolding connect_rejected
connect_rejected-Grows attempt sent_token error m w l =
    search (growth, do_disconnect-Grows, fail_connection_attempt-Grows)

connect_replied-Grows :
    (attempt : ℕ) (sent_token : Text) (error : Option ReplyError) (result : Option ConnectResult)
    (m : Mark) (w : World)
    → Later m (mark w)
    → Grows m (connect_replied attempt sent_token error result w)
unfolding connect_replied
connect_replied-Grows attempt sent_token (some error) result m w l =
    search (growth, connect_rejected-Grows)
connect_replied-Grows attempt sent_token none (some result) m w l =
    search (growth, on_connect_reply-Grows)
connect_replied-Grows attempt sent_token none none m w l =
    search (growth, fail_connection_attempt-Grows)

connect_answered-Grows :
    (attempt : ℕ) (sent_token : Text) (answer : Answer) (m : Mark) (w : World)
    → Later m (mark w)
    → Grows m (connect_answered attempt sent_token answer w)
unfolding connect_answered
connect_answered-Grows attempt sent_token (raised error) m w l =
    search (growth, fail_connection_attempt-Grows)
connect_answered-Grows attempt sent_token (replied reply) m w l =
    search (growth, connect_replied-Grows)
connect_answered-Grows attempt sent_token _ m w l = search (growth)

submit_connect-Grows :
    (attempt cmd_id : ℕ) (sent_token : Text) (request : Option ConnectRequest) (m : Mark)
    (w : World)
    → Later m (mark w)
    → Grows m (submit_connect attempt cmd_id sent_token request w)
unfolding submit_connect
submit_connect-Grows attempt cmd_id sent_token none m w l =
    search (growth, fail_connection_attempt-Grows)
submit_connect-Grows attempt cmd_id sent_token (some request) m w l =
    search (growth, send_commands-Grows, connect_answered-Grows, Later-register_future) depth 8

send_connect-Grows :
    (attempt : ℕ) (conn : ℕ) (m : Mark) (w : World)
    → Later m (mark w)
    → Grows m (send_connect attempt conn w)
unfolding send_connect
send_connect-Grows attempt conn m w l =
    search (growth, submit_connect-Grows, Later-next_command_id) depth 12

transport_answered-Grows :
    (attempt : ℕ) (answer : Answer) (m : Mark) (w : World)
    → Later m (mark w)
    → Grows m (transport_answered attempt answer w)
unfolding transport_answered
transport_answered-Grows attempt cancelled m w l = search (growth)
transport_answered-Grows attempt (opened conn) m w l =
    search (growth, send_connect-Grows, Later-forget_open_task)
transport_answered-Grows attempt _ m w l =
    search (growth, Later-schedule_reconnect, Later-forget_open_task)

open_connection-Grows :
    (attempt : ℕ) (m : Mark) (w : World) → Later m (mark w) → Grows m (open_connection attempt w)
unfolding open_connection
open_connection-Grows attempt m w l = search (growth, transport_answered-Grows)

token_answered-Grows :
    (attempt : ℕ) (answer : Answer) (m : Mark) (w : World)
    → Later m (mark w)
    → Grows m (token_answered attempt answer w)
unfolding token_answered
token_answered-Grows attempt (token_of token) m w l = search (growth, open_connection-Grows)
token_answered-Grows attempt (raised error) m w l = search (growth, connect_token_failed-Grows)
token_answered-Grows attempt _ m w l = search (growth, connect_token_failed-Grows)

obtain_token-Grows :
    (attempt : ℕ) (m : Mark) (w : World) → Later m (mark w) → Grows m (obtain_token attempt w)
unfolding obtain_token
obtain_token-Grows attempt m w l = search (growth, token_answered-Grows)

start_attempt-Grows :
    (attempt : ℕ) (m : Mark) (w : World) → Later m (mark w) → Grows m (start_attempt attempt w)
unfolding start_attempt
start_attempt-Grows attempt m w l =
    search (growth, do_disconnect-Grows, open_connection-Grows, obtain_token-Grows)

pub connection_attempt-Grows :
    (m : Mark) (w : World) → Later m (mark w) → Grows m (connection_attempt w)
unfolding connection_attempt
connection_attempt-Grows m w l =
    search (growth, start_attempt-Grows, Later-next_connection, Later-close_listening)

pub connect-Grows : (m : Mark) (w : World) → Later m (mark w) → Grows m (connect w)
unfolding connect
connect-Grows m w l = search (growth, Later-next_transition)
