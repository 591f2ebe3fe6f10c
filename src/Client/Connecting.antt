-- ===== src/Client/Connecting.antt =====
-- The way to a connection (centrifuge/client.py): `connect`, `_connection_attempt` and `_connected`.
-- An exception of the handshake is one that `_connection_attempt` catches; the cancellation of a task is
-- the client's own.
use centrifuge_python.Client.World.{
  ConnectRequest, World, ConnectResult, ReplyError, connected, connecting, pending, resolved,
  after_ttl, Dict, connect_command, close_conn, listen, process_messages, subscribe_task,
  create_connection_task, modify_sub,
}
use centrifuge_python.Base.{
  ℕ, ◌+◌, Bool, true, false, not, ◌&&◌, ◌||◌, none, some, [], ◌∷◌, ◌==◌, ltb, if◌then◌else◌, Option,
}
use centrifuge_python.Codes.{
  ConnectingCode, DisconnectedCode, ErrorCode, connecting_number, is_token_expired,
}
use centrifuge_python.Events.{
  Text, empty_text, Error, of_connecting, of_text, Event, on_connecting, on_connected, on_error,
}
use centrifuge_python.Client.Coroutine.{
  Co, Answer, get_token, open_transport, reply_of, raised, cancelled, opened, replied, token_of,
  pass, read, update, branch, when, await, emit, ◌>>=◌, ◌>>◌,
}
use centrifuge_python.Client.Subscription.{is_subscribing, cancel_resubscribe_timer}
use centrifuge_python.Client.Commands.{next_command_id, register_future, construct_connect_command}
use centrifuge_python.Client.Teardown.{
  is_disconnected, is_connecting, attempt_current, connection_current, schedule_reconnect,
  close_transport, stop_transport_tasks, do_disconnect, stop_with, send_commands,
}
use centrifuge_python.Client.Moves.{is_timeout}
use centrifuge_python.Client.ServerSubs.{process_server_subs}
use centrifuge_python.Client.Messages.{fail_connection_attempt, restart_ping_wait}

abbrev pub on_error_code : ErrorCode → Error → Event
on_error_code code error = on_error (record { code = code; error = error })

-- `set_token`
unfoldable pub set_token : Text → World → World
set_token token w = record w {
  token = token;
  refresh_required = if w.has_get_token then w.refresh_required else false;
}

-- `_clear_connecting_state`
unfoldable pub clear_connecting_state : World → World
clear_connecting_state w = record w { reconnect_attempts = 0; reconnect_timer = none }

-- What `_connected` does before its event.
unfoldable pub accept_connected : ConnectResult → World → World
unfolding restart_ping_wait
accept_connected result w =
    let w₁ : World = record w {
      refresh_required = false;
      client_id = result.client;
      state = connected;
      send_pong = result.pong;
      ping_interval = result.ping;
    } in
    let w₂ : World = (if ltb 0 result.ping then restart_ping_wait w₁ else w₁) in
    let w₃ : World =
      (if result.expires then record w₂ { refresh_timer = some (after_ttl result.ttl) } else w₂) in
    record w₃ { connected_future = resolved }

-- The loop of `_connected` over the subscriptions.
unfoldable pub resubscribe_all : Dict ℕ → World → World
resubscribe_all [] w = w
resubscribe_all ((channel, i) ∷ subs) w = resubscribe_all subs (
    if is_subscribing (w.sub i).state
    then (let w' = modify_sub i cancel_resubscribe_timer w in
        record w' { spawned = subscribe_task channel ∷ w'.spawned })
    else w)

-- `_connected`
unfoldable pub on_connect_reply : ConnectResult → ℕ → Co (Unit {0})
on_connect_reply result attempt = do
  update (accept_connected result)
  emit (
      on_connected
        (record { client = result.client; version = result.version; data' = result.data' }))
  when (connection_current attempt) (do
    update clear_connecting_state
    update (λ w. resubscribe_all w.subs w)
    process_server_subs result.subs attempt)

abbrev pub is_unauthorized : Error → Bool
is_unauthorized error = elim error [ Error.unauthorized ↦ true | _ ↦ false ]

-- `_connect_token_failed`
unfoldable pub connect_token_failed : ℕ → Error → Co (Unit {0})
connect_token_failed attempt error = when (attempt_current attempt) (
    branch (λ _. is_unauthorized error) (stop_with DisconnectedCode.unauthorized)
      (emit (on_error_code ErrorCode.client_connect_token error)
        >> when (attempt_current attempt) (update schedule_reconnect)))

-- The error of a connect reply. `sent_token` is the token of the command.
unfoldable pub connect_rejected : ℕ → Text → ReplyError → Co (Unit {0})
connect_rejected attempt sent_token error =
    when (λ _. is_token_expired error.code)
      (when (λ w. sent_token == w.token) (update (λ w. record w { refresh_required = true })))
    >> branch (λ _. is_token_expired error.code || error.temporary)
        (emit (
            on_error_code ErrorCode.connect_error (
              Error.reply_error error.code error.message
                (is_token_expired error.code || error.temporary)))
          >> fail_connection_attempt attempt)
        (do_disconnect error.code (of_text error.message) false)

-- A reply with neither an error nor a result is a `KeyError`, which `_create_connection` passes to
-- `_handler_failed`.
unfoldable pub connect_replied : ℕ → Text → Option ReplyError → Option ConnectResult → Co (Unit {0})
connect_replied attempt sent_token (some error) result = connect_rejected attempt sent_token error
connect_replied attempt sent_token none (some result) = on_connect_reply result attempt
connect_replied attempt sent_token none none = fail_connection_attempt attempt

-- The answer to the connect command.
unfoldable pub connect_answered : ℕ → Text → Answer → Co (Unit {0})
connect_answered attempt sent_token (raised error) = when (attempt_current attempt) (
    emit (
      on_error_code (if is_timeout error then ErrorCode.timeout else ErrorCode.connect_error) error)
    >> fail_connection_attempt attempt)
connect_answered attempt sent_token (replied reply) =
    when (attempt_current attempt) (connect_replied attempt sent_token reply.error reply.connect)
connect_answered attempt sent_token _ = pass

abbrev pub start_listening : ℕ → ℕ → World → World
start_listening conn attempt w = record w {
  conn = some conn;
  listen_task = true;
  process_messages_task = true;
  spawned = process_messages attempt ∷ listen attempt ∷ w.spawned;
}

-- `_connection_attempt` with its command. For data that `_encode_data` refuses the `CentrifugeError` ends
-- the attempt, which is current, in `_handler_failed`.
unfoldable pub submit_connect : ℕ → ℕ → Text → Option ConnectRequest → Co (Unit {0})
submit_connect attempt cmd_id sent_token none = fail_connection_attempt attempt
submit_connect attempt cmd_id sent_token (some request) = do
  update (λ w. register_future true w.timeout cmd_id w)
  send_commands cmd_id (connect_command cmd_id request)
  answer ← await (reply_of cmd_id)
  connect_answered attempt sent_token answer

-- `_connection_attempt` over the open transport `conn`.
unfoldable pub send_connect : ℕ → ℕ → Co (Unit {0})
send_connect attempt conn = do
  update (start_listening conn attempt)
  update next_command_id
  cmd_id ← read (λ w. w.command_id)
  request ← read construct_connect_command
  sent_token ← read (λ w. w.token)
  submit_connect attempt cmd_id sent_token request

-- `self._open_task is open_task`: a task is named by the attempt that started it.
abbrev pub is_open_task : ℕ → World → Bool
is_open_task attempt w = elim w.open_task [ none ↦ false | some task ↦ task == attempt ]

-- "if self._open_task is open_task: self._open_task = None"
unfoldable pub forget_open_task : ℕ → World → World
forget_open_task attempt w = if is_open_task attempt w then record w { open_task = none } else w

-- The answer to the handshake.
unfoldable pub transport_answered : ℕ → Answer → Co (Unit {0})
transport_answered attempt cancelled = pass
transport_answered attempt (opened conn) =
    update (forget_open_task attempt)
    >> branch (attempt_current attempt) (send_connect attempt conn)
        (update (λ w. record w { spawned = close_conn conn ∷ w.spawned }))
transport_answered attempt _ =
    update (forget_open_task attempt)
    >> when (attempt_current attempt) (
        emit (on_error_code ErrorCode.transport_closed Error.other_error)
        >> when (attempt_current attempt) (update schedule_reconnect))

-- `_connection_attempt` from the handshake on.
unfoldable pub open_connection : ℕ → Co (Unit {0})
open_connection attempt = do
  update (λ w. record w { open_task = some attempt })
  answer ← await open_transport
  transport_answered attempt answer

-- The answer of the app to the request for a token.
unfoldable pub token_answered : ℕ → Answer → Co (Unit {0})
token_answered attempt (token_of token) =
    when (attempt_current attempt) (
      update (λ w. record w { token = token; refresh_required = false }) >> open_connection attempt)
token_answered attempt (raised error) = connect_token_failed attempt error
token_answered attempt _ = connect_token_failed attempt Error.other_error

-- `_connection_attempt` where it asks the app for a token.
unfoldable pub obtain_token : ℕ → Co (Unit {0})
obtain_token attempt = do answer ← await get_token; token_answered attempt answer

-- `self._conn is not None or self._open_task is not None`
abbrev pub has_transport : World → Bool
has_transport w = elim w.conn [
  | some _ ↦ true
  | none ↦ elim w.open_task [ some _ ↦ true | none ↦ false ]
]

-- `_connection_attempt` once it is the attempt `attempt`.
unfoldable pub start_attempt : ℕ → Co (Unit {0})
start_attempt attempt =
    branch (λ w. w.refresh_required && not w.has_get_token)
      (emit (on_error_code ErrorCode.bad_configuration Error.centrifuge_error)
        >> when (attempt_current attempt) (stop_with DisconnectedCode.unauthorized))
      (branch (λ w. w.has_get_token && (w.refresh_required || w.token == empty_text))
        (obtain_token attempt) (open_connection attempt))

-- `_connection_attempt`
unfoldable pub connection_attempt : Co (Unit {0})
connection_attempt =
    when (λ w. is_connecting w.state)
      (do
        update (λ w. record w { transport_id = w.transport_id + 1 })
        attempt ← read (λ w. w.transport_id)
        update (λ w. if has_transport w then close_transport (stop_transport_tasks w) else w)
        start_attempt attempt)

-- `_reconnect`, which the timer of `_schedule_reconnect` runs.
unfoldable pub reconnect : Co (Unit {0})
reconnect = when (λ w. is_connecting w.state) connection_attempt

-- `connect`, up to the task that runs `_create_connection`.
unfoldable pub connect : Co (Unit {0})
connect =
    when (λ w. is_disconnected w.state)
      (do
        update (λ w. record w {
          state = connecting;
          reconnect_attempts = 0;
          transition = w.transition + 1;
          connected_future = pending;
        })
        transition ← read (λ w. w.transition)
        emit (
            on_connecting (record {
              code = connecting_number ConnectingCode.connect_called;
              reason = of_connecting ConnectingCode.connect_called;
            }))
        when (λ w. w.transition == transition && is_connecting w.state)
            (update (λ w. record w { spawned = create_connection_task ∷ w.spawned })))
