-- ===== src/Client/Teardown.antt =====
-- The end of a connection or of an attempt: `_disconnect` and what it calls (centrifuge/client.py).
use centrifuge_python.Base.{
  ℕ, ◌+◌, Bool, true, false, not, ◌&&◌, Option, none, some, List, [], ◌∷◌, ◌==◌, if◌then◌else◌,
}
use centrifuge_python.Codes.{
  ConnectingCode, DisconnectedCode, SubscribingCode, disconnected_state_invalidated,
  connecting_number, disconnected_number, subscribing_number, error_number,
}
use centrifuge_python.Codes
use centrifuge_python.Events.{
  Text, empty_text, sentinel_epoch, Error, Reason, of_connecting, of_disconnected, of_subscribing,
  of_text, Event, on_connecting, on_disconnected, on_subscribing, on_server_subscribing, on_error,
}
use centrifuge_python.Events
use centrifuge_python.Client.World.{
  World, ClientState, disconnected, connecting, connected, pending, failed, backoff, Dict, get, put,
  ServerSubscription, modify_sub, Command, close_conn,
}
use centrifuge_python.Client.Coroutine.{
  Co, Answer, send_call, connection_closed, protocol_error, pass, read, update, branch, when, await,
  emit, ◌>>=◌, ◌>>◌,
}
use centrifuge_python.Client.Subscription.{
  is_subscribed, is_subscribing, enter_subscribing, invalidate_state,
}
use centrifuge_python.Client.Commands.{clear_outgoing_futures, future_error, keys}

abbrev pub is_disconnected : ClientState → Bool
is_disconnected s = elim s [ disconnected ↦ true | _ ↦ false ]

abbrev pub is_connecting : ClientState → Bool
is_connecting s = elim s [ connecting ↦ true | _ ↦ false ]

abbrev pub is_connected : ClientState → Bool
is_connected s = elim s [ connected ↦ true | _ ↦ false ]

-- `_attempt_current`
abbrev pub attempt_current : ℕ → World → Bool
attempt_current attempt w = w.transport_id == attempt && is_connecting w.state

-- `_connection_current`
abbrev pub connection_current : ℕ → World → Bool
connection_current attempt w = w.transport_id == attempt && is_connected w.state

-- `_schedule_reconnect`
unfoldable pub schedule_reconnect : World → World
schedule_reconnect w =
    if is_connecting w.state
    then record w {
      reconnect_timer = some (backoff w.reconnect_attempts);
      reconnect_attempts = w.reconnect_attempts + 1;
    }
    else w

-- `_close_transport`
unfoldable pub close_transport : World → World
close_transport w = elim w.conn [
  | none ↦ record w { open_task = none; conn = none }
  | some conn ↦ record w { open_task = none; conn = none; spawned = close_conn conn ∷ w.spawned }
]

-- `_stop_transport_tasks`
unfoldable pub stop_transport_tasks : World → World
stop_transport_tasks w = record w { listen_task = false; process_messages_task = false }

unfoldable pub invalidate_subs : List ℕ → World → World
unfolding invalidate_state
invalidate_subs [] w = w
invalidate_subs (i ∷ is) w = invalidate_subs is (invalidate_state i w)

abbrev pub values : {V : Type 0} → Dict V → List V
values [] = []
values ((_, v) ∷ d) = v ∷ values d

abbrev pub map_values : {V W : Type 0} → (V → W) → Dict V → Dict W
map_values f [] = []
map_values f ((k, v) ∷ d) = (k, f v) ∷ map_values f d

abbrev pub sentinel_position : ServerSubscription → ServerSubscription
sentinel_position s = record s { offset = 0; epoch = sentinel_epoch }

-- `_invalidate_connection_state`
unfoldable pub invalidate_connection_state : World → World
unfolding invalidate_subs
invalidate_connection_state w =
    let w' =
      (if w.has_get_token then record w { token = empty_text; refresh_required = true } else w) in
    let w₂ = invalidate_subs (values w'.subs) w' in
    record w₂ { server_pending = []; server_subs = map_values sentinel_position w₂.server_subs }

-- "Server-side publications being handled count as delivered."
unfoldable pub commit_server_pending :
    ℕ → Dict (ℕ × ℕ) → Dict ServerSubscription → Dict ServerSubscription
commit_server_pending transport_id [] subs = subs
commit_server_pending transport_id ((channel, (connection, offset)) ∷ pending') subs =
    commit_server_pending transport_id pending' (elim (get channel subs) [
      | none ↦ subs
      | some s ↦
          if connection == transport_id
          then put channel (record s { offset = offset }) subs
          else subs
    ])

-- What `_disconnect` does before any event, step by step.
unfoldable pub tear_down : ℕ → Bool → World → World
unfolding invalidate_connection_state commit_server_pending stop_transport_tasks close_transport
    clear_outgoing_futures
tear_down code reconnect w =
    let w₁ =
      (if code == disconnected_state_invalidated then invalidate_connection_state w else w) in
    let w₂ = record w₁ {
      server_subs = commit_server_pending w₁.transport_id w₁.server_pending w₁.server_subs;
      server_pending = [];
      transport_id = w₁.transport_id + 1;
      transition = w₁.transition + 1;
      ping_timer = none;
      refresh_timer = none;
      reconnect_timer = none;
    } in
    let w₃ = clear_outgoing_futures (close_transport (stop_transport_tasks w₂)) in
    if reconnect
    then record w₃ { connected_future = pending; state = connecting }
    else record w₃ { connected_future = failed; state = disconnected }

-- The list `moved` of `_clear_connected_state`: the subscriptions that move, with their attempts.
unfoldable pub enter_all : List ℕ → World → World × List (ℕ × ℕ)
unfolding enter_subscribing
enter_all [] w = (w, [])
enter_all (i ∷ is) w =
    let w' = modify_sub i enter_subscribing w in
    let (w₂, moved) = enter_all is w' in
    (w₂, if is_subscribed (w.sub i).state then (i, (w'.sub i).attempt) ∷ moved else moved)

abbrev pub transport_closed_subscribing : Events.TransitionContext
transport_closed_subscribing = record {
  code = subscribing_number SubscribingCode.transport_closed;
  reason = of_subscribing SubscribingCode.transport_closed;
}

-- The loops of `_clear_connected_state` over `moved` and over the server-side subscriptions.
unfoldable pub announce_moved : List (ℕ × ℕ) → Co (Unit {0})
announce_moved [] = pass
announce_moved ((i, attempt) ∷ moved) =
    when (λ w. (w.sub i).attempt == attempt && is_subscribing (w.sub i).state)
      (emit (on_subscribing i transport_closed_subscribing))
    >> announce_moved moved

unfoldable pub announce_server : ℕ → List ℕ → Co (Unit {0})
announce_server transition [] = pass
announce_server transition (channel ∷ channels) =
    branch (λ w. w.transition == transition)
      (emit (on_server_subscribing channel) >> announce_server transition channels) pass

-- `_clear_connected_state`
unfoldable pub clear_connected_state : ℕ → Co (Unit {0})
clear_connected_state transition = do
  update (λ w. record w { subs_by_id = [] })
  moved ← read (λ w. (enter_all (values w.subs) w).1)
  update (λ w. (enter_all (values w.subs) w).0)
  announce_moved moved
  channels ← read (λ w. keys w.server_subs)
  announce_server transition channels

-- `_emit_teardown_event`
unfoldable pub emit_teardown_event : ℕ → Reason → Bool → ClientState → Co (Unit {0})
emit_teardown_event code reason reconnect previous_state =
    if not reconnect
    then emit (on_disconnected (record { code = code; reason = reason }))
    else (if is_connected previous_state
        then emit (on_connecting (record { code = code; reason = reason }))
        else pass)

-- `_disconnect`
unfoldable pub do_disconnect : ℕ → Reason → Bool → Co (Unit {0})
do_disconnect code reason reconnect =
    branch (λ w. is_disconnected w.state) pass
      (do
        previous_state ← read (λ w. w.state)
        update (tear_down code reconnect)
        transition ← read (λ w. w.transition)
        if is_connected previous_state then clear_connected_state transition else pass
        when (λ w. w.transition == transition)
            (do
              emit_teardown_event code reason reconnect previous_state
              when (λ w. w.transition == transition && reconnect) (update schedule_reconnect)))

-- `disconnect`
unfoldable pub disconnect : Co (Unit {0})
disconnect =
    do_disconnect (disconnected_number DisconnectedCode.disconnect_called)
      (of_disconnected DisconnectedCode.disconnect_called) false

-- `_disconnect` with one of the client's own codes.
abbrev pub drop_connection : ConnectingCode → Co (Unit {0})
drop_connection code = do_disconnect (connecting_number code) (of_connecting code) true

abbrev pub stop_with : DisconnectedCode → Co (Unit {0})
stop_with code = do_disconnect (disconnected_number code) (of_disconnected code) false

-- `self._conn is conn`
abbrev pub is_conn : ℕ → World → Bool
is_conn c w = elim w.conn [ none ↦ false | some d ↦ c == d ]

-- How `conn.send` ends in `_send_commands`.
unfoldable pub after_send : ℕ → Answer → Co (Unit {0})
after_send c connection_closed = when (is_conn c) (drop_connection ConnectingCode.transport_closed)
after_send c protocol_error = when (is_conn c) (
    emit (on_error (record { code = Codes.ErrorCode.transport_closed; error = Error.other_error }))
    >> drop_connection ConnectingCode.transport_closed)
after_send c _ = pass

unfoldable pub send_over : Option ℕ → ℕ → Command → Co (Unit {0})
send_over none cmd_id command =
    when (λ _. not (cmd_id == 0)) (update (future_error cmd_id Error.client_disconnected))
send_over (some c) cmd_id command = do
  update (λ w. record w { sent = command ∷ w.sent })
  answer ← await send_call
  after_send c answer

-- `_send_commands` for the one command `command` with the id `cmd_id`, 0 for a pong.
unfoldable pub send_commands : ℕ → Command → Co (Unit {0})
send_commands cmd_id command = do conn ← read (λ w. w.conn); send_over conn cmd_id command
