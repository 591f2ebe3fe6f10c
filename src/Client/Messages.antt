-- ===== src/Client/Messages.antt =====
-- What a message of the server does (centrifuge/client.py): `_process_reply`, the pushes, the ping, and
-- the loops that read and process messages.
use centrifuge_python.Base.{
  ℕ, Bool, true, false, not, ◌&&◌, ◌||◌, Option, none, some, List, [], ◌∷◌, ◌==◌, ltb, leb,
  if◌then◌else◌,
}
use centrifuge_python.Codes.{
  ConnectingCode, DisconnectedCode, connecting_number, disconnected_number,
  unsubscribed_state_invalidated,
}
use centrifuge_python.Events.{
  Text, Channel, ClientInfo, Publication, Reason, of_connecting, of_disconnected, of_text, Event,
  on_join, on_leave, on_server_join, on_server_leave, on_server_subscribed, on_server_unsubscribed,
}
use centrifuge_python.Client.World.{
  World, ServerSubscription, ServerSubscribe, ping_wait, get, put, delete, pong,
}
use centrifuge_python.Client.Coroutine.{
  Co, pass, ret, read, update, branch, when, emit, ◌>>=◌, ◌>>◌,
}
use centrifuge_python.Client.Subscription.{is_subscribed, invalidate_state}
use centrifuge_python.Client.Commands.{future_success}
use centrifuge_python.Client.Teardown.{
  attempt_current, connection_current, do_disconnect, drop_connection, send_commands,
}
use centrifuge_python.Client.Publications.{
  ApplyDelta, sub_process_publication, process_server_publication,
}
use centrifuge_python.Client.Moves.{move_unsubscribed, move_subscribing, position}

-- A push, by the key that it has.
pub data Push : Type 0 where
  pub_push : Channel → ℕ → Publication → Push
  join_push leave_push : Channel → ℕ → ClientInfo → Push
  unsubscribe_push : Channel → ℕ → Text → Push
  subscribe_push : Channel → ServerSubscribe → Push
  disconnect_push : ℕ → Text → Push
  unknown_push : Push

-- A message: the reply to a command, a push, or else a ping.
pub data Message : Type 0 where
  reply_message : ℕ → Message
  push_message : Push → Message
  ping_message : Message

-- `_sub_for_push`
unfoldable pub sub_for_push : Channel → ℕ → World → Option ℕ
sub_for_push channel push_id w =
    if ltb 0 push_id then get push_id w.subs_by_id else get channel w.subs

-- `_subscribed_sub_for_push`
unfoldable pub subscribed_sub_for_push : Channel → ℕ → World → Option ℕ
unfolding sub_for_push
subscribed_sub_for_push channel push_id w = elim (sub_for_push channel push_id w) [
  | none ↦ none
  | some i ↦ if is_subscribed (w.sub i).state then some i else none
]

-- `push_id == 0 and channel in self._server_subs`
abbrev pub is_server_push : Channel → ℕ → World → Bool
is_server_push channel push_id w =
    push_id == 0 && (elim (get channel w.server_subs) [ none ↦ false | some _ ↦ true ])

-- `_process_publication` for the client-side subscription that the push is for, if any.
unfoldable pub publication_to : ApplyDelta → Channel → ℕ → Publication → Option ℕ → Co Bool
publication_to apply_delta channel push_id publication (some i) =
    sub_process_publication apply_delta i publication
publication_to apply_delta channel push_id publication none =
    when (is_server_push channel push_id) (process_server_publication channel publication)
    >> ret true

-- `_process_publication`
unfoldable pub process_publication : ApplyDelta → Channel → ℕ → Publication → Co Bool
process_publication apply_delta channel push_id publication = do
  found ← read (subscribed_sub_for_push channel push_id)
  publication_to apply_delta channel push_id publication found

-- `_process_join` and `_process_leave`, with their events.
unfoldable pub join_leave_to :
    (ℕ → ClientInfo → Event)
    → (Channel → ClientInfo → Event)
    → Channel
    → ℕ
    → ClientInfo
    → Option ℕ
    → Co (Unit {0})
join_leave_to event server_event channel push_id info (some i) = emit (event i info)
join_leave_to event server_event channel push_id info none =
    when (is_server_push channel push_id) (emit (server_event channel info))

unfoldable pub process_join_leave :
    (ℕ → ClientInfo → Event)
    → (Channel → ClientInfo → Event)
    → Channel
    → ℕ
    → ClientInfo
    → Co (Unit {0})
process_join_leave event server_event channel push_id info = do
  found ← read (subscribed_sub_for_push channel push_id)
  join_leave_to event server_event channel push_id info found

-- `_process_unsubscribe` for the client-side subscription of the channel, if any.
unfoldable pub unsubscribe_to : Channel → ℕ → Text → Option ℕ → Co (Unit {0})
unsubscribe_to channel code reason (some i) =
    branch (λ _. ltb code 2500) (move_unsubscribed i code (of_text reason) false)
      (when (λ _. code == unsubscribed_state_invalidated) (update (invalidate_state i))
        >> move_subscribing i code (of_text reason) false)
unsubscribe_to channel code reason none =
    when (λ w. elim (get channel w.server_subs) [ none ↦ false | some _ ↦ true ])
      (update (λ w. record w { server_subs = delete channel w.server_subs })
        >> emit (on_server_unsubscribed channel))

-- `_process_unsubscribe`
unfoldable pub process_unsubscribe : Channel → ℕ → Text → Co (Unit {0})
process_unsubscribe channel code reason = do
  found ← read (subscribed_sub_for_push channel 0)
  unsubscribe_to channel code reason found

-- `_ServerSubscription(…)` of what the server says.
abbrev pub server_subscription : ServerSubscribe → ServerSubscription
server_subscription subscribe = record {
  offset = subscribe.offset;
  epoch = subscribe.epoch;
  recoverable = subscribe.recoverable;
}

-- `_process_subscribe`
unfoldable pub process_subscribe : Channel → ServerSubscribe → Co (Unit {0})
process_subscribe channel subscribe = do
  update (λ w. record w { server_subs = put channel (server_subscription subscribe) w.server_subs })
  emit (
      on_server_subscribed (record {
        channel = channel;
        recoverable = subscribe.recoverable;
        positioned = subscribe.positioned;
        stream_position =
            position subscribe.positioned subscribe.recoverable subscribe.offset subscribe.epoch;
        was_recovering = false;
        recovered = false;
        data' = subscribe.data';
      }))

-- `(3500 <= code < 4000) or (4500 <= code < 5000)`
unfoldable pub is_terminal : ℕ → Bool
is_terminal code = (leb 3500 code && ltb code 4000) || (leb 4500 code && ltb code 5000)

-- `_process_disconnect`
unfoldable pub process_disconnect : ℕ → Text → Co (Unit {0})
process_disconnect code reason = do_disconnect code (of_text reason) (not (is_terminal code))

-- `_no_ping`
unfoldable pub no_ping : Co (Unit {0})
no_ping = drop_connection ConnectingCode.no_ping

-- `_restart_ping_wait`
unfoldable pub restart_ping_wait : World → World
restart_ping_wait w = record w { ping_timer = some (ping_wait w.ping_interval) }

-- `_handle_ping`
unfoldable pub handle_ping : Co (Unit {0})
handle_ping = when (λ w. w.send_pong) (send_commands 0 pong) >> update restart_ping_wait

unfoldable pub process_push : ApplyDelta → Push → Co Bool
process_push apply_delta (pub_push channel push_id publication) =
    process_publication apply_delta channel push_id publication
process_push apply_delta (join_push channel push_id info) =
    process_join_leave on_join on_server_join channel push_id info >> ret true
process_push apply_delta (leave_push channel push_id info) =
    process_join_leave on_leave on_server_leave channel push_id info >> ret true
process_push apply_delta (unsubscribe_push channel code reason) =
    process_unsubscribe channel code reason >> ret true
process_push apply_delta (subscribe_push channel subscribe) =
    process_subscribe channel subscribe >> ret true
process_push apply_delta (disconnect_push code reason) = process_disconnect code reason >> ret true
process_push apply_delta unknown_push = ret true

-- `_process_reply`. `false` is the `ValueError` of the codec.
unfoldable pub process_reply : ApplyDelta → Message → Co Bool
process_reply apply_delta (reply_message cmd_id) = future_success cmd_id >> ret true
process_reply apply_delta (push_message push) = process_push apply_delta push
process_reply apply_delta ping_message = handle_ping >> ret true

-- The loop of `_process_incoming_data` over the replies of a frame.
unfoldable pub process_replies : ApplyDelta → List Message → ℕ → Co Bool
process_replies apply_delta [] attempt = ret true
process_replies apply_delta (reply ∷ replies) attempt =
    branch (λ w. w.transport_id == attempt)
      (do
        handled ← process_reply apply_delta reply
        if handled then process_replies apply_delta replies attempt else ret false)
      (ret true)

-- `_fail_connection_attempt`
unfoldable pub fail_connection_attempt : ℕ → Co (Unit {0})
fail_connection_attempt attempt =
    when (attempt_current attempt) (drop_connection ConnectingCode.transport_closed)

-- `_handler_failed`; the text of its reason is `message`.
unfoldable pub handler_failed : ℕ → Text → Co (Unit {0})
handler_failed attempt message =
    branch (attempt_current attempt) (fail_connection_attempt attempt) (
      when (connection_current attempt)
        (do_disconnect (disconnected_number DisconnectedCode.bad_protocol) (of_text message) false))

-- A message with what the codec makes of it, `none` where it cannot decode it.
unfoldable pub process_decoded : ApplyDelta → ℕ → Text → Option (List Message) → Co (Unit {0})
process_decoded apply_delta attempt error none = handler_failed attempt error
process_decoded apply_delta attempt error (some replies) = do
  handled ← process_replies apply_delta replies attempt
  if handled then pass else handler_failed attempt error

-- One message of `_process_messages`.
unfoldable pub process_message : ApplyDelta → Option (List Message) → ℕ → Text → Co (Unit {0})
process_message apply_delta message attempt error =
    when (λ w. w.transport_id == attempt) (process_decoded apply_delta attempt error message)

-- What `_listen` passes to `_disconnect` for a close code (0 for none) and the reason of the server.
unfoldable pub close_decision : ℕ → Text → ℕ × (Reason × Bool)
close_decision ws_code ws_reason =
    if ltb ws_code 3000
    then (if ws_code == 1009
        then (
          disconnected_number DisconnectedCode.message_size_limit,
          (of_disconnected DisconnectedCode.message_size_limit, true),
        )
        else (
          connecting_number ConnectingCode.transport_closed,
          (of_connecting ConnectingCode.transport_closed, true),
        ))
    else (ws_code, (of_text ws_reason, not (is_terminal ws_code)))

-- The end of `_listen`, where the transport is closed.
unfoldable pub connection_lost : ℕ → Text → ℕ → Co (Unit {0})
connection_lost ws_code ws_reason attempt =
    when (λ w. w.transport_id == attempt)
      (let (code, (reason, reconnect)) = close_decision ws_code ws_reason in
        do_disconnect code reason reconnect)
