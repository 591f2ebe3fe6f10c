-- ===== src/Client/Moves.antt =====
-- The transitions of a subscription (centrifuge/client.py): `subscribe`, `unsubscribe` and the
-- `_move_…` methods of `Subscription`, with the methods of `Client` that they call.
use centrifuge_python.Base.{
  ℕ, ◌+◌, Bool, true, false, not, ◌&&◌, ◌||◌, Option, none, some, List, [], ◌∷◌, ◌==◌,
  if◌then◌else◌,
}
use centrifuge_python.Codes.{
  SubscribingCode, UnsubscribedCode, ConnectingCode, subscribing_number, unsubscribed_number,
}
use centrifuge_python.Events.{
  Text, StreamPosition, Publication, Reason, of_subscribing, of_unsubscribed, on_subscribing,
  on_subscribed, on_unsubscribed, Error,
}
use centrifuge_python.Client.World.{
  World, Subscription, subscribing, subscribed, resolved, after_ttl, put, SubscribeResult,
  unsubscribe_command, subscribe_task, resubscribe_task, unsubscribe_result_task, modify_sub, Reply,
}
use centrifuge_python.Client.Coroutine.{
  Co, replied, raised, reply_of, pass, ret, read, update, branch, when, await, emit, ◌>>=◌, ◌>>◌,
  Answer,
}
use centrifuge_python.Client.Subscription.{
  is_subscribed, is_subscribing, is_unsubscribed, renewed, enter_subscribing, become_unsubscribed,
  set_push_id, session_current, clear_subscribing_state,
}
use centrifuge_python.Client.Commands.{next_command_id, register_future}
use centrifuge_python.Client.Teardown.{
  is_connected, connection_current, drop_connection, send_commands,
}
use centrifuge_python.Client.Publications.{ApplyDelta, sub_process_publication}

-- `Client._resubscribe`
unfoldable pub resubscribe : ℕ → World → World
resubscribe i w = record w {
  subs = put (w.sub i).channel i w.subs;
  spawned = subscribe_task (w.sub i).channel ∷ w.spawned;
}

-- `Client._unsubscribe`
unfoldable pub send_unsubscribe : ℕ → Co (Unit {0})
send_unsubscribe i =
    when (λ w. is_connected w.state)
      (do
        update next_command_id
        cmd_id ← read (λ w. w.command_id)
        update (λ w. register_future false w.timeout cmd_id w)
        connection ← read (λ w. w.transport_id)
        channel ← read (λ w. (w.sub i).channel)
        send_commands cmd_id (unsubscribe_command cmd_id channel)
        update (λ w. record w { spawned = unsubscribe_result_task cmd_id connection ∷ w.spawned }))

abbrev pub is_timeout : Error → Bool
is_timeout error = elim error [ Error.operation_timeout ↦ true | _ ↦ false ]

abbrev pub has_error : Reply → Bool
has_error reply = elim reply.error [ none ↦ false | some _ ↦ true ]

-- `_unsubscribe_result` with the answer to the command.
unfoldable pub unsubscribe_answered : ℕ → Answer → Co (Unit {0})
unsubscribe_answered connection (raised error) =
    when (λ w. is_timeout error && connection_current connection w)
      (drop_connection ConnectingCode.unsubscribe_error)
unsubscribe_answered connection (replied reply) =
    when (λ w. connection_current connection w && has_error reply)
      (drop_connection ConnectingCode.unsubscribe_error)
unsubscribe_answered connection _ = pass

-- `Client._unsubscribe_result`
unfoldable pub unsubscribe_result : ℕ → ℕ → Co (Unit {0})
unsubscribe_result cmd_id connection = do
  answer ← await (reply_of cmd_id)
  unsubscribe_answered connection answer

-- `_move_unsubscribed`
unfoldable pub move_unsubscribed : ℕ → ℕ → Reason → Bool → Co (Unit {0})
move_unsubscribed i code reason send_unsubscribe_command =
    branch (λ w. is_unsubscribed (w.sub i).state) pass
      (do
        client ← read (λ w. (w.sub i).client)
        update (become_unsubscribed i)
        when (λ _. send_unsubscribe_command && client) (send_unsubscribe i)
        emit (on_unsubscribed i (record { code = code; reason = reason })))

-- `Subscription.unsubscribe`
unfoldable pub unsubscribe : ℕ → Co (Unit {0})
unsubscribe i =
    move_unsubscribed i (unsubscribed_number UnsubscribedCode.unsubscribe_called)
      (of_unsubscribed UnsubscribedCode.unsubscribe_called) true

-- What `_move_subscribing` does before its event.
unfoldable pub start_subscribing : Subscription → Subscription
start_subscribing s = if is_subscribed s.state then enter_subscribing s else record s {
  state = subscribing;
  attempt = s.attempt + 1;
  subscribed_future = renewed s.subscribed_future;
}

-- `_move_subscribing`
unfoldable pub move_subscribing : ℕ → ℕ → Reason → Bool → Co (Unit {0})
move_subscribing i code reason skip_schedule_resubscribe =
    branch (λ w. is_subscribing (w.sub i).state) pass
      (do
        update (modify_sub i start_subscribing)
        attempt ← read (λ w. (w.sub i).attempt)
        emit (on_subscribing i (record { code = code; reason = reason }))
        when
            (λ w. not skip_schedule_resubscribe && (w.sub i).attempt == attempt && (w.sub i).client)
            (update (λ w. record w { spawned = resubscribe_task i ∷ w.spawned })))

-- `Subscription.subscribe`. `false` is the `CentrifugeError` for a removed subscription.
unfoldable pub subscribe : ℕ → Co Bool
subscribe i =
    branch (λ w. not (w.sub i).client) (ret false)
      (branch (λ w. not (is_unsubscribed (w.sub i).state)) (ret true)
        (do
          update (
              modify_sub i (λ s. record s {
                state = subscribing;
                subscribed_future = renewed s.subscribed_future;
              }))
          emit (
              on_subscribing i (record {
                code = subscribing_number SubscribingCode.subscribe_called;
                reason = of_subscribing SubscribingCode.subscribe_called;
              }))
          when (λ w. is_subscribing (w.sub i).state && (w.sub i).client) (update (resubscribe i))
          ret true))

-- What `_move_subscribed` does before its event.
unfoldable pub accept_subscribed : SubscribeResult → Subscription → Subscription
accept_subscribed result s =
    let s₁ : Subscription = record s {
      state = subscribed;
      attempt = s.attempt + 1;
      subscribed_future = resolved;
    } in
    let s₂ : Subscription =
      (if result.recoverable
        then record s₁ { recover = true; offset = result.offset; epoch = result.epoch }
        else s₁) in
    let s₃ : Subscription =
      (if result.expires then record s₂ { refresh_timer = some (after_ttl result.ttl) } else s₂) in
    record s₃ { delta_negotiated = result.delta }

abbrev pub position : Bool → Bool → ℕ → Text → Option StreamPosition
position positioned recoverable offset epoch =
    if positioned || recoverable then some (record { offset = offset; epoch = epoch }) else none

-- The loop over the recovered publications. `false` is the `ValueError` of the codec.
unfoldable pub deliver_recovered : ApplyDelta → ℕ → ℕ → List Publication → Co Bool
deliver_recovered apply_delta i session [] = ret true
deliver_recovered apply_delta i session (publication ∷ publications) =
    branch (λ w. session_current session (w.sub i))
      (do
        handled ← sub_process_publication apply_delta i publication
        if handled then deliver_recovered apply_delta i session publications else ret false)
      (ret true)

-- `_move_subscribed`
unfoldable pub move_subscribed : ApplyDelta → ℕ → SubscribeResult → Co Bool
move_subscribed apply_delta i result =
    branch (λ w. not (is_subscribing (w.sub i).state)) (ret true)
      (do
        update (modify_sub i (accept_subscribed result))
        session ← read (λ w. (w.sub i).attempt)
        update (set_push_id i result.id)
        channel ← read (λ w. (w.sub i).channel)
        emit (
            on_subscribed i (record {
              channel = channel;
              recoverable = result.recoverable;
              positioned = result.positioned;
              stream_position =
                  position result.positioned result.recoverable result.offset result.epoch;
              was_recovering = result.was_recovering;
              recovered = result.recovered;
              data' = result.data';
            }))
        update (modify_sub i clear_subscribing_state)
        deliver_recovered apply_delta i session result.publications)
