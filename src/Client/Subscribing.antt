-- ===== src/Client/Subscribing.antt =====
-- The subscribe flow (centrifuge/client.py): `_subscribe`, `_subscribe_attempt`, `_subscribe_steps`,
-- `_subscribe_token_failed` and `_load_state_position`. `false` is an exception that escapes. What the
-- app's `get_state` is cancelled with ends the flow.
use centrifuge_python.Client.World.{
  SubscribeRequest, World, Subscription, SubscribeResult, ReplyError, subscribe_command,
  schedule_resubscribe_task, modify_sub, get,
}
use centrifuge_python.Base.{
  ℕ, Bool, true, false, not, ◌&&◌, ◌||◌, Option, none, some, ◌==◌, if◌then◌else◌, ◌∷◌,
}
use centrifuge_python.Codes.{
  ConnectingCode, ErrorCode, is_token_expired, error_code_unrecoverable_position,
}
use centrifuge_python.Events.{Text, empty_text, Channel, StreamPosition, Error, of_text}
use centrifuge_python.Client.Coroutine.{
  Co, Answer, sub_get_token, sub_get_state, reply_of, raised, replied, token_of, position_of, pass,
  ret, read, update, branch, when, await, emit, ◌>>=◌, ◌>>◌,
}
use centrifuge_python.Client.Subscription.{is_subscribing, next_attempt, schedule_resubscribe}
use centrifuge_python.Client.Commands.{
  next_command_id, register_future, construct_subscribe_command,
}
use centrifuge_python.Client.Teardown.{
  is_connected, connection_current, drop_connection, send_commands,
}
use centrifuge_python.Client.Publications.{ApplyDelta}
use centrifuge_python.Client.Moves.{move_unsubscribed, move_subscribed, is_timeout, resubscribe}
use centrifuge_python.Client.Messages.{handler_failed}
use centrifuge_python.Client.Connecting.{is_unauthorized}
use centrifuge_python.Client.Refreshing.{on_sub_error, unsubscribe_unauthorized}

-- The test `current` of `_subscribe_attempt` for the subscription `i`.
abbrev pub subscribe_current : ℕ → ℕ → ℕ → World → Bool
subscribe_current i attempt connection w =
    (w.sub i).attempt == attempt
    && is_subscribing (w.sub i).state
    && connection_current connection w

abbrev pub is_client_disconnected : Error → Bool
is_client_disconnected error = elim error [ Error.client_disconnected ↦ true | _ ↦ false ]

-- `_subscribe_token_failed`
unfoldable pub subscribe_token_failed : ℕ → ℕ → ℕ → Error → Co (Unit {0})
subscribe_token_failed i attempt connection error = when (subscribe_current i attempt connection) (
    branch (λ _. is_unauthorized error) (unsubscribe_unauthorized i false)
      (emit (on_sub_error i ErrorCode.subscription_subscribe_token error)
        >> when (subscribe_current i attempt connection)
            (update (modify_sub i schedule_resubscribe))))

-- "Unrecoverable position with get_state: reset position"
unfoldable pub forget_position : Subscription → Subscription
forget_position s = record s { recover = false; offset = 0; epoch = empty_text; prev_data = none }

-- The end of `_subscribe_steps` where the error of the reply is not one of the special ones.
unfoldable pub subscribe_refused : ℕ → ReplyError → Co (Unit {0})
subscribe_refused i error =
    when (λ _. is_token_expired error.code)
      (update (modify_sub i (λ s. record s { token = empty_text })))
    >> branch (λ _. is_token_expired error.code || error.temporary)
        (emit (
            on_sub_error i ErrorCode.subscribe_error (
              Error.reply_error error.code error.message
                (is_token_expired error.code || error.temporary)))
          >> update (modify_sub i schedule_resubscribe))
        (move_unsubscribed i error.code (of_text error.message) false)

-- The error of a subscribe reply.
unfoldable pub subscribe_rejected : ℕ → ℕ → ℕ → ReplyError → Co (Unit {0})
subscribe_rejected i attempt connection error =
    branch (λ w. error.code == error_code_unrecoverable_position && (w.sub i).has_get_state)
      (update (modify_sub i forget_position) >> update (modify_sub i schedule_resubscribe))
      (branch (λ w. is_token_expired error.code && not (w.sub i).has_get_token)
        (emit (on_sub_error i ErrorCode.bad_configuration Error.centrifuge_error)
          >> when (subscribe_current i attempt connection) (unsubscribe_unauthorized i false))
        (subscribe_refused i error))

-- The reply to the subscribe command. One with neither an error nor a result is a `KeyError`.
unfoldable pub subscribe_replied :
    ApplyDelta → ℕ → ℕ → ℕ → Option ReplyError → Option SubscribeResult → Co Bool
subscribe_replied apply_delta i attempt connection (some error) result =
    subscribe_rejected i attempt connection error >> ret true
subscribe_replied apply_delta i attempt connection none (some result) =
    move_subscribed apply_delta i result
subscribe_replied apply_delta i attempt connection none none = ret false

-- The exception that the subscribe command ends with.
unfoldable pub subscribe_failed : ℕ → ℕ → ℕ → Error → Co (Unit {0})
subscribe_failed i attempt connection error =
    when (λ w. not (is_client_disconnected error) && subscribe_current i attempt connection w)
      (branch (λ _. is_timeout error)
        (emit (on_sub_error i ErrorCode.timeout error)
          >> when (subscribe_current i attempt connection)
              (drop_connection ConnectingCode.subscribe_timeout))
        (emit (on_sub_error i ErrorCode.subscribe_error error)
          >> update (modify_sub i schedule_resubscribe)))

-- The answer to the subscribe command.
unfoldable pub subscribe_answered : ApplyDelta → ℕ → ℕ → ℕ → Answer → Co Bool
subscribe_answered apply_delta i attempt connection (raised error) =
    subscribe_failed i attempt connection error >> ret true
subscribe_answered apply_delta i attempt connection (replied reply) =
    branch (subscribe_current i attempt connection)
      (subscribe_replied apply_delta i attempt connection reply.error reply.subscribe) (ret true)
subscribe_answered apply_delta i attempt connection _ = ret true

-- `_subscribe_steps` with its command. For data that `_encode_data` refuses the `CentrifugeError` reaches
-- `_subscribe`.
unfoldable pub submit_subscribe : ApplyDelta → ℕ → ℕ → ℕ → ℕ → Option SubscribeRequest → Co Bool
submit_subscribe apply_delta i attempt connection cmd_id none = ret false
submit_subscribe apply_delta i attempt connection cmd_id (some request) = do
  update (λ w. register_future true w.timeout cmd_id w)
  send_commands cmd_id (subscribe_command cmd_id request)
  answer ← await (reply_of cmd_id)
  subscribe_answered apply_delta i attempt connection answer

-- `_subscribe_steps` from its command on.
unfoldable pub send_subscribe : ApplyDelta → ℕ → ℕ → ℕ → Co Bool
send_subscribe apply_delta i attempt connection = do
  update next_command_id
  cmd_id ← read (λ w. w.command_id)
  request ← read (λ w. construct_subscribe_command (w.sub i))
  submit_subscribe apply_delta i attempt connection cmd_id request

-- `_subscribe_steps` with the answer of the app to the request for a token.
unfoldable pub sub_token_answered : ApplyDelta → ℕ → ℕ → ℕ → Answer → Co Bool
sub_token_answered apply_delta i attempt connection (token_of token) =
    branch (subscribe_current i attempt connection)
      (branch (λ _. token == empty_text) (unsubscribe_unauthorized i false >> ret true)
        (update (modify_sub i (λ s. record s { token = token }))
          >> send_subscribe apply_delta i attempt connection))
      (ret true)
sub_token_answered apply_delta i attempt connection (raised error) =
    subscribe_token_failed i attempt connection error >> ret true
sub_token_answered apply_delta i attempt connection _ =
    subscribe_token_failed i attempt connection Error.other_error >> ret true

-- `_subscribe_steps` from the token on.
unfoldable pub subscribe_with_token : ApplyDelta → ℕ → ℕ → ℕ → Co Bool
subscribe_with_token apply_delta i attempt connection =
    branch (λ w. (w.sub i).token == empty_text && (w.sub i).has_get_token)
      (do
        answer ← await (sub_get_token i)
        sub_token_answered apply_delta i attempt connection answer)
      (send_subscribe apply_delta i attempt connection)

abbrev pub adopt_position : StreamPosition → Subscription → Subscription
adopt_position position s = record s {
  recover = true;
  offset = position.offset;
  epoch = position.epoch;
}

-- `_load_state_position` with the answer of the app.
unfoldable pub state_answered : ℕ → ℕ → ℕ → Answer → Co Bool
state_answered i attempt connection (position_of position) =
    branch (λ w. not ((w.sub i).attempt == attempt) || not (is_subscribing (w.sub i).state))
      (ret false)
      (update (modify_sub i (adopt_position position))
        >> read (subscribe_current i attempt connection))
state_answered i attempt connection (raised error) =
    when (subscribe_current i attempt connection) (
      emit (on_sub_error i ErrorCode.subscription_get_state error)
      >> update (λ w. record w { spawned = schedule_resubscribe_task i ∷ w.spawned }))
    >> ret false
state_answered i attempt connection _ = ret false

-- `_load_state_position`
unfoldable pub load_state_position : ℕ → ℕ → ℕ → Co Bool
load_state_position i attempt connection = do
  answer ← await (sub_get_state i)
  state_answered i attempt connection answer

-- `_subscribe_steps`
unfoldable pub subscribe_steps : ApplyDelta → ℕ → ℕ → ℕ → Co Bool
subscribe_steps apply_delta i attempt connection =
    branch (λ w. (w.sub i).has_get_state && not (w.sub i).recover)
      (do
        proceed ← load_state_position i attempt connection
        branch (λ _. proceed) (subscribe_with_token apply_delta i attempt connection) (ret true))
      (subscribe_with_token apply_delta i attempt connection)

-- `sub._inflight == (connection, attempt)`
abbrev pub has_flow : ℕ → ℕ → Subscription → Bool
has_flow connection attempt s = elim s.inflight [
  | none ↦ false
  | some (c, a) ↦ c == connection && a == attempt
]

-- The `finally` of `_subscribe_attempt`.
unfoldable pub end_flow : ℕ → ℕ → Subscription → Subscription
end_flow connection attempt s =
    if has_flow connection attempt s then record s { inflight = none } else s

-- `_subscribe_attempt` from where it takes the attempt.
unfoldable pub run_flow : ApplyDelta → ℕ → Co Bool
run_flow apply_delta i = do
  update (modify_sub i next_attempt)
  attempt ← read (λ w. (w.sub i).attempt)
  connection ← read (λ w. w.transport_id)
  update (modify_sub i (λ s. record s { inflight = some (connection, attempt) }))
  finished ← subscribe_steps apply_delta i attempt connection
  update (modify_sub i (end_flow connection attempt))
  ret finished

-- `_subscribe_attempt`
unfoldable pub subscribe_attempt : ApplyDelta → ℕ → Co Bool
subscribe_attempt apply_delta i =
    branch
      (λ w.
        not (is_connected w.state)
        || not (is_subscribing (w.sub i).state)
        || has_flow w.transport_id (w.sub i).attempt (w.sub i))
      (ret true) (run_flow apply_delta i)

-- The `except` of `_subscribe`, with the text of its exception.
unfoldable pub subscribe_raised : ℕ → ℕ → Text → Co (Unit {0})
subscribe_raised i connection message = when (connection_current connection) (
    branch (λ w. is_subscribing (w.sub i).state) (update (modify_sub i schedule_resubscribe))
      (handler_failed connection message))

-- `_subscribe` for the subscription that the channel has.
unfoldable pub subscribe_of : ApplyDelta → Text → Option ℕ → Co (Unit {0})
subscribe_of apply_delta message none = pass
subscribe_of apply_delta message (some i) = do
  connection ← read (λ w. w.transport_id)
  finished ← subscribe_attempt apply_delta i
  branch (λ _. finished) pass (subscribe_raised i connection message)

-- `_subscribe`
unfoldable pub subscribe_channel : ApplyDelta → Channel → Text → Co (Unit {0})
subscribe_channel apply_delta channel message = do
  found ← read (λ w. get channel w.subs)
  subscribe_of apply_delta message found

-- `Subscription._resubscribe`, which the timer of `_schedule_resubscribe` runs.
unfoldable pub resubscribe_fired : ℕ → Co (Unit {0})
resubscribe_fired i = when (λ w. is_subscribing (w.sub i).state) (update (resubscribe i))
