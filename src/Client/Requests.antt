-- ===== src/Client/Requests.antt =====
-- The requests of the app (centrifuge/client.py): `publish`, `history`, `presence`, `presence_stats` and
-- `rpc` of `Client` and of `Subscription`, what waits for a connection, and the timeout of a command.
pub mod Laws
use centrifuge_python.Base.{
  ℕ, ◌+◌, Bool, true, false, not, ◌&&◌, Option, none, some, List, ◌==◌, if◌then◌else◌,
}
use centrifuge_python.Events.{Text, Channel, Payload, ClientInfo, Publication, Error}
use centrifuge_python.Client.World.{
  World, AppData, bytes, text, value, RecoverPosition, HistoryResult, Reply, ReplyError, Command,
  publish_command, history_command, presence_command, presence_stats_command, rpc_command, Dict,
  get, put, Callback,
}
use centrifuge_python.Client.Coroutine.{
  Co, Answer, Call, reply_of, connected_wait, subscribed_wait, returned, raised, replied, ret, read,
  update, branch, await, ◌>>=◌, ◌>>◌,
}
use centrifuge_python.Client.Subscription.{is_unsubscribed}
use centrifuge_python.Client.Commands.{next_command_id, register_future, future_error}
use centrifuge_python.Client.Teardown.{is_disconnected, send_commands}

-- What a call returns or raises.
pub data Response (A : Type 0) : Type 0 where
  gives : A → Response A
  raises : Error → Response A

abbrev pub map_response : {A B : Type 0} → (A → B) → Response A → Response B
map_response f (gives a) = gives (f a)
map_response f (raises e) = raises e

-- `base64` is a parameter.
module _ (use_protobuf : Bool) (b64encode b64decode : Payload → Payload) where
  -- `_encode_data`. `none` is the `CentrifugeError`.
  unfoldable pub encode_data : AppData → Option AppData
  encode_data (bytes b) = if use_protobuf then some (bytes (b64encode b)) else none
  encode_data (text t) = if use_protobuf then none else some (text t)
  encode_data (value v) = if use_protobuf then none else some (value v)

  -- `_decode_data`
  unfoldable pub decode_data : Option AppData → Option AppData
  decode_data none = none
  decode_data (some (bytes b)) = some (bytes b)
  decode_data (some (text t)) = some (if use_protobuf then bytes (b64decode t) else text t)
  decode_data (some (value v)) = some (value v)

-- The timeout callback of `_register_future` and `_register_future_with_done`.
unfoldable pub command_timeout : ℕ → World → World
command_timeout cmd_id w = elim (get cmd_id w.inflight_commands) [
  | none ↦ w
  | some cb ↦
      if cb.timeout && not cb.future_done then future_error cmd_id Error.operation_timeout w else w
]

-- How a wait for a future ends: its result, its exception, or a timeout.
unfoldable pub waited : Answer → Response (Unit {0})
waited returned = gives tt
waited (raised error) = raises error
waited _ = raises Error.operation_timeout

-- `Client.ready`
unfoldable pub ready : Co (Response (Unit {0}))
ready =
    branch (λ w. is_disconnected w.state) (ret (raises Error.client_disconnected))
      (do answer ← await connected_wait; ret (waited answer))

-- `Subscription.ready`
unfoldable pub sub_ready : ℕ → Co (Response (Unit {0}))
sub_ready i =
    branch (λ w. not (w.sub i).client) (ret (raises Error.centrifuge_error))
      (branch (λ w. is_unsubscribed (w.sub i).state) (ret (raises Error.subscription_unsubscribed))
        (do answer ← await (subscribed_wait i); ret (waited answer)))

-- `_check_reply_error`
unfoldable pub check_reply_error : Reply → Response Reply
check_reply_error reply = elim reply.error [
  | none ↦ gives reply
  | some error ↦ raises (Error.reply_error error.code error.message error.temporary)
]

unfoldable pub reply_answered : Answer → Response Reply
unfolding check_reply_error
reply_answered (replied reply) = check_reply_error reply
reply_answered (raised error) = raises error
reply_answered _ = raises Error.other_error

-- A command with its id, or none where its data cannot be encoded.
unfoldable pub send_request : ℕ → Option Command → Co (Response Reply)
send_request cmd_id none = ret (raises Error.centrifuge_error)
send_request cmd_id (some command) = do
  update (λ w. register_future false w.timeout cmd_id w)
  send_commands cmd_id command
  answer ← await (reply_of cmd_id)
  ret (reply_answered answer)

unfoldable pub request_ready : (ℕ → Option Command) → Response (Unit {0}) → Co (Response Reply)
request_ready make (raises error) = ret (raises error)
request_ready make (gives _) = do
  update next_command_id
  cmd_id ← read (λ w. w.command_id)
  send_request cmd_id (make cmd_id)

-- What the requests have in common.
unfoldable pub request : (ℕ → Option Command) → Co (Response Reply)
request make = do waiting ← ready; request_ready make waiting

-- A result that the reply does not have is a `KeyError`.
abbrev pub result_of : {A : Type 0} → (Reply → Option A) → Response Reply → Response A
result_of field (raises error) = raises error
result_of field (gives reply) = elim (field reply) [
  | none ↦ raises Error.other_error
  | some result ↦ gives result
]

module _ (use_protobuf : Bool) (b64encode b64decode : Payload → Payload) where
  -- `publish`
  unfoldable pub publish : Channel → AppData → Co (Response (Unit {0}))
  publish channel payload = do
    response ← request (λ cmd_id. elim (encode_data use_protobuf b64encode b64decode payload) [
      | none ↦ none
      | some encoded ↦ some (publish_command cmd_id channel encoded)
    ])
    ret (map_response (λ _. tt) response)

  -- `rpc`
  unfoldable pub rpc : Text → AppData → Co (Response (Option AppData))
  rpc method payload = do
    response ← request (λ cmd_id. elim (encode_data use_protobuf b64encode b64decode payload) [
      | none ↦ none
      | some encoded ↦ some (rpc_command cmd_id method encoded)
    ])
    ret (
        map_response (decode_data use_protobuf b64encode b64decode)
          (result_of (λ r. r.rpc) response))

-- `history`
unfoldable pub history : Channel → ℕ → Option RecoverPosition → Bool → Co (Response HistoryResult)
history channel limit since reverse = do
  response ← request (λ cmd_id. some (history_command cmd_id channel limit since reverse))
  ret (result_of (λ r. r.history) response)

-- `presence`
unfoldable pub presence : Channel → Co (Response (Dict ClientInfo))
presence channel = do
  response ← request (λ cmd_id. some (presence_command cmd_id channel))
  ret (result_of (λ r. r.presence) response)

-- `presence_stats`
unfoldable pub presence_stats : Channel → Co (Response (ℕ × ℕ))
presence_stats channel = do
  response ← request (λ cmd_id. some (presence_stats_command cmd_id channel))
  ret (result_of (λ r. r.presence_stats) response)

abbrev pub after_ready : {A : Type 0} → Response (Unit {0}) → Co (Response A) → Co (Response A)
after_ready (raises error) call = ret (raises error)
after_ready (gives _) call = call

-- A request of a subscription: `history`, `presence`, `presence_stats` and `publish` of `Subscription`
-- wait for it and call the client's method on its channel.
unfoldable pub sub_request : {A : Type 0} → ℕ → (Channel → Co (Response A)) → Co (Response A)
sub_request i call = do
  waiting ← sub_ready i
  channel ← read (λ w. (w.sub i).channel)
  after_ready waiting (call channel)
