-- ===== src/Client/World.antt =====
-- The state of a client and of its subscriptions (centrifuge/client.py), and the asyncio dicts.
-- A `Subscription` object is a number into the store `sub`, so two variables may name one object.
-- Durations are not modelled: a timer is armed or not, with what the source computes its delay from.
use centrifuge_python.Base.{ℕ, Bool, Option, none, some, List, [], ◌∷◌, ◌==◌, if◌then◌else◌}
use centrifuge_python.Events.{ClientInfo, Text, Channel, Payload, Event, Error, Publication}

pub data ClientState : Type 0 where
  disconnected connecting connected : ClientState

pub data SubscriptionState : Type 0 where
  unsubscribed subscribing subscribed : SubscriptionState

-- `asyncio.Future`: of `_connected_future` and `_subscribed_future`.
pub data Future : Type 0 where
  pending resolved failed : Future

-- An armed timer: `_backoff` of a number of attempts, a time to live, the wait for a ping, or the delay
-- of a refresh retry.
pub data Timer : Type 0 where
  backoff : ℕ → Timer
  after_ttl : ℕ → Timer
  ping_wait : ℕ → Timer
  refresh_retry : Timer

-- `_Callback`: whether its future is done already (the awaiting coroutine was cancelled), whether it
-- has a `done` future, whether it has a timeout timer.
pub record Callback : Type 0 where
  pub future_done : Bool
  pub done : Bool
  pub timeout : Bool

pub record ServerSubscription : Type 0 where
  pub offset : ℕ
  pub epoch : Text
  pub recoverable : Bool

-- How a command's future ended.
pub data Outcome : Type 0 where
  succeeded : Outcome
  excepted : Error → Outcome

abbrev pub Dict : Type 0 → Type 0
Dict V = List (ℕ × V)

module _ {V : Type 0} where
  unfoldable pub get : ℕ → Dict V → Option V
  get k [] = none
  get k ((j, v) ∷ d) = if k == j then some v else get k d

  -- `d[k] = v`
  unfoldable pub put : ℕ → V → Dict V → Dict V
  put k v [] = (k, v) ∷ []
  put k v ((j, w) ∷ d) = if k == j then (k, v) ∷ d else (j, w) ∷ put k v d

  -- `d.pop(k, None)`: a dict has a key once.
  unfoldable pub delete : ℕ → Dict V → Dict V
  delete k [] = []
  delete k ((j, w) ∷ d) = if k == j then delete k d else (j, w) ∷ delete k d

-- The fields of `Subscription` that an operation reads or writes. `has_get_token` and `has_get_state`
-- say whether the app passed these functions; `client` whether `_client` is not `None`. `data'` is what
-- `_encode_data` makes of `_data`, the inner `none` where it raises a `CentrifugeError`, and `none` where
-- `_data` is `None` or empty.
pub record Subscription : Type 0 where
  pub channel : Channel
  pub state : SubscriptionState
  pub subscribed_future : Future
  pub client : Bool
  pub token : Text
  pub has_get_token : Bool
  pub has_get_state : Bool
  pub data' : Option (Option Payload)
  pub positioned : Bool
  pub recoverable : Bool
  pub join_leave : Bool
  pub resubscribe_attempts : ℕ
  pub refresh_timer : Option Timer
  pub resubscribe_timer : Option Timer
  pub recover : Bool
  pub offset : ℕ
  pub epoch : Text
  pub prev_data : Option Payload
  pub push_id : ℕ
  pub attempt : ℕ
  pub pending' : Option (ℕ × ℕ)
  pub inflight : Option (ℕ × ℕ)
  pub delta : Bool
  pub delta_negotiated : Bool
  pub tags_filter : Option Payload

-- The parts of a reply that the client reads.
pub record ReplyError : Type 0 where
  pub code : ℕ
  pub message : Text
  pub temporary : Bool

-- What a reply or a push says of a server-side subscription.
pub record ServerSubscribe : Type 0 where
  pub recoverable : Bool
  pub positioned : Bool
  pub offset : ℕ
  pub epoch : Text
  pub was_recovering : Bool
  pub recovered : Bool
  pub publications : List Publication
  pub data' : Option Payload

pub record ConnectResult : Type 0 where
  pub client : Text
  pub version : Text
  pub data' : Option Payload
  pub pong : Bool
  pub ping : ℕ
  pub expires : Bool
  pub ttl : ℕ
  pub subs : Dict ServerSubscribe

pub record SubscribeResult : Type 0 where
  pub recoverable : Bool
  pub positioned : Bool
  pub offset : ℕ
  pub epoch : Text
  pub expires : Bool
  pub ttl : ℕ
  pub delta : Bool
  pub id : ℕ
  pub was_recovering : Bool
  pub recovered : Bool
  pub publications : List Publication
  pub data' : Option Payload

pub record RefreshResult : Type 0 where
  pub expires : Bool
  pub ttl : ℕ

pub record HistoryResult : Type 0 where
  pub epoch : Text
  pub offset : ℕ
  pub publications : List Publication

-- The app's data: `bytes`, a `str`, or any other value.
pub data AppData : Type 0 where
  bytes text value : Payload → AppData

-- `none` is a key that the reply does not have.
pub record Reply : Type 0 where
  pub error : Option ReplyError
  pub connect : Option ConnectResult
  pub subscribe : Option SubscribeResult
  pub refresh : Option RefreshResult
  pub sub_refresh : Option RefreshResult
  pub history : Option HistoryResult
  pub presence : Option (Dict ClientInfo)
  pub presence_stats : Option (ℕ × ℕ)
  pub rpc : Option (Option AppData)

-- The commands that the client sends.
pub record RecoverPosition : Type 0 where
  pub offset : ℕ
  pub epoch : Text

pub record ConnectRequest : Type 0 where
  pub token : Option Text
  pub data' : Option Payload
  pub name : Option Text
  pub version : Option Text
  pub subs : Dict RecoverPosition

pub record SubscribeRequest : Type 0 where
  pub channel : Channel
  pub token : Option Text
  pub data' : Option Payload
  pub positioned : Bool
  pub recoverable : Bool
  pub join_leave : Bool
  pub recover : Option RecoverPosition
  pub flag : ℕ
  pub delta : Bool
  pub tf : Option Payload

pub data Command : Type 0 where
  connect_command : ℕ → ConnectRequest → Command
  subscribe_command : ℕ → SubscribeRequest → Command
  unsubscribe_command : ℕ → Channel → Command
  refresh_command : ℕ → Text → Command
  sub_refresh_command : ℕ → Channel → Text → Command
  publish_command : ℕ → Channel → AppData → Command
  history_command : ℕ → Channel → ℕ → Option RecoverPosition → Bool → Command
  presence_command presence_stats_command : ℕ → Channel → Command
  rpc_command : ℕ → Text → AppData → Command
  pong : Command

-- The coroutines that are started in the background (`_spawn`).
pub data Task : Type 0 where
  close_conn : ℕ → Task
  listen process_messages : ℕ → Task
  subscribe_task : Channel → Task
  resubscribe_task schedule_resubscribe_task : ℕ → Task
  unsubscribe_result_task : ℕ → ℕ → Task
  create_connection_task : Task

-- The fields of `Client`. `conn` is the number of the transport, `timeout` whether `_timeout` is not 0; `completed` records how the futures of
-- commands ended, `events` the calls of handlers, `sent` the commands handed to the transport and
-- `spawned` the background tasks started, each with the latest first.
pub record World : Type 0 where
  pub state : ClientState
  pub conn : Option ℕ
  pub transport_id : ℕ
  pub transition : ℕ
  pub open_task : Option ℕ
  pub command_id : ℕ
  pub subs : Dict ℕ
  pub sub : ℕ → Subscription
  pub send_pong : Bool
  pub ping_interval : ℕ
  pub ping_timer : Option Timer
  pub refresh_timer : Option Timer
  pub reconnect_timer : Option Timer
  pub connected_future : Future
  pub token : Text
  pub has_get_token : Bool
  pub handler_failures : ℕ
  pub refresh_required : Bool
  pub timeout : Bool
  pub inflight_commands : Dict Callback
  pub reconnect_attempts : ℕ
  pub server_subs : Dict ServerSubscription
  pub server_pending : Dict (ℕ × ℕ)
  pub subs_by_id : Dict ℕ
  pub client_id : Text
  pub listen_task : Bool
  pub process_messages_task : Bool
  pub name : Text
  pub version : Text
  pub data' : Option (Option Payload)
  pub completed : List (ℕ × Outcome)
  pub events : List Event
  pub sent : List Command
  pub spawned : List Task

-- `self.field = …` on the subscription object `i`.
unfoldable pub modify_sub : ℕ → (Subscription → Subscription) → World → World
modify_sub i f w = record w { sub = λ j. if i == j then f (w.sub j) else w.sub j }
