-- ===== src/Events.antt =====
-- What the client tells the app: the contexts of centrifuge/contexts.py, which the handlers of
-- centrifuge/handlers.py are called with, and the values of centrifuge/types.py in them.
-- A text is a number: texts are only compared, with each other and with the empty one, 0. A payload is
-- a number too, and is passed on as it is.
use centrifuge_python.Base.{ℕ, Bool, Option}
use centrifuge_python.Codes.{
  ConnectingCode, DisconnectedCode, SubscribingCode, UnsubscribedCode, ErrorCode,
}

abbrev pub Text : Type 0
Text = ℕ

abbrev pub empty_text : Text
empty_text = 0

-- "_", the epoch that no stream has.
abbrev pub sentinel_epoch : Text
sentinel_epoch = 1

abbrev pub Channel : Type 0
Channel = Text

abbrev pub Payload : Type 0
Payload = ℕ

pub record StreamPosition : Type 0 where
  pub offset : ℕ
  pub epoch : Text

pub record ClientInfo : Type 0 where
  pub client : Text
  pub user : Text
  pub conn_info : Option Payload
  pub chan_info : Option Payload

pub record Publication : Type 0 where
  pub offset : ℕ
  pub data' : Option Payload
  pub info : Option ClientInfo
  pub tags : Option Payload
  pub delta : Bool

-- The exceptions of centrifuge/exceptions.py and of the transport, as far as the client tells them
-- apart; `reply_error` is `ReplyError(code, message, temporary)`.
pub data Error : Type 0 where
  reply_error : ℕ → Text → Bool → Error
  client_disconnected operation_timeout duplicate_subscription : Error
  subscription_unsubscribed centrifuge_error unauthorized other_error : Error

-- A reason text: the message of one of the client's own codes (`_code_message`), or the server's.
pub data Reason : Type 0 where
  of_connecting : ConnectingCode → Reason
  of_disconnected : DisconnectedCode → Reason
  of_subscribing : SubscribingCode → Reason
  of_unsubscribed : UnsubscribedCode → Reason
  of_text : Text → Reason

pub record ConnectedContext : Type 0 where
  pub client : Text
  pub version : Text
  pub data' : Option Payload

-- `ConnectingContext`, `DisconnectedContext`, `SubscribingContext` and `UnsubscribedContext`.
pub record TransitionContext : Type 0 where
  pub code : ℕ
  pub reason : Reason

-- `ErrorContext` and `SubscriptionErrorContext`.
pub record ErrorContext : Type 0 where
  pub code : ErrorCode
  pub error : Error

-- `SubscribedContext` and `ServerSubscribedContext`.
pub record SubscribedContext : Type 0 where
  pub channel : Channel
  pub recoverable : Bool
  pub positioned : Bool
  pub stream_position : Option StreamPosition
  pub was_recovering : Bool
  pub recovered : Bool
  pub data' : Option Payload

-- A handler's call, with its context. A subscription is named by its number.
pub data Event : Type 0 where
  on_connecting on_disconnected : TransitionContext → Event
  on_connected : ConnectedContext → Event
  on_error : ErrorContext → Event
  on_server_subscribing on_server_unsubscribed : Channel → Event
  on_server_subscribed : SubscribedContext → Event
  on_server_publication : Channel → Publication → Event
  on_server_join on_server_leave : Channel → ClientInfo → Event
  on_subscribing on_unsubscribed : ℕ → TransitionContext → Event
  on_subscribed : ℕ → SubscribedContext → Event
  on_publication : ℕ → Publication → Event
  on_join on_leave : ℕ → ClientInfo → Event
  on_subscription_error : ℕ → ErrorContext → Event
