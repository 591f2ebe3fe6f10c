-- ===== src/Codes.antt =====
-- centrifuge/codes.py: the codes of the client's transitions and errors, and the codes of the server
-- that it acts on. `number` is `_code_number` of centrifuge/utils.py on each enumeration.
use centrifuge_python.Base.{ℕ, Bool, ◌==◌}

pub data ConnectingCode : Type 0 where
  connect_called transport_closed no_ping subscribe_timeout unsubscribe_error : ConnectingCode

pub data DisconnectedCode : Type 0 where
  disconnect_called unauthorized bad_protocol message_size_limit : DisconnectedCode

pub data SubscribingCode : Type 0 where
  subscribe_called transport_closed : SubscribingCode

pub data UnsubscribedCode : Type 0 where
  unsubscribe_called unauthorized client_closed : UnsubscribedCode

pub data ErrorCode : Type 0 where
  timeout transport_closed client_disconnected client_closed client_connect_token : ErrorCode
  client_refresh_token subscription_unsubscribed subscription_subscribe_token : ErrorCode
  subscription_refresh_token transport_write_error connection_closed : ErrorCode
  bad_configuration connect_error subscribe_error subscription_get_state token_expired : ErrorCode

abbrev pub connecting_number : ConnectingCode → ℕ
connecting_number connect_called = 0
connecting_number transport_closed = 1
connecting_number no_ping = 2
connecting_number subscribe_timeout = 3
connecting_number unsubscribe_error = 4

abbrev pub disconnected_number : DisconnectedCode → ℕ
disconnected_number disconnect_called = 0
disconnected_number unauthorized = 1
disconnected_number bad_protocol = 2
disconnected_number message_size_limit = 3

abbrev pub subscribing_number : SubscribingCode → ℕ
subscribing_number subscribe_called = 0
subscribing_number transport_closed = 1

abbrev pub unsubscribed_number : UnsubscribedCode → ℕ
unsubscribed_number unsubscribe_called = 0
unsubscribed_number unauthorized = 1
unsubscribed_number client_closed = 2

abbrev pub error_number : ErrorCode → ℕ
error_number timeout = 1
error_number transport_closed = 2
error_number client_disconnected = 3
error_number client_closed = 4
error_number client_connect_token = 5
error_number client_refresh_token = 6
error_number subscription_unsubscribed = 7
error_number subscription_subscribe_token = 8
error_number subscription_refresh_token = 9
error_number transport_write_error = 10
error_number connection_closed = 11
error_number bad_configuration = 12
error_number connect_error = 13
error_number subscribe_error = 14
error_number subscription_get_state = 15
error_number token_expired = 109

abbrev pub subscription_flag_channel_compaction : ℕ
subscription_flag_channel_compaction = 1

abbrev pub subscription_flag_reject_unrecovered : ℕ
subscription_flag_reject_unrecovered = 2

abbrev pub error_code_unrecoverable_position : ℕ
error_code_unrecoverable_position = 112

abbrev pub unsubscribed_state_invalidated : ℕ
unsubscribed_state_invalidated = 2502

abbrev pub disconnected_state_invalidated : ℕ
disconnected_state_invalidated = 3014

-- `_is_token_expired` of centrifuge/utils.py
pub is_token_expired : ℕ → Bool
is_token_expired code = code == error_number token_expired
