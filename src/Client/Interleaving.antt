-- ===== src/Client/Interleaving.antt =====
-- The client as its event loop runs it (centrifuge/client.py): the methods that the app, the timers and
-- the tasks enter, and the states that their interleavings reach.
pub mod Invariant
pub mod Growth
pub mod Handlers
pub mod Past
pub mod Begin
pub mod Delivery
mod Runs
use centrifuge_python.Client.Moves.{
  resubscribe, subscribe, unsubscribe, unsubscribe_result, move_subscribed,
}
use centrifuge_python.Client.Commands.{cancel_future}
use centrifuge_python.Client.World.{
  publish_command, RecoverPosition, history_command, presence_command, AppData, rpc_command,
  presence_stats_command, modify_sub, Command, Subscription, World, SubscribeResult,
}
use centrifuge_python.Client.Registry.{
  is_registered, new_subscription, Options, filtered, set_tags_filter, remove_subscription, removed,
  RegistryResult, refused, made,
}
use centrifuge_python.Client.Subscription.{is_unsubscribed, schedule_resubscribe}
use centrifuge_python.Client.Coroutine.{when, Co, Step, done, wait, Answer, pass, update, ◌>>◌}
use centrifuge_python.Client.Requests.{command_timeout, request}
use centrifuge_python.Client.Refreshing.{refresh_subscription, refresh}
use centrifuge_python.Client.Guarded.{guarded, Raised}
use centrifuge_python.Events.{Channel, Payload, of_text, Text, Reason}
use centrifuge_python.Client.Subscribing.{subscribe_channel, resubscribe_fired}
use centrifuge_python.Base.{
  ◌+◌, ℕ, Bool, true, false, Option, none, some, List, [], ◌∷◌, ◌++◌, ◌==◌, ◌&&◌, not,
}
use centrifuge_python.Client.Teardown.{do_disconnect, disconnect}
use centrifuge_python.Client.Publications.{ApplyDelta}
use centrifuge_python.Client.Messages.{Message, process_message, connection_lost, no_ping}
use centrifuge_python.Client.Connecting.{connect, connection_attempt, reconnect, set_token}

-- A request of the app, with its data as `_encode_data` makes it, none where it refuses the data.
pub data AppRequest : Type 0 where
  publish_request rpc_request : Text → Option AppData → AppRequest
  history_request : Channel → ℕ → Option RecoverPosition → Bool → AppRequest
  presence_request presence_stats_request : Channel → AppRequest

abbrev pub command_of : AppRequest → ℕ → Option Command
command_of (publish_request channel none) cmd_id = none
command_of (publish_request channel (some encoded)) cmd_id =
    some (publish_command cmd_id channel encoded)
command_of (rpc_request method none) cmd_id = none
command_of (rpc_request method (some encoded)) cmd_id = some (rpc_command cmd_id method encoded)
command_of (history_request channel limit since reverse) cmd_id =
    some (history_command cmd_id channel limit since reverse)
command_of (presence_request channel) cmd_id = some (presence_command cmd_id channel)
command_of (presence_stats_request channel) cmd_id = some (presence_stats_command cmd_id channel)

-- What is entered, and with what: a method that the app calls, a callback of a timer or of the transport, or
-- a task. `resubscribe_started` is the task that `_move_subscribing` spawns, `command_cancelled` what the
-- cancelling of a coroutine that awaits a command does to the command.
pub data Entry : Type 0 where
  connect_called disconnect_called attempt_started reconnect_fired ping_missed : Entry
  set_token_called : Text → Entry
  subscribe_called unsubscribe_called : ℕ → Entry
  new_subscription_called : ℕ → Channel → Options → Entry
  remove_called : ℕ → Entry
  tags_filter_called : ℕ → Option Payload → Entry
  request_called : AppRequest → Entry
  message_read : Option (List Message) → ℕ → Text → Entry
  transport_closed : ℕ → Text → ℕ → Entry
  unsubscribe_sent : ℕ → ℕ → Entry
  handler_raised : Raised → Text → Entry
  command_timer_fired command_cancelled : ℕ → Entry
  refresh_timer_fired : ℕ → Entry
  sub_refresh_timer_fired : ℕ → ℕ → Entry
  resubscribe_started resubscribe_timer_fired : ℕ → Entry
  resubscribe_scheduled : ℕ → Entry
  subscribe_started : Channel → Text → Entry

abbrev pub after_registry : RegistryResult → World → World
after_registry (made w') w = w'
after_registry (removed w') w = w'
after_registry (refused error) w = w

-- The number `i` is free for a new object: the one that it names is not registered, and no attempt to
-- subscribe was ever made with it.
abbrev pub is_free : ℕ → World → Bool
is_free i w =
    (w.sub i).attempt == 0
    && (w.sub i).push_id == 0
    && is_unsubscribed (w.sub i).state
    && not (is_registered i w)

unfoldable pub enter : ApplyDelta → Entry → Co (Unit {0})
enter apply_delta connect_called = connect
enter apply_delta disconnect_called = disconnect
enter apply_delta attempt_started = connection_attempt
enter apply_delta reconnect_fired = reconnect
enter apply_delta ping_missed = no_ping
enter apply_delta (set_token_called token) = update (set_token token)
enter apply_delta (subscribe_called i) = subscribe i >> pass
enter apply_delta (unsubscribe_called i) = unsubscribe i
enter apply_delta (new_subscription_called i channel options) =
    when (is_free i) (update (λ w. after_registry (new_subscription i channel options w) w))
enter apply_delta (remove_called i) = update (λ w. after_registry (remove_subscription i w) w)
enter apply_delta (tags_filter_called i tags_filter) = update (modify_sub i (filtered tags_filter))
enter apply_delta (request_called r) = request (command_of r) >> pass
enter apply_delta (message_read message attempt error) =
    process_message apply_delta message attempt error
enter apply_delta (transport_closed ws_code ws_reason attempt) =
    connection_lost ws_code ws_reason attempt
enter apply_delta (unsubscribe_sent cmd_id connection) = unsubscribe_result cmd_id connection
enter apply_delta (handler_raised handler message) = guarded handler message
enter apply_delta (command_timer_fired cmd_id) = update (command_timeout cmd_id)
enter apply_delta (command_cancelled cmd_id) = update (cancel_future cmd_id)
enter apply_delta (refresh_timer_fired connection) = refresh connection
enter apply_delta (sub_refresh_timer_fired i session) = refresh_subscription i session
enter apply_delta (resubscribe_started i) = update (resubscribe i)
enter apply_delta (resubscribe_timer_fired i) = resubscribe_fired i
enter apply_delta (resubscribe_scheduled i) = update (modify_sub i schedule_resubscribe)
enter apply_delta (subscribe_started channel message) =
    subscribe_channel apply_delta channel message

-- A method that waits.
abbrev pub Suspended : Type 0
Suspended = Answer → World → Step (Unit {0})

abbrev pub left : {A : Type 0} → Step A → World
left (done a w) = w
left (wait c w k) = w

abbrev pub held : Step (Unit {0}) → List Suspended → List Suspended
held (done a w) pool = pool
held (wait c w k) pool = k ∷ pool

-- What follows the state `w₀` with the methods `pool₀` that wait: a method is entered, or one of those
-- that wait goes on, with any answer.
pub data Follows (apply_delta : ApplyDelta) (w₀ : World) (pool₀ : List Suspended)
    : World → List Suspended → Type 0 where
  starts : Follows apply_delta w₀ pool₀ w₀ pool₀
  enters :
      {w : World} {pool : List Suspended} (e : Entry)
      → Follows apply_delta w₀ pool₀ w pool
      → Follows apply_delta w₀ pool₀
          (left (enter apply_delta e w))
          (held (enter apply_delta e w) pool)
  resumes :
      {w : World} (before : List Suspended) (k : Suspended) (after : List Suspended)
      (answer : Answer)
      → Follows apply_delta w₀ pool₀ w (before ++ k ∷ after)
      → Follows apply_delta w₀ pool₀ (left (k answer w)) (held (k answer w) (before ++ after))

-- The states that the client reaches from `w₀`, where no method waits, with the methods that wait then.
abbrev pub Reaches : ApplyDelta → World → World → List Suspended → Type 0
Reaches apply_delta w₀ = Follows apply_delta w₀ []
