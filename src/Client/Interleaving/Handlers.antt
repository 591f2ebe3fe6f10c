-- ===== src/Client/Interleaving/Handlers.antt =====
-- The handlers that are called and the commands that are sent over the interleavings of the client's
-- methods (centrifuge/client.py).
mod Runs
use centrifuge_python.Client.Handlers.Requests.{Free, guarded-Polite, request-Polite}
use centrifuge_python.Client.Interleaving.{
  history_request, rpc_request, command_of, publish_request, AppRequest, presence_stats_request,
  presence_request, held, Suspended, Reaches, enter, Entry, starts, enters, resumes,
}
use centrifuge_python.Client.Handlers.{
  command_fits, Polite-bind, polite_call, Polite, polite_end, call_fits, polite,
}
use centrifuge_python.Client.Handlers.Messages.{process_message-Polite, connection_lost-Polite}
use centrifuge_python.Client.Publications.{ApplyDelta}
use centrifuge_python.Client.Handlers.Subscribing.{
  resubscribe_fired-Polite, subscribe_channel-Polite,
}
use centrifuge_python.Client.World.{World}
use centrifuge_python.Client.Handlers.Teardown.{do_disconnect-Polite}
use centrifuge_python.Client.Teardown.{disconnect}
use centrifuge_python.Client.Handlers.Refreshing.{refresh_subscription-Polite, refresh-Polite}
use centrifuge_python.Client.Connecting.{set_token, reconnect}
use centrifuge_python.Client.Handlers.Connecting.{connect-Polite, connection_attempt-Polite}
use centrifuge_python.Client.Handlers.Moves.{
  move_unsubscribed-Polite, unsubscribe_answered-Polite, subscribe-Polite,
}
use centrifuge_python.Client.Coroutine.{Answer, done, Step, wait}
use centrifuge_python.Client.Moves.{unsubscribe_result, unsubscribe}
use centrifuge_python.Client.Interleaving
use centrifuge_python.Client.Messages.{no_ping}
use centrifuge_python.Base.{arith, none, some, ◌+◌, ℕ, ◌≡◌, refl, List, [], ◌∷◌, ◌++◌, Bool, true}

-- The requests of the app are sent in any state.
command_of-Free : (r : AppRequest) (cmd_id : ℕ) → Free (command_of r cmd_id)
unfolding command_fits
command_of-Free (publish_request channel none) cmd_id command state e = ground (arith, e)
command_of-Free (publish_request channel (some encoded)) cmd_id command state e = ground (arith, e)
command_of-Free (rpc_request method none) cmd_id command state e = ground (arith, e)
command_of-Free (rpc_request method (some encoded)) cmd_id command state e = ground (arith, e)
command_of-Free (history_request channel limit since reverse) cmd_id command state e =
    ground (arith, e)
command_of-Free (presence_request channel) cmd_id command state e = ground (arith, e)
command_of-Free (presence_stats_request channel) cmd_id command state e = ground (arith, e)

enter-Polite : (apply_delta : ApplyDelta) (e : Entry) (w : World) → Polite (enter apply_delta e w)
unfolding enter reconnect disconnect no_ping unsubscribe unsubscribe_result set_token call_fits
enter-Polite apply_delta Interleaving.connect_called w = search (polite, connect-Polite)
enter-Polite apply_delta Interleaving.disconnect_called w = search (polite, do_disconnect-Polite)
enter-Polite apply_delta Interleaving.attempt_started w = search (polite, connection_attempt-Polite)
enter-Polite apply_delta Interleaving.reconnect_fired w = search (polite, connection_attempt-Polite)
enter-Polite apply_delta Interleaving.ping_missed w = search (polite, do_disconnect-Polite)
enter-Polite apply_delta (Interleaving.set_token_called token) w = polite_end
enter-Polite apply_delta (Interleaving.subscribe_called i) w = search (polite, subscribe-Polite)
enter-Polite apply_delta (Interleaving.unsubscribe_called i) w =
    search (polite, move_unsubscribed-Polite)
enter-Polite apply_delta (Interleaving.new_subscription_called i channel options) w = search polite
enter-Polite apply_delta (Interleaving.remove_called i) w = polite_end
enter-Polite apply_delta (Interleaving.tags_filter_called i tags_filter) w = polite_end
enter-Polite apply_delta (Interleaving.request_called r) w =
    Polite-bind _ (request-Polite (command_of r) w (command_of-Free r)) (λ _ w'. polite_end)
enter-Polite apply_delta (Interleaving.message_read message attempt error) w =
    search (polite, process_message-Polite)
enter-Polite apply_delta (Interleaving.transport_closed ws_code ws_reason attempt) w =
    search (polite, connection_lost-Polite)
enter-Polite apply_delta (Interleaving.unsubscribe_sent cmd_id connection) w =
    search (polite, unsubscribe_answered-Polite)
enter-Polite apply_delta (Interleaving.handler_raised handler message) w =
    search (polite, guarded-Polite)
enter-Polite apply_delta (Interleaving.command_timer_fired cmd_id) w = polite_end
enter-Polite apply_delta (Interleaving.command_cancelled cmd_id) w = polite_end
enter-Polite apply_delta (Interleaving.refresh_timer_fired connection) w =
    search (polite, refresh-Polite)
enter-Polite apply_delta (Interleaving.sub_refresh_timer_fired i session) w =
    search (polite, refresh_subscription-Polite)
enter-Polite apply_delta (Interleaving.resubscribe_started i) w = polite_end
enter-Polite apply_delta (Interleaving.resubscribe_timer_fired i) w =
    search (polite, resubscribe_fired-Polite)
enter-Polite apply_delta (Interleaving.resubscribe_scheduled i) w = polite_end
enter-Polite apply_delta (Interleaving.subscribe_started channel message) w =
    search (polite, subscribe_channel-Polite)

-- A method that waits is polite when it goes on.
abbrev Ready : Suspended → Type 0
Ready k = (answer : Answer) (w : World) → Polite (k answer w)

abbrev AllReady : List Suspended → Type 0
AllReady [] = Unit {0}
AllReady (k ∷ pool) = Ready k × AllReady pool

chosen :
    (before : List Suspended) (k : Suspended) (after : List Suspended)
    → AllReady (before ++ k ∷ after)
    → Ready k × AllReady (before ++ after)
chosen [] k after (p, ps) = (p, ps)
chosen (b ∷ before) k after (p, ps) = let (pk, ps') = chosen before k after ps in (pk, (p, ps'))

AllReady-held :
    {s : Step (Unit {0})} (pool : List Suspended)
    → Polite s
    → AllReady pool
    → AllReady (held s pool)
AllReady-held pool polite_end ps = ps
AllReady-held pool (polite_call e k) ps = (k, ps)

Reaches-AllReady :
    {apply_delta : ApplyDelta} {w₀ w : World} {pool : List Suspended}
    → Reaches apply_delta w₀ w pool
    → AllReady pool
Reaches-AllReady starts = tt
Reaches-AllReady (enters {w} {pool} e r) =
    AllReady-held pool (enter-Polite _ e w) (Reaches-AllReady r)
Reaches-AllReady (resumes {w} before k after answer r) =
    let (pk, ps) = chosen before k after (Reaches-AllReady r) in
    AllReady-held (before ++ after) (pk answer w) ps

-- Whether the handler that a step calls, or the command that it sends, fits the state, if there is one.
abbrev pub step_fits : Step (Unit {0}) → Bool
step_fits (done a w) = true
step_fits (wait c w k) = call_fits c w

step_fits-Polite : {s : Step (Unit {0})} → Polite s → step_fits s ≡ true
step_fits-Polite polite_end = refl
step_fits-Polite (polite_call e k) = e

-- In every state that the interleavings of the methods in `Entry` reach, with any answers where they wait:
-- a method that is entered, and one that goes on after it waited, calls `on_connected` only while the
-- client is connected, `on_subscribing` only while the subscription subscribes, `on_subscribed`,
-- `on_publication`, `on_join` and `on_leave` only while it is subscribed, `on_subscribed`, `on_join` and
-- `on_leave` of a server-side subscription only while the client has it, and `on_publication` of one only
-- while the client has it or is connected; and it sends a connect command only while the client is
-- connecting, and subscribe, unsubscribe and refresh commands only while it is connected.
pub step_fits-Reaches :
    (apply_delta : ApplyDelta) (w₀ w : World) (before : List Suspended) (k : Suspended)
    (after : List Suspended)
    → Reaches apply_delta w₀ w (before ++ k ∷ after)
    → (e : Entry) (answer : Answer)
    → (step_fits (enter apply_delta e w) ≡ true) × (step_fits (k answer w) ≡ true)
step_fits-Reaches apply_delta w₀ w before k after r e answer = (
  step_fits-Polite (enter-Polite apply_delta e w),
  step_fits-Polite ((chosen before k after (Reaches-AllReady r)).0 answer w),
)
