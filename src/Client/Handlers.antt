-- ===== src/Client/Handlers.antt =====
-- The states in which the client calls handlers of the app and sends commands (centrifuge/client.py).
pub mod Teardown
pub mod Publications
pub mod Moves
pub mod Messages
pub mod ServerSubs
pub mod Connecting
pub mod Refreshing
pub mod Subscribing
pub mod Requests
use centrifuge_python.Events.{
  on_server_publication, on_server_join, on_subscribed, on_publication, on_subscribing,
  on_connected, on_server_leave, Event, on_join, on_server_subscribed, on_leave,
}
use centrifuge_python.Client.Coroutine.{
  send_call, Answer, wait, done, bind, Call, Step, Co, handler,
}
use centrifuge_python.Client.Requests.{request}
use centrifuge_python.Client.Teardown.{is_connecting, is_connected}
use centrifuge_python.Client.World.{
  ClientState, connect_command, sub_refresh_command, unsubscribe_command, Command,
  subscribe_command, refresh_command, World, get,
}
use centrifuge_python.Client.Registry.{is_some}
use centrifuge_python.Client.Subscription.{is_subscribing, is_subscribed}
use centrifuge_python.Base.{
  List, [], ◌∷◌, ℕ, Bool, true, false, if◌then◌else◌, ◌≡◌, refl, ◌&&◌, arith, Option, none, some,
  ◌||◌,
}

-- What holds where a handler is called: `on_connected` while the client is connected, `on_subscribing`
-- while the subscription subscribes, its other handlers but `on_unsubscribed` and `on_error` while it is
-- subscribed, and `on_subscribed`, `on_join` and `on_leave` of a server-side subscription while the client
-- has it. `on_publication` of a server-side subscription is called while the client has it or, for the
-- recovered publications of a connect reply, while the client is connected.
unfoldable pub fits : Event → World → Bool
fits (on_connected context) w = is_connected w.state
fits (on_server_subscribed context) w = is_some (get context.channel w.server_subs)
fits (on_server_publication channel publication) w =
    is_some (get channel w.server_subs) || is_connected w.state
fits (on_server_join channel info) w = is_some (get channel w.server_subs)
fits (on_server_leave channel info) w = is_some (get channel w.server_subs)
fits (on_subscribing i context) w = is_subscribing (w.sub i).state
fits (on_subscribed i context) w = is_subscribed (w.sub i).state
fits (on_publication i publication) w = is_subscribed (w.sub i).state
fits (on_join i info) w = is_subscribed (w.sub i).state
fits (on_leave i info) w = is_subscribed (w.sub i).state
fits _ w = true

-- What holds where a command is handed to the transport: the client is connecting for a connect command,
-- and connected for the commands of a subscription and the refreshes.
unfoldable pub command_fits : Command → ClientState → Bool
command_fits (connect_command cmd_id request) state = is_connecting state
command_fits (subscribe_command cmd_id request) state = is_connected state
command_fits (unsubscribe_command cmd_id channel) state = is_connected state
command_fits (refresh_command cmd_id token) state = is_connected state
command_fits (sub_refresh_command cmd_id channel token) state = is_connected state
command_fits _ state = true

unfoldable pub sent_fits : List Command → ClientState → Bool
unfolding command_fits
sent_fits [] state = true
sent_fits (command ∷ commands) state = command_fits command state

unfoldable pub call_fits : Call → World → Bool
unfolding fits sent_fits
call_fits (handler event) w = fits event w
call_fits send_call w = sent_fits w.sent w.state
call_fits _ w = true

-- A coroutine calls handlers and sends commands only where they fit, whatever the answers and the states are with which it
-- goes on.
pub data Polite {A : Type 0} : Step A → Type 0 where
  polite_end : {a : A} {w : World} → Polite (done a w)
  polite_call :
      {c : Call} {w : World} {k : Answer → World → Step A}
      → call_fits c w ≡ true
      → ((ans : Answer) (w' : World) → Polite (k ans w'))
      → Polite (wait c w k)

pub Polite-bind :
    {A B : Type 0} {s : Step A} (f : A → Co B)
    → Polite s
    → ((a : A) (w : World) → Polite (f a w))
    → Polite (bind s f)
Polite-bind f polite_end g = g _ _
Polite-bind f (polite_call e k) g = polite_call e (λ ans w'. Polite-bind f (k ans w') g)

pub Polite-if :
    {A : Type 0} (c : Bool) {s t : Step A}
    → (c ≡ true → Polite s)
    → Polite t
    → Polite (if c then s else t)
Polite-if true ks kt = ks refl
Polite-if false ks kt = kt

pub Polite-else :
    {A : Type 0} (c : Bool) {s t : Step A}
    → Polite s
    → (c ≡ false → Polite t)
    → Polite (if c then s else t)
Polite-else true ks kt = ks
Polite-else false ks kt = kt refl

-- The same for a choice of the coroutine.
pub Polite-choose :
    {A : Type 0} {w : World} (c : Bool) (f g : Co A)
    → Polite (f w)
    → Polite (g w)
    → Polite ((if c then f else g) w)
Polite-choose true f g ks kt = ks
Polite-choose false f g ks kt = kt

pub true-true : true ≡ true
true-true = refl

pub second_true : (a b : Bool) → (a && b) ≡ true → b ≡ true
second_true a b e = ground (arith, e)

pub left_or : (a b : Bool) → a ≡ true → (a || b) ≡ true
left_or a b e = rw e refl

pub right_or : (a b : Bool) → b ≡ true → (a || b) ≡ true
right_or a b e = ground (arith, e)

pub ruleset polite = (polite_end, polite_call, Polite-bind, Polite-if, Polite-choose, true-true)
