-- ===== src/Client/Handlers/Requests.antt =====
-- The handlers and commands that the requests of the app and the exceptions of its handlers lead to
-- (centrifuge/client.py).
use centrifuge_python.Client.Handlers.Teardown.{do_disconnect-Polite, send_commands-Polite}
use centrifuge_python.Client.Commands.{next_command_id, register_future}
use centrifuge_python.Client.Requests.{
  raises, gives, request_ready, Response, request, ready, send_request,
}
use centrifuge_python.Client.Handlers.{
  polite_end, polite_call, Polite, Polite-bind, command_fits, fits, call_fits, polite,
}
use centrifuge_python.Events.{Text}
use centrifuge_python.Client.World.{ClientState, World, Command}
use centrifuge_python.Client.Guarded.{Raised, on_handler_raised, guarded}
use centrifuge_python.Base.{ℕ, some, none, Option, ◌≡◌, true, refl}

ready-Polite : (w : World) → Polite (ready w)
unfolding ready call_fits fits
ready-Polite w = search (polite)

-- A command that may be sent in any state.
abbrev pub Free : Option Command → Type 0
Free produced =
    (command : Command) (state : ClientState)
    → produced ≡ some command
    → command_fits command state ≡ true

send_request-Polite :
    (cmd_id : ℕ) (produced : Option Command) (w : World)
    → Free produced
    → Polite (send_request cmd_id produced w)
unfolding send_request call_fits register_future
send_request-Polite cmd_id none w free = polite_end
send_request-Polite cmd_id (some command) w free =
    Polite-bind _ (send_commands-Polite cmd_id command _ (free command _ refl))
      (λ _ w'. polite_call refl (λ ans w''. polite_end))

request_ready-Polite :
    (make : ℕ → Option Command) (waiting : Response (Unit {0})) (w : World)
    → ((cmd_id : ℕ) → Free (make cmd_id))
    → Polite (request_ready make waiting w)
unfolding request_ready next_command_id
request_ready-Polite make (raises error) w free = polite_end
request_ready-Polite make (gives _) w free = send_request-Polite _ _ _ (free _)

pub request-Polite :
    (make : ℕ → Option Command) (w : World)
    → ((cmd_id : ℕ) → Free (make cmd_id))
    → Polite (request make w)
unfolding request
request-Polite make w free =
    Polite-bind _ (ready-Polite w) (λ waiting w'. request_ready-Polite make waiting w' free)

on_handler_raised-Polite : (message : Text) (w : World) → Polite (on_handler_raised message w)
unfolding on_handler_raised call_fits fits
on_handler_raised-Polite message w = search (polite, do_disconnect-Polite)

pub guarded-Polite :
    (handler : Raised) (message : Text) (w : World) → Polite (guarded handler message w)
unfolding guarded call_fits fits
guarded-Polite handler message w = search (polite, on_handler_raised-Polite)
