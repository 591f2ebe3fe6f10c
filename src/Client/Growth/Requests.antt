-- ===== src/Client/Growth/Requests.antt =====
-- The growth of the numbers through the requests of the app and the exceptions of its handlers
-- (centrifuge/client.py).
use centrifuge_python.Client.Growth.Updates.{Later-not_delivered, Later-next_failure}
use centrifuge_python.Client.Growth.Teardown.{send_commands-Grows, do_disconnect-Grows}
use centrifuge_python.Client.Growth.{Mark, Later, mark, Grows, growth}
use centrifuge_python.Client.Growth.Subscriptions.{Later-register_future, Later-next_command_id}
use centrifuge_python.Client.World.{World, Command}
use centrifuge_python.Events.{Text}
use centrifuge_python.Client.Guarded.{guarded, on_handler_raised, Raised}
use centrifuge_python.Client.Requests.{
  Response, send_request, gives, raises, request, request_ready, ready,
}
use centrifuge_python.Base.{ℕ, some, none, Option}

ready-Grows : (m : Mark) (w : World) → Later m (mark w) → Grows m (ready w)
unfolding ready
ready-Grows m w l = search (growth)

send_request-Grows :
    (cmd_id : ℕ) (command : Option Command) (m : Mark) (w : World)
    → Later m (mark w)
    → Grows m (send_request cmd_id command w)
unfolding send_request
send_request-Grows cmd_id none m w l = search (growth)
send_request-Grows cmd_id (some command) m w l =
    search (growth, send_commands-Grows, Later-register_future)

request_ready-Grows :
    (make : (ℕ → Option Command)) (x1 : Response (Unit {0})) (m : Mark) (w : World)
    → Later m (mark w)
    → Grows m (request_ready make x1 w)
unfolding request_ready
request_ready-Grows make (raises error) m w l = search (growth)
request_ready-Grows make (gives _) m w l =
    search (growth, send_request-Grows, Later-next_command_id)

pub request-Grows :
    (make : (ℕ → Option Command)) (m : Mark) (w : World)
    → Later m (mark w)
    → Grows m (request make w)
unfolding request
request-Grows make m w l = search (growth, ready-Grows, request_ready-Grows)

on_handler_raised-Grows :
    (message : Text) (m : Mark) (w : World)
    → Later m (mark w)
    → Grows m (on_handler_raised message w)
unfolding on_handler_raised
on_handler_raised-Grows message m w l = search (growth, do_disconnect-Grows, Later-next_failure)

pub guarded-Grows :
    (handler : Raised) (message : Text) (m : Mark) (w : World)
    → Later m (mark w)
    → Grows m (guarded handler message w)
unfolding guarded
guarded-Grows handler message m w l = search (growth, on_handler_raised-Grows, Later-not_delivered)
