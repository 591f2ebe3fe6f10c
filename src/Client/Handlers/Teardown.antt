-- ===== src/Client/Handlers/Teardown.antt =====
-- The handlers and commands that a teardown of a connection and the sending of commands lead to
-- (centrifuge/client.py).
use centrifuge_python.Client.Subscription.{is_subscribing}
use centrifuge_python.Client.Connecting.{reconnect}
use centrifuge_python.Client.Coroutine.{protocol_error, Answer, connection_closed}
use centrifuge_python.Client.World.{ClientState, Command, World}
use centrifuge_python.Events.{Reason}
use centrifuge_python.Client.Handlers.{
  Polite-if, command_fits, call_fits, Polite-bind, fits, polite_call, Polite, polite_end,
  second_true, sent_fits, polite,
}
use centrifuge_python.Client.Teardown.{
  after_send, clear_connected_state, do_disconnect, emit_teardown_event, announce_server,
  announce_moved, send_over, send_commands,
}
use centrifuge_python.Base.{ℕ, ◌∷◌, [], some, none, Option, List, ◌≡◌, true, ◌==◌, ◌&&◌, Bool}

announce_moved-Polite : (moved : List (ℕ × ℕ)) (w : World) → Polite (announce_moved moved w)
unfolding announce_moved call_fits fits
announce_moved-Polite [] w = polite_end
announce_moved-Polite ((i, attempt) ∷ moved) w =
    Polite-bind _
      (Polite-if ((w.sub i).attempt == attempt && is_subscribing (w.sub i).state)
        (λ e. polite_call (second_true _ _ e) (λ _ _. polite_end)) polite_end)
      (λ _ w'. announce_moved-Polite moved w')

announce_server-Polite :
    (transition : ℕ) (channels : List ℕ) (w : World)
    → Polite (announce_server transition channels w)
unfolding announce_server call_fits fits
announce_server-Polite transition [] w = search (polite)
announce_server-Polite transition (channel ∷ channels) w =
    search (polite, announce_server-Polite transition channels)

clear_connected_state-Polite :
    (transition : ℕ) (w : World) → Polite (clear_connected_state transition w)
unfolding clear_connected_state call_fits fits
clear_connected_state-Polite transition w =
    search (polite, announce_moved-Polite, announce_server-Polite)

emit_teardown_event-Polite :
    (code : ℕ) (reason : Reason) (reconnect : Bool) (previous_state : ClientState) (w : World)
    → Polite (emit_teardown_event code reason reconnect previous_state w)
unfolding emit_teardown_event call_fits fits
emit_teardown_event-Polite code reason reconnect previous_state w = search (polite)

pub do_disconnect-Polite :
    (code : ℕ) (reason : Reason) (reconnect : Bool) (w : World)
    → Polite (do_disconnect code reason reconnect w)
unfolding do_disconnect call_fits fits
do_disconnect-Polite code reason reconnect w =
    search (polite, clear_connected_state-Polite, emit_teardown_event-Polite) depth 12

after_send-Polite : (c : ℕ) (answer : Answer) (w : World) → Polite (after_send c answer w)
unfolding after_send call_fits fits
after_send-Polite c connection_closed w = search (polite, do_disconnect-Polite)
after_send-Polite c protocol_error w = search (polite, do_disconnect-Polite)
after_send-Polite c _ w = search (polite)

send_over-Polite :
    (conn : Option ℕ) (cmd_id : ℕ) (command : Command) (w : World)
    → command_fits command w.state ≡ true
    → Polite (send_over conn cmd_id command w)
unfolding send_over call_fits sent_fits
send_over-Polite none cmd_id command w e = search polite
send_over-Polite (some c) cmd_id command w e =
    polite_call e (λ ans w'. search (polite, after_send-Polite))

pub send_commands-Polite :
    (cmd_id : ℕ) (command : Command) (w : World)
    → command_fits command w.state ≡ true
    → Polite (send_commands cmd_id command w)
unfolding send_commands
send_commands-Polite cmd_id command w e = send_over-Polite w.conn cmd_id command w e
