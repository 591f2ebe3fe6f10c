-- ===== src/Client/Growth/Teardown.antt =====
-- The growth of the numbers through the teardown of a connection and the sending of commands
-- (centrifuge/client.py).
use centrifuge_python.Client.World.{ClientState, Command, World}
use centrifuge_python.Client.Growth.Numbers.{
  Later-future_error, Later-enter_all, Later-tear_down, Later-schedule_reconnect,
}
use centrifuge_python.Events.{Reason}
use centrifuge_python.Client.Teardown.{
  do_disconnect, send_over, send_commands, clear_connected_state, after_send, announce_moved,
  announce_server, emit_teardown_event,
}
use centrifuge_python.Client.Coroutine.{connection_closed, Answer, protocol_error}
use centrifuge_python.Client.Growth.{Grows, Mark, Later, mark, growth}
use centrifuge_python.Base.{ℕ, ◌∷◌, [], some, none, Option, List, Bool}

announce_moved-Grows :
    (moved : List (ℕ × ℕ)) (m : Mark) (w : World)
    → Later m (mark w)
    → Grows m (announce_moved moved w)
unfolding announce_moved
announce_moved-Grows [] m w l = search (growth)
announce_moved-Grows ((i, attempt) ∷ moved) m w l = search (growth, announce_moved-Grows moved)

announce_server-Grows :
    (transition : ℕ) (channels : List ℕ) (m : Mark) (w : World)
    → Later m (mark w)
    → Grows m (announce_server transition channels w)
unfolding announce_server
announce_server-Grows transition [] m w l = search (growth)
announce_server-Grows transition (channel ∷ channels) m w l =
    search (growth, announce_server-Grows transition channels)

pub clear_connected_state-Grows :
    (transition : ℕ) (m : Mark) (w : World)
    → Later m (mark w)
    → Grows m (clear_connected_state transition w)
unfolding clear_connected_state
clear_connected_state-Grows transition m w l =
    search (growth, announce_moved-Grows, announce_server-Grows, Later-enter_all)

pub emit_teardown_event-Grows :
    (code : ℕ) (reason : Reason) (reconnect : Bool) (previous_state : ClientState) (m : Mark)
    (w : World)
    → Later m (mark w)
    → Grows m (emit_teardown_event code reason reconnect previous_state w)
unfolding emit_teardown_event
emit_teardown_event-Grows code reason reconnect previous_state m w l = search (growth)

pub do_disconnect-Grows :
    (code : ℕ) (reason : Reason) (reconnect : Bool) (m : Mark) (w : World)
    → Later m (mark w)
    → Grows m (do_disconnect code reason reconnect w)
unfolding do_disconnect
do_disconnect-Grows code reason reconnect m w l =
    search
      (
        growth, clear_connected_state-Grows, emit_teardown_event-Grows, Later-tear_down,
        Later-schedule_reconnect,
      )
      depth 10

after_send-Grows :
    (c : ℕ) (answer : Answer) (m : Mark) (w : World)
    → Later m (mark w)
    → Grows m (after_send c answer w)
unfolding after_send
after_send-Grows c connection_closed m w l = search (growth, do_disconnect-Grows)
after_send-Grows c protocol_error m w l = search (growth, do_disconnect-Grows)
after_send-Grows c _ m w l = search (growth)

send_over-Grows :
    (sub : Option ℕ) (cmd_id : ℕ) (command : Command) (m : Mark) (w : World)
    → Later m (mark w)
    → Grows m (send_over sub cmd_id command w)
unfolding send_over
send_over-Grows none cmd_id command m w l = search (growth, Later-future_error)
send_over-Grows (some c) cmd_id command m w l = search (growth, after_send-Grows)

pub send_commands-Grows :
    (cmd_id : ℕ) (command : Command) (m : Mark) (w : World)
    → Later m (mark w)
    → Grows m (send_commands cmd_id command w)
unfolding send_commands
send_commands-Grows cmd_id command m w l = search (growth, send_over-Grows)
