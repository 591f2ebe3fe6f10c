-- ===== src/Client/Undisturbed/Refused.antt =====
-- An attempt to connect with data that `_encode_data` refuses (centrifuge/client.py,
-- `_connection_attempt`).
use centrifuge_python.Client.Undisturbed.{Settles, Reconnecting, do_disconnect-Reconnecting}
use centrifuge_python.Client.Connecting.{send_connect, submit_connect, start_listening}
use centrifuge_python.Client.Commands.{construct_connect_command, next_command_id}
use centrifuge_python.Client.Messages.{fail_connection_attempt}
use centrifuge_python.Client.Teardown.{attempt_current}
use centrifuge_python.Client.Safety.Sound.{Sound, Sound-issue}
use centrifuge_python.Client.Safety.Disconnect.{Sound-connecting}
use centrifuge_python.Client.World.{World}
use centrifuge_python.Base.{ℕ, ◌+◌, ◌≡◌, refl, true, some, none, arith}

construct-refused : (w : World) → w.data' ≡ some none → construct_connect_command w ≡ none
unfolding construct_connect_command
construct-refused w e = rw e refl

-- Over the transport that it opened, the current attempt of a client in a sound state whose data
-- `_encode_data` refuses ends, with no other code between the steps and handlers that return and change
-- nothing, connecting, without a transport or a command in flight, and with a timer that starts the next
-- attempt, as one whose connection is lost.
pub send_connect-Reconnecting :
    (attempt conn : ℕ) (w : World)
    → Sound w
    → attempt_current attempt w ≡ true
    → w.data' ≡ some none
    → Settles Reconnecting (send_connect attempt conn w)
unfolding send_connect submit_connect fail_connection_attempt next_command_id
send_connect-Reconnecting attempt conn w (q, r) e d =
    let w' = record (start_listening conn attempt w) { command_id = w.command_id + 1 } in
    rw (construct-refused w' d) (
      rw e (
        do_disconnect-Reconnecting _ _ w'
          (Sound-issue (start_listening conn attempt w)
            (Sound-connecting (start_listening conn attempt w) (ground (arith, e)), r))
          (ground (arith, e))))
