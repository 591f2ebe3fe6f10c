-- ===== src/Client/Interleaving/Handlers/Runs.antt =====
-- A publication that is read while a method waits (centrifuge/client.py).
use centrifuge_python.Events.{operation_timeout}
use centrifuge_python.Client.Moves.{unsubscribe_result}
use centrifuge_python.Client.Messages.{pub_push, push_message}
use centrifuge_python.Client.Interleaving.Handlers.{step_fits, step_fits-Reaches}
use centrifuge_python.Client.Interleaving.{
  unsubscribe_sent, enter, message_read, Reaches, Entry, Suspended, enters, starts,
}
use centrifuge_python.Client.Examples.{whole_payloads, online}
use centrifuge_python.Client.Coroutine.{wait, done, Step, raised}
use centrifuge_python.Base.{◌≡◌, [], ◌∷◌, ◌++◌, true, false, some, none}

abbrev waiting_step : Step (Unit {0})
waiting_step = enter whole_payloads (unsubscribe_sent 3 1) online

abbrev resumed : Step (Unit {0}) → Suspended
resumed (done a w) answer w' = done a w'
resumed (wait c w k) answer w' = k answer w'

waits_for_reply : Reaches whole_payloads online online ([] ++ resumed waiting_step ∷ [])
unfolding enter unsubscribe_result
waits_for_reply = enters (unsubscribe_sent 3 1) starts

-- A push of a publication for the subscription with the ID 4.
abbrev read_push : Entry
read_push =
    message_read
      (some (
        push_message (
          pub_push 7 4
            (record { offset = 11; data' = some 6; info = none; tags = none; delta = false }))
        ∷ []))
      1 0

step_fits-Reaches_example :
    (step_fits (enter whole_payloads read_push online) ≡ true)
    × (step_fits (resumed waiting_step (raised operation_timeout) online) ≡ true)
step_fits-Reaches_example =
    step_fits-Reaches whole_payloads online online [] (resumed waiting_step) [] waits_for_reply
      read_push (raised operation_timeout)
