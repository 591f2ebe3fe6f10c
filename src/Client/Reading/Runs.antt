-- ===== src/Client/Reading/Runs.antt =====
-- The tasks that read a connection on concrete messages (centrifuge/client.py).
use centrifuge_python.Client.Reading.{
  Received, run, finishes, arrives, Occurrence, occur, take_message, takes, got, processed, stop,
  closes, processed_at, closed, take_from, start_reading, received, take_at,
}
use centrifuge_python.Client.Reading.Order.{processed_in_order}
use centrifuge_python.Client.Reading.Accounts.{queued_by, messages_of, is_waiting, queued}
use centrifuge_python.Base.{true, false, not, ◌||◌, List, [], ◌∷◌, ◌++◌, ◌==◌, ◌≡◌}

abbrev hello : Received
hello = 104 ∷ []

abbrev world : Received
world = 105 ∷ []

-- Two messages and an empty one arrive, and the first of them is processed.
abbrev before : List Occurrence
before = arrives hello ∷ takes ∷ arrives [] ∷ arrives world ∷ finishes false ∷ []

-- After the teardown another one arrives, and the processor goes on.
abbrev after : List Occurrence
after = arrives world ∷ closes ∷ []

reading_program : Unit {0}
unfolding run occur received take_message take_at take_from got processed processed_at stop closed
    start_reading queued queued_by messages_of
reading_program = tt

processed_in_order_example :
    ((hello ∷ []) ++ ([] ++ (world ∷ [])) ≡ hello ∷ world ∷ [])
    × ((true || not (3 == 3)) ≡ true)
    × ((hello ∷ []) ≡ (hello ∷ []))
    × (is_waiting (take_message 3 (run 3 after (stop (run 3 before (start_reading 3))))).processor
        ≡ false)
unfolding reading_program
processed_in_order_example = processed_in_order 3 before after
