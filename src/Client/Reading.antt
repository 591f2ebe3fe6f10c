-- ===== src/Client/Reading.antt =====
-- The tasks of one connection that read its transport and process its messages (centrifuge/client.py):
-- `_listen`, `_process_messages`, their queue, and what `_stop_transport_tasks` does to them. `attempt` is
-- the number of the connection.
mod Runs
pub mod Accounts
pub mod Phases
pub mod Order
use centrifuge_python.Base.{
  ℕ, ◌+◌, Bool, true, false, not, ◌&&◌, List, [], ◌∷◌, ◌++◌, ◌==◌, if◌then◌else◌, Option, none,
  some,
}

-- Bytes, or the characters of a text.
abbrev pub Received : Type 0
Received = List ℕ

abbrev pub is_empty : {A : Type 0} → List A → Bool
is_empty [] = true
is_empty (x ∷ xs) = false

-- Where `_process_messages` is: at `queue.get()`, at the processing of a message, or at its end.
pub data Processor : Type 0 where
  waiting : Processor
  handling : Received → Processor
  ended : Processor

-- `messages` is whether `self._messages` is the queue, `listening` whether `_listen` still reads. `begun`
-- and `dropped` are the messages that were taken from the queue to be processed and not to be.
pub record Reading : Type 0 where
  pub transport_id : ℕ
  pub messages : Bool
  pub queue : List (Option Received)
  pub listening : Bool
  pub processor : Processor
  pub begun : List Received
  pub dropped : List Received

-- The tasks and the queue as `_connection_attempt` makes them.
unfoldable pub start_reading : ℕ → Reading
start_reading attempt = record {
  transport_id = attempt;
  messages = true;
  queue = [];
  listening = true;
  processor = waiting;
  begun = [];
  dropped = [];
}

-- A round of the loop of `_listen` in which the transport has a message.
unfoldable pub received : ℕ → Received → Reading → Reading
received attempt result r =
    if not r.listening
    then r
    else (if not (r.transport_id == attempt)
        then record r { listening = false }
        else (if is_empty result then r else record r { queue = r.queue ++ (some result ∷ []) }))

-- A round in which the transport is closed; what follows it is `connection_lost`.
unfoldable pub closed : Reading → Reading
closed r = record r { listening = false }

-- `queue.get()` of `_process_messages` and the tests after it. A queue that is empty keeps the task
-- waiting.
unfoldable pub got : ℕ → Received → List (Option Received) → Reading → Reading
got attempt message queue r =
    if r.transport_id == attempt
    then record r { queue = queue; processor = handling message; begun = r.begun ++ (message ∷ []) }
    else record r { queue = queue; processor = ended; dropped = r.dropped ++ (message ∷ []) }

unfoldable pub take_from : ℕ → List (Option Received) → Reading → Reading
unfolding got
take_from attempt [] r = r
take_from attempt (none ∷ queue) r = record r { queue = queue; processor = ended }
take_from attempt (some message ∷ queue) r = got attempt message queue r

unfoldable pub take_at : ℕ → Processor → Reading → Reading
unfolding take_from
take_at attempt waiting r = take_from attempt r.queue r
take_at attempt (handling message) r = r
take_at attempt ended r = r

unfoldable pub take_message : ℕ → Reading → Reading
unfolding take_at
take_message attempt r = take_at attempt r.processor r

-- The end of the processing of a message, without an exception or, where `_handler_failed` follows, with
-- one.
unfoldable pub processed_at : Bool → Processor → Reading → Reading
processed_at failed waiting r = r
processed_at failed (handling message) r = record r {
  processor = if failed then ended else waiting;
}
processed_at failed ended r = r

unfoldable pub processed : Bool → Reading → Reading
unfolding processed_at
processed failed r = processed_at failed r.processor r

-- A teardown: `_disconnect` counts `_transport_id` up and calls `_stop_transport_tasks`.
unfoldable pub stop : Reading → Reading
stop r =
    if r.messages
    then record r {
      transport_id = r.transport_id + 1;
      listening = false;
      queue = r.queue ++ (none ∷ []);
      messages = false;
    }
    else record r { transport_id = r.transport_id + 1 }

-- What may happen, in any order.
pub data Occurrence : Type 0 where
  arrives : Received → Occurrence
  closes takes stops : Occurrence
  finishes : Bool → Occurrence

unfoldable pub occur : ℕ → Occurrence → Reading → Reading
unfolding received closed take_message processed stop
occur attempt (arrives result) = received attempt result
occur attempt closes = closed
occur attempt takes = take_message attempt
occur attempt stops = stop
occur attempt (finishes failed) = processed failed

unfoldable pub run : ℕ → List Occurrence → Reading → Reading
unfolding occur
run attempt [] r = r
run attempt (o ∷ os) r = run attempt os (occur attempt o r)
