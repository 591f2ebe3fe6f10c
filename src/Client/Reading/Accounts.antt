-- ===== src/Client/Reading/Accounts.antt =====
-- The messages that are taken from the queue or wait in it (centrifuge/client.py, `_listen` and
-- `_process_messages`).
use centrifuge_python.Client.Reading.{
  finishes, stop, processed, got, closed, take_message, processed_at, received, handling, take_at,
  take_from, arrives, takes, closes, ended, Received, Occurrence, Reading, stops, is_empty,
  Processor, waiting, occur,
}
use centrifuge_python.Base.{
  ℕ, Bool, true, false, not, ◌&&◌, ◌||◌, List, [], ◌∷◌, ◌++◌, ◌==◌, if◌then◌else◌, Option, none,
  some, ◌≡◌, refl, sym, ap, ◌∙◌, arith, Bool-cases, inl, inr,
}
use mathlib.Core.List.{append_assoc, append-nil}

-- The messages in a queue.
unfoldable pub messages_of : List (Option Received) → List Received
messages_of [] = []
messages_of (none ∷ queue) = messages_of queue
messages_of (some message ∷ queue) = message ∷ messages_of queue

-- The messages that arrive while `_listen` reads and the connection is the client's, but for empty ones.
unfoldable pub queued_by : ℕ → Occurrence → Reading → List Received
queued_by attempt (arrives result) r =
    if r.listening && (r.transport_id == attempt && not (is_empty result)) then result ∷ [] else []
queued_by attempt closes r = []
queued_by attempt takes r = []
queued_by attempt stops r = []
queued_by attempt (finishes failed) r = []

unfoldable pub queued : ℕ → List Occurrence → Reading → List Received
queued attempt [] r = []
queued attempt (o ∷ os) r = queued_by attempt o r ++ queued attempt os (occur attempt o r)

abbrev pub is_waiting : Processor → Bool
is_waiting processor = elim processor [ waiting ↦ true | _ ↦ false ]

abbrev pub is_ended : Processor → Bool
is_ended processor = elim processor [ ended ↦ true | _ ↦ false ]

-- The messages that were taken, in order, and those that still wait.
abbrev pub accounted : Reading → List Received
accounted r = r.begun ++ (r.dropped ++ messages_of r.queue)

messages_of-append :
    (queue queue' : List (Option Received))
    → messages_of (queue ++ queue') ≡ messages_of queue ++ messages_of queue'
unfolding messages_of
messages_of-append [] queue' = refl
messages_of-append (none ∷ queue) queue' = messages_of-append queue queue'
messages_of-append (some message ∷ queue) queue' =
    ap (◌∷◌ message) (messages_of-append queue queue')

append-last :
    (begun dropped : List Received) (queue queue' : List (Option Received))
    → begun ++ (dropped ++ messages_of (queue ++ queue'))
      ≡ (begun ++ (dropped ++ messages_of queue)) ++ messages_of queue'
append-last begun dropped queue queue' =
    ap (λ q. begun ++ (dropped ++ q)) (messages_of-append queue queue')
    ∙ ap (λ q. begun ++ q) (sym (append_assoc dropped _ _))
    ∙ sym (append_assoc begun _ _)

accounted-received :
    (attempt : ℕ) (result : Received) (r : Reading)
    → accounted (received attempt result r) ≡ accounted r ++ queued_by attempt (arrives result) r
unfolding received queued_by messages_of
accounted-received attempt result r = elim (Bool-cases r.listening) [
  | inr e ↦ rw e (sym (append-nil _))
  | inl e ↦ elim (Bool-cases (r.transport_id == attempt)) [
    | inr f ↦ rw (e, f) (sym (append-nil _))
    | inl f ↦ elim (Bool-cases (is_empty result)) [
      | inl g ↦ rw (e, f, g) (sym (append-nil _))
      | inr g ↦ rw (e, f, g) (append-last r.begun r.dropped r.queue (some result ∷ []))
    ]
  ]
]

accounted-got :
    (attempt : ℕ) (message : Received) (queue : List (Option Received)) (r : Reading)
    → r.dropped ≡ []
    → accounted (got attempt message queue r) ≡ r.begun ++ (message ∷ messages_of queue)
unfolding got
accounted-got attempt message queue r d = elim (Bool-cases (r.transport_id == attempt)) [
  | inl e ↦ rw (e, d) (append_assoc r.begun (message ∷ []) (messages_of queue))
  | inr e ↦ rw (e, d) refl
]

accounted-undropped :
    (queue : List (Option Received)) (r : Reading)
    → r.queue ≡ queue
    → r.dropped ≡ []
    → r.begun ++ messages_of queue ≡ accounted r
accounted-undropped queue r e d = rw (e, d) refl

accounted-take_from :
    (attempt : ℕ) (queue : List (Option Received)) (r : Reading)
    → r.queue ≡ queue
    → r.dropped ≡ []
    → accounted (take_from attempt queue r) ≡ accounted r
unfolding take_from messages_of
accounted-take_from attempt [] r e d = refl
accounted-take_from attempt (none ∷ queue) r e d =
    sym (accounted-undropped queue (record r { queue = queue; processor = ended }) refl d)
    ∙ accounted-undropped (none ∷ queue) r e d
accounted-take_from attempt (some message ∷ queue) r e d =
    accounted-got attempt message queue r d ∙ accounted-undropped (some message ∷ queue) r e d

pub empty : {A : Type 0} (xs : List A) → is_empty xs ≡ true → xs ≡ []
empty [] e = refl
empty (x ∷ xs) e = absurd (ground (arith, e))

accounted-take_at :
    (attempt : ℕ) (processor : Processor) (r : Reading)
    → (is_ended processor || is_empty r.dropped) ≡ true
    → accounted (take_at attempt processor r) ≡ accounted r
unfolding take_at
accounted-take_at attempt waiting r d =
    accounted-take_from attempt r.queue r refl (empty r.dropped d)
accounted-take_at attempt (handling message) r d = refl
accounted-take_at attempt ended r d = refl

accounted-processed_at :
    (failed : Bool) (processor : Processor) (r : Reading)
    → accounted (processed_at failed processor r) ≡ accounted r
unfolding processed_at
accounted-processed_at failed waiting r = refl
accounted-processed_at failed (handling message) r = refl
accounted-processed_at failed ended r = refl

accounted-stop : (r : Reading) → accounted (stop r) ≡ accounted r
unfolding stop messages_of
accounted-stop r = elim (Bool-cases r.messages) [
  | inl e ↦ rw e (append-last r.begun r.dropped r.queue (none ∷ []) ∙ append-nil _)
  | inr e ↦ rw e refl
]

-- What is taken or waits after an occurrence is what was before it, and what it adds to the queue.
pub accounted-occur :
    (attempt : ℕ) (o : Occurrence) (r : Reading)
    → (is_ended r.processor || is_empty r.dropped) ≡ true
    → accounted (occur attempt o r) ≡ accounted r ++ queued_by attempt o r
unfolding occur closed take_message processed queued_by
accounted-occur attempt (arrives result) r d = accounted-received attempt result r
accounted-occur attempt closes r d = sym (append-nil _)
accounted-occur attempt takes r d = accounted-take_at attempt r.processor r d ∙ sym (append-nil _)
accounted-occur attempt stops r d = accounted-stop r ∙ sym (append-nil _)
accounted-occur attempt (finishes failed) r d =
    accounted-processed_at failed r.processor r ∙ sym (append-nil _)
