-- ===== src/Client/Reading/Phases.antt =====
-- A connection while it is the client's and once it is over (centrifuge/client.py, `_listen`,
-- `_process_messages` and `_stop_transport_tasks`).
use centrifuge_python.Client.Reading.Accounts.{is_ended}
use centrifuge_python.Client.Reading.{
  waiting, got, ended, processed_at, handling, take_from, take_at, Occurrence, Received, received,
  is_empty, Processor, stops, Reading, processed, arrives, stop, take_message, closes, occur, takes,
  finishes, closed,
}
use centrifuge_python.Base.{
  ℕ, ◌+◌, ◌<◌, Bool, true, false, not, ◌&&◌, ◌||◌, List, [], ◌∷◌, ◌++◌, ◌==◌, Option, none, some,
  ◌≡◌, refl, arith, Bool-cases, inl, inr,
}

pub record Current (attempt : ℕ) (r : Reading) : Type 0 where
  pub same : (r.transport_id == attempt) ≡ true
  pub own : r.messages ≡ true
  pub undropped : r.dropped ≡ []

-- Once the connection is over the processor has ended or the queue still wakes it up.
pub record Over (attempt : ℕ) (r : Reading) : Type 0 where
  pub past : attempt < r.transport_id
  pub woken : (not (is_ended r.processor) && is_empty r.queue) ≡ false
  pub clean : (is_ended r.processor || is_empty r.dropped) ≡ true

pub data Phase (attempt : ℕ) (r : Reading) : Type 0 where
  current : Current attempt r → Phase attempt r
  over : Over attempt r → Phase attempt r

pub Phase-clean :
    {attempt : ℕ} {r : Reading}
    → Phase attempt r
    → (is_ended r.processor || is_empty r.dropped) ≡ true
Phase-clean {attempt} {r} (current c) = elim (Bool-cases (is_ended r.processor)) [
  | inl e ↦ rw e refl
  | inr e ↦ rw (e, c.undropped) refl
]
Phase-clean (over o) = o.clean

-- Over stays over, and no message is begun.
abbrev Stays : ℕ → Reading → Reading → Type 0
Stays attempt r r' = Over attempt r' × (r'.begun ≡ r.begun)

pub elsewhere : {attempt : ℕ} {r : Reading} → Over attempt r → (r.transport_id == attempt) ≡ false
elsewhere o = ground (arith, o.past)

Over-received :
    (attempt : ℕ) (result : Received) (r : Reading)
    → Over attempt r
    → Stays attempt r (received attempt result r)
unfolding received
Over-received attempt result r o = elim (Bool-cases r.listening) [
  | inr e ↦ rw e (record { past = o.past; woken = o.woken; clean = o.clean }, refl)
  | inl e ↦ rw (e, elsewhere o) (record { past = o.past; woken = o.woken; clean = o.clean }, refl)
]

Over-take_from :
    (attempt : ℕ) (queue : List (Option Received)) (r : Reading)
    → r.queue ≡ queue
    → is_ended r.processor ≡ false
    → Over attempt r
    → Stays attempt r (take_from attempt queue r)
unfolding take_from got
Over-take_from attempt [] r e p o = (o, refl)
Over-take_from attempt (none ∷ queue) r e p o =
    (record { past = o.past; woken = refl; clean = refl }, refl)
Over-take_from attempt (some message ∷ queue) r e p o =
    rw (elsewhere o) (record { past = o.past; woken = refl; clean = refl }, refl)

Over-take_at :
    (attempt : ℕ) (processor : Processor) (r : Reading)
    → r.processor ≡ processor
    → Over attempt r
    → Stays attempt r (take_at attempt processor r)
unfolding take_at
Over-take_at attempt waiting r e o = Over-take_from attempt r.queue r refl (rw e refl) o
Over-take_at attempt (handling message) r e o = (o, refl)
Over-take_at attempt ended r e o = (o, refl)

Over-processed_at :
    (attempt : ℕ) (failed : Bool) (processor : Processor) (r : Reading)
    → r.processor ≡ processor
    → Over attempt r
    → Stays attempt r (processed_at failed processor r)
unfolding processed_at
Over-processed_at attempt failed waiting r e o = (o, refl)
Over-processed_at attempt true (handling message) r e o =
    (record { past = o.past; woken = refl; clean = refl }, refl)
Over-processed_at attempt false (handling message) r e o = (
  record { past = o.past; woken = ground (arith, e, o.woken); clean = ground (arith, e, o.clean) },
  refl,
)
Over-processed_at attempt failed ended r e o = (o, refl)

filled : {A : Type 0} (xs : List A) (a : A) → is_empty (xs ++ (a ∷ [])) ≡ false
filled [] a = refl
filled (x ∷ xs) a = refl

second_false : (a b : Bool) → b ≡ false → (a && b) ≡ false
second_false a b e = ground (arith, e)

Over-stop : (attempt : ℕ) (r : Reading) → Over attempt r → Stays attempt r (stop r)
unfolding stop
Over-stop attempt r o = elim (Bool-cases r.messages) [
  | inl e ↦ rw e (
    record {
      past = omega (arith, o.past);
      woken = second_false _ _ (filled r.queue none);
      clean = o.clean;
    },
    refl,
  )
  | inr e ↦ rw e (record { past = omega (arith, o.past); woken = o.woken; clean = o.clean }, refl)
]

pub Over-occur :
    (attempt : ℕ) (o : Occurrence) (r : Reading)
    → Over attempt r
    → Over attempt (occur attempt o r) × ((occur attempt o r).begun ≡ r.begun)
unfolding occur closed take_message processed
Over-occur attempt (arrives result) r p = Over-received attempt result r p
Over-occur attempt closes r p = (record { past = p.past; woken = p.woken; clean = p.clean }, refl)
Over-occur attempt takes r p = Over-take_at attempt r.processor r refl p
Over-occur attempt stops r p = Over-stop attempt r p
Over-occur attempt (finishes failed) r p = Over-processed_at attempt failed r.processor r refl p

Current-received :
    (attempt : ℕ) (result : Received) (r : Reading)
    → Current attempt r
    → Current attempt (received attempt result r)
unfolding received
Current-received attempt result r c = elim (Bool-cases r.listening) [
  | inr e ↦ rw e (record { same = c.same; own = c.own; undropped = c.undropped })
  | inl e ↦ elim (Bool-cases (is_empty result)) [
    | inl f ↦ rw (e, c.same, f) (record { same = c.same; own = c.own; undropped = c.undropped })
    | inr f ↦ rw (e, c.same, f) (record { same = c.same; own = c.own; undropped = c.undropped })
  ]
]

Current-take_from :
    (attempt : ℕ) (queue : List (Option Received)) (r : Reading)
    → Current attempt r
    → Current attempt (take_from attempt queue r)
unfolding take_from got
Current-take_from attempt [] r c = c
Current-take_from attempt (none ∷ queue) r c = record {
  same = c.same;
  own = c.own;
  undropped = c.undropped;
}
Current-take_from attempt (some message ∷ queue) r c =
    rw (c.same) (record { same = c.same; own = c.own; undropped = c.undropped })

Current-take_at :
    (attempt : ℕ) (processor : Processor) (r : Reading)
    → Current attempt r
    → Current attempt (take_at attempt processor r)
unfolding take_at
Current-take_at attempt waiting r c = Current-take_from attempt r.queue r c
Current-take_at attempt (handling message) r c = c
Current-take_at attempt ended r c = c

Current-processed_at :
    (attempt : ℕ) (failed : Bool) (processor : Processor) (r : Reading)
    → Current attempt r
    → Current attempt (processed_at failed processor r)
unfolding processed_at
Current-processed_at attempt failed waiting r c = c
Current-processed_at attempt failed (handling message) r c = record {
  same = c.same;
  own = c.own;
  undropped = c.undropped;
}
Current-processed_at attempt failed ended r c = c

next : (a b : ℕ) → (a == b) ≡ true → b < a + 1
next a b e = ground (arith, e)

-- A teardown of the connection that is the client's ends it.
pub Current-stop : (attempt : ℕ) (r : Reading) → Current attempt r → Over attempt (stop r)
unfolding stop
Current-stop attempt r c = rw (c.own) (record {
  past = next r.transport_id attempt c.same;
  woken = second_false _ _ (filled r.queue none);
  clean = Phase-clean (current c);
})

pub Phase-occur :
    (attempt : ℕ) (o : Occurrence) (r : Reading)
    → Phase attempt r
    → Phase attempt (occur attempt o r)
unfolding occur closed take_message processed
Phase-occur attempt o r (over p) = over ((Over-occur attempt o r p).0)
Phase-occur attempt (arrives result) r (current c) = current (Current-received attempt result r c)
Phase-occur attempt closes r (current c) =
    current (record { same = c.same; own = c.own; undropped = c.undropped })
Phase-occur attempt takes r (current c) = current (Current-take_at attempt r.processor r c)
Phase-occur attempt stops r (current c) = over (Current-stop attempt r c)
Phase-occur attempt (finishes failed) r (current c) =
    current (Current-processed_at attempt failed r.processor r c)
