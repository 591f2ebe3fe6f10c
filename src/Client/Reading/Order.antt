-- ===== src/Client/Reading/Order.antt =====
-- The order in which messages are processed (centrifuge/client.py, `_listen` and `_process_messages`).
use centrifuge_python.Client.Reading.Accounts.{
  accounted-occur, queued_by, messages_of, accounted, queued, is_waiting,
}
use centrifuge_python.Client.Reading.Phases.{
  Phase, elsewhere, Phase-occur, Current, over, Over, Phase-clean, Current-stop, current,
  Over-occur,
}
use centrifuge_python.Client.Reading.{
  take_message, occur, is_empty, stops, got, ended, run, Received, stop, Reading, Occurrence,
  Processor, waiting, take_from, start_reading, handling, take_at,
}
use centrifuge_python.Base.{
  ℕ, true, false, not, ◌||◌, List, [], ◌∷◌, ◌++◌, ◌==◌, Option, none, some, ◌≡◌, refl, sym, ap, ◌∙◌,
  arith,
}
use mathlib.Core.List.{append_assoc, append-nil}

Phase-run :
    (attempt : ℕ) (os : List Occurrence) (r : Reading)
    → Phase attempt r
    → Phase attempt (run attempt os r)
unfolding run
Phase-run attempt [] r p = p
Phase-run attempt (o ∷ os) r p =
    Phase-run attempt os (occur attempt o r) (Phase-occur attempt o r p)

Over-run :
    (attempt : ℕ) (os : List Occurrence) (r : Reading)
    → Over attempt r
    → Over attempt (run attempt os r) × ((run attempt os r).begun ≡ r.begun)
unfolding run
Over-run attempt [] r p = (p, refl)
Over-run attempt (o ∷ os) r p =
    let (p₁, e₁) = Over-occur attempt o r p in
    let (p₂, e₂) = Over-run attempt os (occur attempt o r) p₁ in (p₂, e₂ ∙ e₁)

accounted-run :
    (attempt : ℕ) (os : List Occurrence) (r : Reading)
    → Phase attempt r
    → accounted (run attempt os r) ≡ accounted r ++ queued attempt os r
unfolding run queued
accounted-run attempt [] r p = sym (append-nil _)
accounted-run attempt (o ∷ os) r p =
    accounted-run attempt os (occur attempt o r) (Phase-occur attempt o r p)
    ∙ ap (λ q. q ++ queued attempt os (occur attempt o r))
        (accounted-occur attempt o r (Phase-clean p))
    ∙ append_assoc (accounted r) (queued_by attempt o r) (queued attempt os (occur attempt o r))

Current-start : (attempt : ℕ) → Current attempt (start_reading attempt)
unfolding start_reading
Current-start attempt = record { same = ground arith; own = refl; undropped = refl }

Phase-dropped :
    (attempt : ℕ) (r : Reading)
    → Phase attempt r
    → (is_empty r.dropped || not (r.transport_id == attempt)) ≡ true
Phase-dropped attempt r (current c) = rw (c.undropped) refl
Phase-dropped attempt r (over o) = ground (arith, o.past)

Phase-stop :
    (attempt : ℕ) (r : Reading)
    → Phase attempt r
    → Over attempt (stop r) × ((stop r).begun ≡ r.begun)
unfolding stop occur
Phase-stop attempt r (current c) = (Current-stop attempt r c, rw (c.own) refl)
Phase-stop attempt r (over o) = Over-occur attempt stops r o

take_from-ends :
    (attempt : ℕ) (queue : List (Option Received)) (r : Reading)
    → (r.transport_id == attempt) ≡ false
    → is_empty queue ≡ false
    → is_waiting (take_from attempt queue r).processor ≡ false
unfolding take_from got
take_from-ends attempt [] r e n = absurd (ground (arith, n))
take_from-ends attempt (none ∷ queue) r e n = refl
take_from-ends attempt (some message ∷ queue) r e n = rw e refl

take_at-ends :
    (attempt : ℕ) (processor : Processor) (r : Reading)
    → r.processor ≡ processor
    → Over attempt r
    → is_waiting (take_at attempt processor r).processor ≡ false
unfolding take_at
take_at-ends attempt waiting r e o =
    take_from-ends attempt r.queue r (elsewhere o) (ground (arith, e, o.woken))
take_at-ends attempt (handling message) r e o = rw e refl
take_at-ends attempt ended r e o = rw e refl

-- Whatever arrives, however the rounds of `_listen` and `_process_messages` and the ends of the
-- connection interleave: the messages whose processing began, the ones dropped after that and those that
-- wait are, in this order, the non-empty messages that arrived while `_listen` read for the client's
-- connection; one is dropped only when the connection is over; and after a teardown no message is begun,
-- and the next round of `_process_messages` does not keep waiting.
pub processed_in_order :
    (attempt : ℕ) (os os' : List Occurrence)
    → let r = run attempt os (start_reading attempt) in
      let r' = run attempt os' (stop r) in
      (r.begun ++ (r.dropped ++ messages_of r.queue) ≡ queued attempt os (start_reading attempt))
      × ((is_empty r.dropped || not (r.transport_id == attempt)) ≡ true)
      × (r'.begun ≡ r.begun)
      × (is_waiting (take_message attempt r').processor ≡ false)
unfolding take_message start_reading messages_of
processed_in_order attempt os os' =
    let r = run attempt os (start_reading attempt) in
    let p = Phase-run attempt os (start_reading attempt) (current (Current-start attempt)) in
    let (o, e) = Phase-stop attempt r p in
    let (o', e') = Over-run attempt os' (stop r) o in
    (
      accounted-run attempt os (start_reading attempt) (current (Current-start attempt)),
      Phase-dropped attempt r p,
      e' ∙ e,
      take_at-ends attempt _ (run attempt os' (stop r)) refl o',
    )
