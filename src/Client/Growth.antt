-- ===== src/Client/Growth.antt =====
-- The numbers of a client that only grow (centrifuge/client.py): `_transport_id`, `_transition`, `_id`,
-- `_handler_failures` and the `_attempt` of each subscription.
pub mod Numbers
pub mod Teardown
pub mod Subscriptions
pub mod Publications
pub mod Moves
pub mod Updates
pub mod Messages
pub mod ServerSubs
pub mod Connecting
pub mod Refreshing
pub mod Subscribing
pub mod Requests
use mathlib.Core.Path.{sym, subst}
use centrifuge_python.Client.World.{World}
use centrifuge_python.Client.Coroutine.{done, Co, bind, Answer, wait, Call, Step}
use centrifuge_python.Base.{
  ℕ, ◌≤◌, Bool, true, false, if◌then◌else◌, ◌≡◌, ◌==◌, refl, arith, Bool-cases, inl, inr, ◌+◌,
}

pub record Mark : Type 0 where
  pub transport_id : ℕ
  pub transition : ℕ
  pub command_id : ℕ
  pub handler_failures : ℕ
  pub attempt : ℕ → ℕ

abbrev pub mark : World → Mark
mark w = record {
  transport_id = w.transport_id;
  transition = w.transition;
  command_id = w.command_id;
  handler_failures = w.handler_failures;
  attempt = λ i. (w.sub i).attempt;
}

-- The numbers `n` are not below the numbers `m`.
pub record Later (m n : Mark) : Type 0 where
  pub connections : m.transport_id ≤ n.transport_id
  pub transitions : m.transition ≤ n.transition
  pub commands : m.command_id ≤ n.command_id
  pub failures : m.handler_failures ≤ n.handler_failures
  pub attempts : (i : ℕ) → m.attempt i ≤ n.attempt i

pub Later-refl : (m : Mark) → Later m m
Later-refl m = record {
  connections = omega arith;
  transitions = omega arith;
  commands = omega arith;
  failures = omega arith;
  attempts = λ i. omega arith;
}

pub Later-trans : {l m n : Mark} → Later l m → Later m n → Later l n
Later-trans p q = record {
  connections = omega (arith, p.connections, q.connections);
  transitions = omega (arith, p.transitions, q.transitions);
  commands = omega (arith, p.commands, q.commands);
  failures = omega (arith, p.failures, q.failures);
  attempts = λ i. omega (arith, p.attempts i, q.attempts i);
}

pub Later-if :
    {m : Mark} (c : Bool) (v w : World)
    → Later m (mark v)
    → Later m (mark w)
    → Later m (mark (if c then v else w))
Later-if true v w l l' = l
Later-if false v w l l' = l'

-- A coroutine that starts from the numbers `m` leaves only later ones to other code, and again from each
-- state that it finds then.
pub data Grows {A : Type 0} : Mark → Step A → Type 0 where
  grown : {m : Mark} {a : A} {w : World} → Later m (mark w) → Grows m (done a w)
  grows :
      {m : Mark} {c : Call} {w : World} {k : Answer → World → Step A}
      → Later m (mark w)
      → ((ans : Answer) (w' : World) → Grows (mark w') (k ans w'))
      → Grows m (wait c w k)

pub Grows-bind :
    {A B : Type 0} {m : Mark} {s : Step A} (f : A → Co B)
    → Grows m s
    → ((a : A) (m' : Mark) (w : World) → Later m' (mark w) → Grows m' (f a w))
    → Grows m (bind s f)
Grows-bind f (grown l) g = g _ _ _ l
Grows-bind f (grows l k) g = grows l (λ ans w'. Grows-bind f (k ans w') g)

pub Grows-if :
    {A : Type 0} {m : Mark} (c : Bool) {s t : Step A}
    → Grows m s
    → Grows m t
    → Grows m (if c then s else t)
Grows-if true ks kt = ks
Grows-if false ks kt = kt

pub Grows-else :
    {A : Type 0} {m : Mark} (c : Bool) (s t : Step A)
    → c ≡ false
    → Grows m t
    → Grows m (if c then s else t)
Grows-else {m = m} c s t e k = subst (λ b. Grows m (if b then s else t)) (sym e) k

-- The same for a choice of the coroutine.
pub Grows-choose :
    {A : Type 0} {m : Mark} {w : World} (c : Bool) (f g : Co A)
    → Grows m (f w)
    → Grows m (g w)
    → Grows m ((if c then f else g) w)
Grows-choose true f g ks kt = ks
Grows-choose false f g ks kt = kt

pub ruleset growth = (grown, grows, Grows-bind, Grows-if, Grows-choose, Later-refl)
