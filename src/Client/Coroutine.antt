-- ===== src/Client/Coroutine.antt =====
-- Coroutines over the state: what an `async` method of centrifuge/client.py does between two points
-- where other code may run. At such a point (an `await` that suspends) the rest of the method is a
-- function of the answer and of the state that it finds when it goes on.
-- A handler of the app never raises here: `_GuardedEvents` (centrifuge/client.py) catches what escapes
-- it, and the disconnect that follows is one of the things that may happen at the point.
use centrifuge_python.Base.{ℕ, Bool, if◌then◌else◌, ◌∷◌}
use centrifuge_python.Events.{Text, StreamPosition, Event, Error}
use centrifuge_python.Client.World.{World, Reply}

-- What is awaited.
pub data Call : Type 0 where
  handler : Event → Call
  reply_of : ℕ → Call
  get_token : Call
  sub_get_token sub_get_state : ℕ → Call
  open_transport : Call
  send_call : Call
  done_future : ℕ → Call
  connected_wait : Call
  subscribed_wait : ℕ → Call

pub data Answer : Type 0 where
  returned : Answer
  raised : Error → Answer
  cancelled connection_closed protocol_error : Answer
  token_of : Text → Answer
  position_of : StreamPosition → Answer
  opened : ℕ → Answer
  replied : Reply → Answer

pub data Step (A : Type 0) : Type 0 where
  done : A → World → Step A
  wait : Call → World → (Answer → World → Step A) → Step A

abbrev pub Co : Type 0 → Type 0
Co A = World → Step A

abbrev pub bind : {A B : Type 0} → Step A → (A → Co B) → Step B
bind (done a w) f = f a w
bind (wait c w k) f = wait c w (λ ans w'. bind (k ans w') f)

infixl 5 ◌>>=◌ ◌>>◌
abbrev pub ◌>>=◌ : {A B : Type 0} → Co A → (A → Co B) → Co B
◌>>=◌ m f w = bind (m w) f

abbrev pub ◌>>◌ : {A B : Type 0} → Co A → Co B → Co B
◌>>◌ m n w = bind (m w) (λ _. n)

abbrev pub ret : {A : Type 0} → A → Co A
ret a w = done a w

abbrev pub pass : Co (Unit {0})
pass w = done tt w

abbrev pub read : {A : Type 0} → (World → A) → Co A
read f w = done (f w) w

abbrev pub update : (World → World) → Co (Unit {0})
update f w = done tt (f w)

-- `if test: m` with the test on the state, and its two-sided form.
abbrev pub branch : {A : Type 0} → (World → Bool) → Co A → Co A → Co A
branch test m n w = if test w then m w else n w

abbrev pub when : (World → Bool) → Co (Unit {0}) → Co (Unit {0})
when test m = branch test m pass

abbrev pub await : Call → Co Answer
await c w = wait c w (λ ans w'. done ans w')

-- `await handler(context)`
abbrev pub emit : Event → Co (Unit {0})
emit e w = wait (handler e) (record w { events = e ∷ w.events }) (λ _ w'. done tt w')

-- Every state that the coroutine leaves to other code satisfies `I`, also at its end, if every state
-- that it finds does.
pub data Safe (I : World → Type 0) {A : Type 0} : Step A → Type 0 where
  ends : {a : A} {w : World} → I w → Safe I (done a w)
  waits :
      {c : Call} {w : World} {k : Answer → World → Step A}
      → I w
      → ((ans : Answer) (w' : World) → I w' → Safe I (k ans w'))
      → Safe I (wait c w k)
