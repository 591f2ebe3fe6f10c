-- ===== src/Client/Safety/Rules.antt =====
-- The rules that show a property of the state at every point where a coroutine leaves it.
use centrifuge_python.Base.{Bool, true, false, if◌then◌else◌, ◌≡◌, refl}
use centrifuge_python.Client.World.{World}
use centrifuge_python.Client.Coroutine.{Step, Co, Safe, ends, waits, bind}

-- `Safe` for every state at the beginning.
abbrev pub Keeps : (World → Type 0) → {A : Type 0} → Co A → Type 0
Keeps I m = (w : World) → I w → Safe I (m w)

pub Safe-bind :
    {I : World → Type 0} {A B : Type 0} {m : Step A} (f : A → Co B)
    → Safe I m
    → ((a : A) → Keeps I (f a))
    → Safe I (bind m f)
Safe-bind f (ends {a} {w} i) s = s a w i
Safe-bind f (waits i k) s = waits i (λ ans w' i'. Safe-bind f (k ans w' i') s)

-- The test of a branch may be used where the branch is taken.
pub Safe-if :
    {I : World → Type 0} {A : Type 0} (b : Bool) {m n : Step A}
    → (b ≡ true → Safe I m)
    → Safe I n
    → Safe I (if b then m else n)
Safe-if true km kn = km refl
Safe-if false km kn = kn

pub Keeps-if :
    {I : World → Type 0} {A : Type 0} (b : Bool) (m n : Co A) (w : World)
    → Safe I (m w)
    → Safe I (n w)
    → Safe I ((if b then m else n) w)
Keeps-if true m n w km kn = km
Keeps-if false m n w km kn = kn
