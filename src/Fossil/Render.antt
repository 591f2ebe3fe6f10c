-- ===== src/Fossil/Render.antt =====
-- A writer of Fossil deltas, independent of centrifuge/fossil.py, and the round trip.
use centrifuge_python.Base.{
  Option-cases, inl, inr, drop-drop, length-drop, ap, ◌==◌, Bool-cases, true, false, ℕ, zero, suc,
  ◌+◌, ◌*◌, ◌/◌, ◌%◌, ◌^◌, ◌≤◌, ◌<◌, ◌≡◌, refl, List, ◌∷◌, arith, length, drop, none, some, ltb,
  if◌then◌else◌, Bool,
}
use native.Mathlib.Nat.{pow-suc, add_assoc}
use centrifuge_python.Base.Bits.{holds_below, holds_below_lem}
use centrifuge_python.Fossil.{z_digit, get_int_loop, get_int}
use centrifuge_python.Fossil.Reading.{Reads, reader_at, Reads-drop}

-- The digit characters of Fossil, in order: 0-9, A-Z, _, a-z, ~.
pub z_char : ℕ → ℕ
z_char d =
    if ltb d 10
    then 48 + d
    else (if ltb d 36 then 55 + d else (if d == 36 then 95 else (if ltb d 63 then 60 + d else 126)))

-- A number in base 64, most significant digit first, in front of what follows it.
pub put_int_fuel : ℕ → ℕ → List ℕ → List ℕ
put_int_fuel zero n rest = z_char n ∷ rest
put_int_fuel (suc fuel) n rest =
    let more = put_int_fuel fuel (n / 64) (z_char (n % 64) ∷ rest) in
    if ltb n 64 then z_char n ∷ rest else more

-- Six digits hold any 32-bit number.
unfoldable pub put_int : ℕ → List ℕ → List ℕ
put_int = put_int_fuel 5

is_digit : ℕ → ℕ → Bool
is_digit d byte = elim (z_digit byte) [ none ↦ false | some c ↦ c == d ]

digit_table : holds_below 64 (λ d. is_digit d (z_char d)) ≡ true
unfolding holds_below is_digit z_digit z_char
digit_table = refl

is_digit_sound : (d byte : ℕ) → is_digit d byte ≡ true → z_digit byte ≡ some d
unfolding is_digit
is_digit_sound d byte t = elim (Option-cases (z_digit byte)) [
  | inl e ↦ ground arith
  | inr (c, e) ↦ ground arith
]

z_digit-z_char : (d : ℕ) → d < 64 → z_digit (z_char d) ≡ some d
z_digit-z_char d h =
    is_digit_sound d (z_char d) (holds_below_lem 64 (λ e. is_digit e (z_char e)) d digit_table h)

-- From `v` the loop of `get_int` reads its way from `written` to `rest` and arrives at `n`.
record Arrives (written rest : List ℕ) (v n : ℕ) : Type 0 where
  taken : ℕ
  behind : drop taken written ≡ rest
  within : taken ≤ length written
  value : (pos : ℕ) → get_int_loop written v pos ≡ get_int_loop rest n (pos + taken)

Arrives-digit :
    (d v n : ℕ) (rest : List ℕ) → d < 64 → v * 64 + d ≡ n → Arrives (z_char d ∷ rest) rest v n
unfolding get_int_loop
Arrives-digit d v n rest h e = record {
  taken = 1;
  behind = refl;
  within = omega arith;
  value = λ pos. rw (z_digit-z_char d h, get_int_loop, e);
}

Arrives-trans :
    (xs ys zs : List ℕ) (v m n : ℕ) → Arrives xs ys v m → Arrives ys zs m n → Arrives xs zs v n
Arrives-trans xs ys zs v m n p q = record {
  taken = p.taken + q.taken;
  behind = rw (← drop-drop q.taken p.taken xs, p.behind) q.behind;
  within = omega (arith, p.within, q.within, ap length p.behind, length-drop p.taken xs);
  value = λ pos. rw (p.value pos, q.value (pos + p.taken), add_assoc);
}

Arrives-put_int_fuel :
    (fuel n : ℕ) (rest : List ℕ) → n < 64 ^ suc fuel → Arrives (put_int_fuel fuel n rest) rest 0 n
unfolding put_int_fuel
Arrives-put_int_fuel zero n rest h = Arrives-digit n 0 n rest (omega arith) (omega arith)
Arrives-put_int_fuel (suc fuel) n rest h = elim (Bool-cases (ltb n 64)) [
  | inl small ↦ rw small (Arrives-digit n 0 n rest (ground arith) (omega arith))
  | inr big ↦ rw big (
      Arrives-trans (put_int_fuel fuel (n / 64) (z_char (n % 64) ∷ rest)) (z_char (n % 64) ∷ rest)
        rest 0 (n / 64) n
        (Arrives-put_int_fuel fuel (n / 64) (z_char (n % 64) ∷ rest)
          (omega (arith, pow-suc 64 (suc fuel))))
        (Arrives-digit (n % 64) (n / 64) n rest (omega arith) (omega arith)))
]

get_int_stops :
    (t n pos : ℕ) (rest : List ℕ) → z_digit t ≡ none → get_int_loop (t ∷ rest) n pos ≡ (n, pos + 1)
unfolding get_int_loop
get_int_stops t n pos rest stop = rw (stop, get_int_loop)

-- `get_int` reads the number that was written, and stops in front of what follows it.
pub get_int-put_int :
    (n t : ℕ) (rest a : List ℕ) (pos : ℕ)
    → n < 2 ^ 32
    → z_digit t ≡ none
    → Reads a (put_int n (t ∷ rest)) pos
    → (q : ℕ) × (get_int (reader_at a pos) ≡ (n, reader_at a q)) × Reads a (t ∷ rest) q
unfolding get_int put_int
get_int-put_int n t rest a pos h stop r =
    let p = Arrives-put_int_fuel 5 n (t ∷ rest) (omega arith) in
    (
      pos + p.taken,
      rw (r.rest, p.value pos, get_int_stops t n (pos + p.taken) rest stop) (ground arith),
      rw p.behind at (Reads-drop a _ pos p.taken r p.within),
    )

put_int_fuel-lt : (fuel n : ℕ) (rest : List ℕ) → length rest < length (put_int_fuel fuel n rest)
unfolding put_int_fuel
put_int_fuel-lt zero n rest = omega arith
put_int_fuel-lt (suc fuel) n rest =
    ground (arith, put_int_fuel-lt fuel (n / 64) (z_char (n % 64) ∷ rest))

pub put_int-lt : (n : ℕ) (rest : List ℕ) → length rest < length (put_int n rest)
unfolding put_int
put_int-lt n rest = put_int_fuel-lt 5 n rest
