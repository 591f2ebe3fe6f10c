-- ===== src/Fossil/Reading.antt =====
-- `get_int` of centrifuge/fossil.py on any input, and on the digits that a writer puts there.
use centrifuge_python.Base.{
  zero, suc, refl, ap, ℕ, ◌+◌, ◌*◌, ◌^◌, ◌≤◌, ◌<◌, List, [], ◌∷◌, arith, length, Option-cases, inl,
  inr, drop, ◌≡◌, drop-drop, length-drop, get_or, true,
}
use centrifuge_python.Fossil.{z_digit, get_int_loop, Reader, get_char, have_bytes, get_int, ok}

-- The loop never passes the end, and takes one byte at least where there is one.
get_int_loop_pos :
    (xs : List ℕ) (v pos : ℕ)
    → let (_, q) = get_int_loop xs v pos in (pos ≤ q) × (q ≤ pos + length xs)
unfolding get_int_loop
get_int_loop_pos [] v pos = omega arith
get_int_loop_pos (b ∷ xs) v pos = elim (Option-cases (z_digit b)) [
  | inl e ↦ ground arith
  | inr (c, e) ↦ ground (arith, get_int_loop_pos xs (v * 2 ^ 6 + c) (pos + 1))
]

get_int_loop_takes : (b : ℕ) (xs : List ℕ) (v pos : ℕ) → pos < (get_int_loop (b ∷ xs) v pos).1
unfolding get_int_loop
get_int_loop_takes b xs v pos = elim (Option-cases (z_digit b)) [
  | inl e ↦ ground arith
  | inr (c, e) ↦ ground (arith, get_int_loop_pos xs (v * 2 ^ 6 + c) (pos + 1))
]

-- A position of the array, by what lies behind it.
pub record Reads (a xs : List ℕ) (pos : ℕ) : Type 0 where
  pub rest : drop pos a ≡ xs
  pub inside : pos + length xs ≡ length a

pub Reads-drop :
    (a xs : List ℕ) (pos k : ℕ) → Reads a xs pos → k ≤ length xs → Reads a (drop k xs) (pos + k)
Reads-drop a xs pos k h le = record {
  rest = rw (← drop-drop k pos a, h.rest);
  inside = omega (arith, length-drop k xs, h.inside);
}

abbrev pub reader_at : List ℕ → ℕ → Reader
reader_at a pos = record { a = a; pos = pos }

get_or-drop : (a xs : List ℕ) (pos c : ℕ) → drop pos a ≡ c ∷ xs → get_or a pos 0 ≡ c
get_or-drop [] xs zero c e = cc
get_or-drop [] xs (suc pos) c e = cc
get_or-drop (x ∷ a) xs zero c e = cc
get_or-drop (x ∷ a) xs (suc pos) c e = get_or-drop a xs pos c e

pub get_char_at :
    (a xs : List ℕ) (pos c : ℕ)
    → Reads a (c ∷ xs) pos
    → get_char (reader_at a pos) ≡ ok (c, reader_at a (pos + 1))
unfolding get_char
get_char_at a xs pos c h = ground (arith, get_or-drop a xs pos c h.rest, h.inside)

pub have_bytes_at :
    (a xs : List ℕ) (pos : ℕ) → Reads a xs pos → 0 < length xs → have_bytes (reader_at a pos) ≡ true
unfolding have_bytes
have_bytes_at a xs pos h more = ground (arith, h.inside)

-- `get_int` keeps the array; where a byte is left it moves to a byte that it has not passed.
pub get_int_moves :
    (r : Reader)
    → r.pos < length r.a
    → let (_, r') = get_int r in (r'.a ≡ r.a) × (r.pos ≤ r'.pos) × (r'.pos < length r.a)
unfolding get_int
get_int_moves r h = go (drop r.pos r.a) refl
  where
    go :
        (xs : List ℕ)
        → drop r.pos r.a ≡ xs
        → let (_, r') = get_int r in (r'.a ≡ r.a) × (r.pos ≤ r'.pos) × (r'.pos < length r.a)
    go [] e = absurd (omega (arith, length-drop r.pos r.a, ap length e))
    go (b ∷ xs) e = rw e (
      refl,
      omega (arith, get_int_loop_takes b xs 0 r.pos),
      omega (
        arith,
        get_int_loop_takes b xs 0 r.pos,
        get_int_loop_pos (b ∷ xs) 0 r.pos,
        length-drop r.pos r.a,
        ap length e,
      ),
    )

pub Reads-next : (a xs : List ℕ) (pos c : ℕ) → Reads a (c ∷ xs) pos → Reads a xs (pos + 1)
Reads-next a xs pos c h = Reads-drop a (c ∷ xs) pos 1 h (omega arith)
