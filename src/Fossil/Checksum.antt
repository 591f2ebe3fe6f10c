-- ===== src/Fossil/Checksum.antt =====
-- `checksum` of centrifuge/fossil.py against the sum of big-endian 32-bit words.
use centrifuge_python.Base.{
  ℕ, zero, suc, ◌+◌, ◌*◌, ◌%◌, ◌^◌, ◌≤◌, ◌<◌, ◌≡◌, refl, inl, inr, List, [], ◌∷◌, arith, leb,
  length, Bool-cases, drop, length-drop, ◌∙◌, drop-drop,
}
use centrifuge_python.Fossil.{
  Sums, mask32, add_quad, add_block, loop16, loop4, remaining, fold_sums, no_sums, checksum,
}

-- The bytes read as big-endian words of 32 bits, the last one filled with zeros, and added up.
unfoldable pub word_sum : List ℕ → ℕ
word_sum [] = 0
word_sum (a ∷ []) = a * 2 ^ 24
word_sum (a ∷ b ∷ []) = a * 2 ^ 24 + b * 2 ^ 16
word_sum (a ∷ b ∷ c ∷ []) = a * 2 ^ 24 + b * 2 ^ 16 + c * 2 ^ 8
word_sum (a ∷ b ∷ c ∷ d ∷ rest) = a * 2 ^ 24 + b * 2 ^ 16 + c * 2 ^ 8 + d + word_sum rest

-- The word that the four sums stand for.
abbrev weight : Sums → ℕ
weight s = s.sum3 + s.sum2 * 2 ^ 8 + s.sum1 * 2 ^ 16 + s.sum0 * 2 ^ 24

add_quad-weight :
    (s : Sums) (xs : List ℕ)
    → 4 ≤ length xs
    → (weight (add_quad s xs) + word_sum (drop 4 xs)) % 2 ^ 32 ≡ (weight s + word_sum xs) % 2 ^ 32
unfolding add_quad word_sum
add_quad-weight s (a ∷ b ∷ c ∷ d ∷ rest) h = omega arith
add_quad-weight s (a ∷ b ∷ c ∷ []) h = absurd (omega arith)
add_quad-weight s (a ∷ b ∷ []) h = absurd (omega arith)
add_quad-weight s (a ∷ []) h = absurd (omega arith)
add_quad-weight s [] h = absurd (omega arith)

add_quad-weight_at :
    (n : ℕ) (s : Sums) (xs : List ℕ)
    → n + 4 ≤ length xs
    → (weight (add_quad s (drop n xs)) + word_sum (drop (n + 4) xs)) % 2 ^ 32
      ≡ (weight s + word_sum (drop n xs)) % 2 ^ 32
add_quad-weight_at n s xs h =
    rw (← drop-drop 4 n xs) (add_quad-weight s (drop n xs) (omega (arith, length-drop n xs)))

add_block-weight :
    (s : Sums) (xs : List ℕ)
    → 16 ≤ length xs
    → (weight (add_block s xs) + word_sum (drop 16 xs)) % 2 ^ 32 ≡ (weight s + word_sum xs) % 2 ^ 32
unfolding add_block
add_block-weight s xs h =
    let s₁ = add_quad s xs in
    let s₂ = add_quad s₁ (drop 4 xs) in
    let s₃ = add_quad s₂ (drop 8 xs) in
    add_quad-weight_at 12 s₃ xs h
    ∙ add_quad-weight_at 8 s₂ xs (omega arith)
    ∙ add_quad-weight_at 4 s₁ xs (omega arith)
    ∙ add_quad-weight s xs (omega arith)

-- With a round of fuel for each block a loop ends below its block's length, and keeps the weight of
-- the sums and of what is left.
loop16-weight :
    (fuel : ℕ) (s : Sums) (xs : List ℕ)
    → length xs ≤ fuel
    → let (s', ys) = loop16 fuel s xs in
      (length ys < 16) × ((weight s' + word_sum ys) % 2 ^ 32 ≡ (weight s + word_sum xs) % 2 ^ 32)
unfolding loop16
loop16-weight zero s xs h = (omega arith, refl)
loop16-weight (suc fuel) s xs h = elim (Bool-cases (leb 16 (length xs))) [
  | inl more ↦
      let (short, kept) =
        loop16-weight fuel (add_block s xs) (drop 16 xs) (ground (arith, length-drop 16 xs)) in
      rw more (short, kept ∙ add_block-weight s xs (ground arith))
  | inr done ↦ rw done (ground arith, refl)
]

loop4-weight :
    (fuel : ℕ) (s : Sums) (xs : List ℕ)
    → length xs ≤ fuel
    → let (s', ys) = loop4 fuel s xs in
      (length ys < 4) × ((weight s' + word_sum ys) % 2 ^ 32 ≡ (weight s + word_sum xs) % 2 ^ 32)
unfolding loop4
loop4-weight zero s xs h = (omega arith, refl)
loop4-weight (suc fuel) s xs h = elim (Bool-cases (leb 4 (length xs))) [
  | inl more ↦
      let (short, kept) =
        loop4-weight fuel (add_quad s xs) (drop 4 xs) (ground (arith, length-drop 4 xs)) in
      rw more (short, kept ∙ add_quad-weight s xs (ground arith))
  | inr done ↦ rw done (ground arith, refl)
]

remaining_word :
    (s : Sums) (xs : List ℕ)
    → length xs < 4
    → mask32 (remaining (fold_sums s) xs) ≡ (weight s + word_sum xs) % 2 ^ 32
unfolding remaining fold_sums word_sum
remaining_word s [] h = omega arith
remaining_word s (a ∷ []) h = omega arith
remaining_word s (a ∷ b ∷ []) h = omega arith
remaining_word s (a ∷ b ∷ c ∷ []) h = omega arith
remaining_word s (a ∷ b ∷ c ∷ d ∷ rest) h = absurd (omega arith)

-- The unrolled, masked `checksum` is the sum of the array's big-endian 32-bit words, the last one
-- filled with zero bytes, modulo 2^32: for every array.
pub checksum-word_sum : (arr : List ℕ) → checksum arr ≡ word_sum arr % 2 ^ 32
unfolding checksum
checksum-word_sum arr =
    let (s, xs) = loop16 (length arr) no_sums arr in
    let (s', ys) = loop4 (length xs) s xs in
    remaining_word s' ys (loop4-weight (length xs) s xs (omega arith)).0
    ∙ (loop4-weight (length xs) s xs (omega arith)).1
    ∙ (loop16-weight (length arr) no_sums arr (omega arith)).1
    ∙ omega arith
