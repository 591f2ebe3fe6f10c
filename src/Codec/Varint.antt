-- ===== src/Codec/Varint.antt =====
-- The varints of centrifuge/codecs.py: `_varint_encode` and `_varint_decode`.
use Prim.Native.Nat.{bit_and, bit_or}
use centrifuge_python.Base.{
  pair_eq, ℕ, ◌+◌, ◌*◌, ◌/◌, ◌%◌, ◌^◌, ◌≤◌, ◌<◌, ◌≡◌, ◌∙◌, ap, some, List, [], ◌∷◌, ◌++◌, arith,
  length, drop-append, lt_wf,
}
use centrifuge_python.Base.Bits.{bit_and_low_seven, top_bit, set_top_bit, bit_or_disjoint}
use centrifuge_python.Codec.{
  shift_shrinks, varint_encode_loop, varint_encode, varint_decode_loop, varint_decode,
}
use mathlib.Core.Logic.{dif_pos, dif_neg}
use mathlib.Core.List.{append_assoc}
use mathlib.Core.WellFounded.{Acc}
use native.Mathlib.Decide.{dec_lt}
use native.Mathlib.Bridge.{le_prop}
use native.Mathlib.Numerals.{towards_suc}

-- One round on the last byte, and on a byte with the top bit set.
last_round :
    (g result shift position : ℕ) (rest : List ℕ)
    → g < 128
    → result < 2 ^ shift
    → varint_decode_loop (g ∷ rest) result shift position
      ≡ some (result + g * 2 ^ shift, position + 1)
unfolding varint_decode_loop
last_round g result shift position rest hg hr =
    ground (arith, bit_and_low_seven g, top_bit g, bit_or_disjoint shift result g hr)

inner_round :
    (g result shift position : ℕ) (rest : List ℕ)
    → g < 128
    → result < 2 ^ shift
    → varint_decode_loop ((g + 128) ∷ rest) result shift position
      ≡ varint_decode_loop rest (result + g * 2 ^ shift) (shift + 7) (position + 1)
unfolding varint_decode_loop
inner_round g result shift position rest hg hr =
    ground
      (arith, bit_and_low_seven (g + 128), top_bit (g + 128), bit_or_disjoint shift result g hr)

pow_seven : (s : ℕ) → 2 ^ (s + 7) ≡ 128 * 2 ^ s
pow_seven s = simp towards_suc (omega arith)

-- What the encoder's loop appends for `number`, and how it is read.
record Encodes (number : ℕ) (bytes : List ℕ) : Type 0 where
  some_bytes : 1 ≤ length bytes
  read :
      (result shift position : ℕ) (rest : List ℕ)
      → result < 2 ^ shift
      → varint_decode_loop (bytes ++ rest) result shift position
        ≡ some (result + number * 2 ^ shift, position + length bytes)

group_below : (result g s : ℕ) → result < 2 ^ s → g < 128 → result + g * 2 ^ s < 2 ^ (s + 7)
group_below result g s hr hg = rw (pow_seven s) (grind arith)

split_group : (n s : ℕ) → n % 128 * 2 ^ s + n / 128 * 2 ^ (s + 7) ≡ n * 2 ^ s
split_group n s =
    let parts : n % 128 + n / 128 * 128 ≡ n = omega arith in
    omega (arith, ap (λ (t : ℕ). t * 2 ^ s) parts, ap (λ (t : ℕ). n / 128 * t) (pow_seven s))

Encodes-last : (number : ℕ) → number < 128 → Encodes number (number ∷ [])
Encodes-last number h = record {
  some_bytes = omega arith;
  read = λ result shift position rest below. last_round number result shift position rest h below;
}

Encodes-more :
    (number byte : ℕ) (bytes : List ℕ)
    → byte ≡ number % 128 + 128
    → Encodes (number / 128) bytes
    → Encodes number (byte ∷ bytes)
Encodes-more number byte bytes is_byte e = record {
  some_bytes = omega arith;
  read = λ result shift position rest below.
      let g = number % 128 in
      rw is_byte (inner_round g result shift position (bytes ++ rest) (omega arith) below)
      ∙ e.read (result + g * 2 ^ shift) (shift + 7) (position + 1) rest
          (group_below result g shift below (omega arith))
      ∙ ap some (pair_eq (omega (arith, split_group number shift)) (omega arith));
}

varint_encode_loop-Encodes :
    (number : ℕ) (buffer : List ℕ) (w : Acc ◌<◌ number)
    → (bytes : List ℕ) × (varint_encode_loop number buffer w ≡ buffer ++ bytes)
      × Encodes number bytes
unfolding varint_encode_loop
varint_encode_loop-Encodes number buffer (Acc.intro _ smaller) = elim (dec_lt 0 (number / 2 ^ 7)) [
  | yes more ↦
      let byte = bit_or (bit_and number 0x7F) 0x80 in
      let is_byte : byte ≡ number % 128 + 128 =
        rw (bit_and_low_seven number) (set_top_bit (number % 128) (omega arith)) in
      let (bytes, e, enc) =
        varint_encode_loop-Encodes (number / 2 ^ 7) (buffer ++ (byte ∷ []))
          (smaller (number / 2 ^ 7) (shift_shrinks number more)) in
      (
        byte ∷ bytes,
        rw (dif_pos (dec_lt 0 (number / 2 ^ 7)) le_prop more)
            (e ∙ append_assoc buffer (byte ∷ []) bytes),
        Encodes-more number byte bytes is_byte enc,
      )
  | no last ↦
      let is_byte : bit_and number 0x7F ≡ number = omega (arith, bit_and_low_seven number) in
      (
        bit_and number 0x7F ∷ [],
        rw (dif_neg (dec_lt 0 (number / 2 ^ 7)) last),
        rw is_byte (Encodes-last number (omega arith)),
      )
]

-- Decoding at the position of an encoded number gives the number and the position behind it,
-- whatever stands before and behind: for every number.
pub varint_decode-encode :
    (number : ℕ) (before rest : List ℕ)
    → varint_decode (before ++ (varint_encode number ++ rest)) (length before)
      ≡ some (number, length before + length (varint_encode number))
unfolding varint_decode varint_encode
varint_decode-encode number before rest =
    let (bytes, e, enc) = varint_encode_loop-Encodes number [] (lt_wf.apply number) in
    rw (drop-append, e)
      (enc.read 0 0 (length before) rest (omega arith)
        ∙ ap some (pair_eq (omega arith) (omega arith)))

pub varint_encode_some : (number : ℕ) → 1 ≤ length (varint_encode number)
unfolding varint_encode
varint_encode_some number =
    let (bytes, e, enc) = varint_encode_loop-Encodes number [] (lt_wf.apply number) in
    rw e enc.some_bytes
