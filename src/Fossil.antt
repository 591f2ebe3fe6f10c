-- ===== src/Fossil.antt =====
-- centrifuge/fossil.py: applying a Fossil delta to the previous payload of a channel.
pub mod Checksum
pub mod Reading
pub mod Loop
pub mod Apply
pub mod Render
pub mod RoundTrip
mod Runs
-- A byte array is a list of numbers below 256. `IndexError` and `ValueError` are results, and so is
-- `out_of_fuel`, which is no Python value: the loop of `apply_delta` ran out of rounds.
use Prim.Native.Nat.{bit_and}
use centrifuge_python.Base.{
  ℕ, zero, suc, ◌+◌, ◌-◌, ◌*◌, ◌%◌, ◌^◌, Bool, false, not, ◌&&◌, Option, none, some, List, [], ◌∷◌,
  ◌++◌, ltb, leb, ◌==◌, if◌then◌else◌, length, get_or, take, drop, replicate,
}

pub data ValueError : Type 0 where
  size_not_terminated copy_not_terminated copy_too_large copy_past_end insert_too_large : ValueError
  insert_past_end bad_checksum size_mismatch unknown_operator unterminated : ValueError

pub data Result {ℓ} (A : Type ℓ) : Type ℓ where
  ok : A → Result A
  index_error : Result A
  value_error : ValueError → Result A
  out_of_fuel : Result A

infixl 5 ◌>>=◌ ◌>>◌
abbrev pub ◌>>=◌ {ℓ κ} :
    {Value : Type ℓ} {Next : Type κ} → Result Value → (Value → Result Next) → Result Next
index_error >>= rest = index_error
value_error reason >>= rest = value_error reason
out_of_fuel >>= rest = out_of_fuel
ok result >>= rest = rest result

abbrev pub ◌>>◌ {ℓ} : {Next : Type ℓ} → Result (Unit {0}) → Result Next → Result Next
first >> second = first >>= λ _. second

abbrev pub raise_if : Bool → ValueError → Result (Unit {0})
raise_if c e = if c then value_error e else ok tt

-- `count` digits in a row, the first of value `first`.
pub digits_from : ℕ → ℕ → List (Option ℕ)
digits_from first zero = []
digits_from first (suc count) = some first ∷ digits_from (first + 1) count

-- The table of 128 entries; `none` stands for -1.
pub z_value : List (Option ℕ)
unfolding digits_from
z_value =
    replicate 48 none
    ++ (digits_from 0 10
        ++ (replicate 7 none
            ++ (digits_from 10 26
                ++ (replicate 4 none
                    ++ (some 36
                        ∷ none
                        ∷ (digits_from 37 26 ++ (none ∷ none ∷ none ∷ some 63 ∷ none ∷ [])))))))

pub record Reader : Type 0 where
  pub a : List ℕ
  pub pos : ℕ

pub have_bytes : Reader → Bool
have_bytes r = ltb r.pos (length r.a)

pub get_byte : Reader → Result (ℕ × Reader)
get_byte r =
    if leb (length r.a) r.pos
    then index_error
    else ok (get_or r.a r.pos 0, record r { pos = r.pos + 1 })

-- `chr` is the identity on code points.
pub get_char : Reader → Result (ℕ × Reader)
unfolding get_byte
get_char = get_byte

-- The value of a base-64 digit, the two lookups `z_value[byte & 0x7F]` and `c < 0` together.
pub z_digit : ℕ → Option ℕ
unfolding z_value
z_digit byte = get_or z_value (bit_and byte 0x7F) none

-- The loop of `get_int` over what lies behind `pos`: the value, and the position that `get_byte` has
-- reached. Python's integers do not wrap: the mask stands after the loop.
pub get_int_loop : List ℕ → ℕ → ℕ → ℕ × ℕ
get_int_loop [] v pos = (v, pos)
get_int_loop (byte ∷ rest) v pos = elim (z_digit byte) [
  | none ↦ (v, pos + 1)
  | some c ↦ get_int_loop rest (v * 2 ^ 6 + c) (pos + 1)
]

-- `pos - 1` would be -1 where nothing was read from an empty array only, and reading there is an
-- IndexError as it is at 0.
pub get_int : Reader → ℕ × Reader
unfolding get_int_loop
get_int r =
    let (v, pos) = get_int_loop (drop r.pos r.a) 0 r.pos in (v % 2 ^ 32, record r { pos = pos - 1 })

-- The four running sums of `checksum`, each kept below 2^32 by its mask.
pub record Sums : Type 0 where
  pub sum0 : ℕ
  pub sum1 : ℕ
  pub sum2 : ℕ
  pub sum3 : ℕ

abbrev pub mask32 : ℕ → ℕ
mask32 x = x % 2 ^ 32

-- The four additions at `z`, for the list of what lies from `z` on.
pub add_quad : Sums → List ℕ → Sums
add_quad s xs = record {
  sum0 = mask32 (s.sum0 + get_or xs 0 0);
  sum1 = mask32 (s.sum1 + get_or xs 1 0);
  sum2 = mask32 (s.sum2 + get_or xs 2 0);
  sum3 = mask32 (s.sum3 + get_or xs 3 0);
}

-- The unrolled body: four times the four additions.
pub add_block : Sums → List ℕ → Sums
unfolding add_quad
add_block s xs = add_quad (add_quad (add_quad (add_quad s xs) (drop 4 xs)) (drop 8 xs)) (drop 12 xs)

-- `while n >= 16` and `while n >= 4`, on fuel; the list is the array from `z` on, so `n` is its length.
pub loop16 : ℕ → Sums → List ℕ → Sums × List ℕ
loop16 zero s xs = (s, xs)
loop16 (suc fuel) s xs =
    let rest = loop16 fuel (add_block s xs) (drop 16 xs) in
    if leb 16 (length xs) then rest else (s, xs)

pub loop4 : ℕ → Sums → List ℕ → Sums × List ℕ
loop4 zero s xs = (s, xs)
loop4 (suc fuel) s xs =
    let rest = loop4 fuel (add_quad s xs) (drop 4 xs) in if leb 4 (length xs) then rest else (s, xs)

-- The branches on the one to three bytes that are left.
pub remaining : ℕ → List ℕ → ℕ
remaining sum3 xs =
    if length xs == 3
    then mask32 (
        mask32 (mask32 (sum3 + get_or xs 2 0 * 2 ^ 8) + get_or xs 1 0 * 2 ^ 16)
        + get_or xs 0 0 * 2 ^ 24)
    else (if length xs == 2
        then mask32 (mask32 (sum3 + get_or xs 1 0 * 2 ^ 16) + get_or xs 0 0 * 2 ^ 24)
        else (if length xs == 1 then mask32 (sum3 + get_or xs 0 0 * 2 ^ 24) else sum3))

-- The four sums folded into one word.
pub fold_sums : Sums → ℕ
fold_sums s = mask32 (s.sum3 + s.sum2 * 2 ^ 8 + s.sum1 * 2 ^ 16 + s.sum0 * 2 ^ 24)

abbrev pub no_sums : Sums
no_sums = record { sum0 = 0; sum1 = 0; sum2 = 0; sum3 = 0 }

pub checksum : List ℕ → ℕ
unfolding add_block loop16 loop4 remaining fold_sums
checksum arr =
    let (s, xs) = loop16 (length arr) no_sums arr in
    let (s', ys) = loop4 (length xs) s xs in mask32 (remaining (fold_sums s') ys)

-- The state of the loop of `apply_delta`.
pub record Run : Type 0 where
  pub total : ℕ
  pub z_delta : Reader
  pub z_out : List ℕ

-- `a[start:end]`
abbrev pub slice : List ℕ → ℕ → ℕ → List ℕ
slice a start end = take (end - start) (drop start a)

-- `z_delta.have_bytes() and z_delta.get_char() != ","`, with the reader that it leaves behind.
pub copy_end : Reader → Result (Bool × Reader)
copy_end r =
    if have_bytes r then (get_char r >>= λ (c, r'). ok (not (c == b','), r')) else ok (false, r)

-- The branch of "@".
pub copy_command : List ℕ → ℕ → ℕ → Run → Result Run
copy_command source limit cnt s = do
  let (ofst, r) = get_int s.z_delta
  (bad, r') ← copy_end r
  raise_if bad copy_not_terminated
  raise_if (ltb limit (s.total + cnt)) copy_too_large
  raise_if (ltb (length source) (ofst + cnt)) copy_past_end
  ok (record {
    total = s.total + cnt;
    z_delta = r';
    z_out = s.z_out ++ slice source ofst (ofst + cnt);
  })

-- The branch of ":".
pub insert_command : ℕ → ℕ → Run → Result Run
insert_command limit cnt s = do
  let r = s.z_delta
  raise_if (ltb limit (s.total + cnt)) insert_too_large
  raise_if (ltb (length r.a - r.pos) cnt) insert_past_end
  ok (record {
    total = s.total + cnt;
    z_delta = record r { pos = r.pos + cnt };
    z_out = s.z_out ++ slice r.a r.pos (r.pos + cnt);
  })

-- The branch of ";", which returns.
pub end_command : ℕ → ℕ → Run → Result (List ℕ)
end_command limit cnt s = do
  raise_if (not (cnt == checksum s.z_out)) bad_checksum
  raise_if (not (s.total == limit)) size_mismatch
  ok s.z_out

-- The branches on the operator; `again` is the rest of the loop.
pub dispatch : (Run → Result (List ℕ)) → List ℕ → ℕ → ℕ → ℕ → Run → Result (List ℕ)
dispatch again source limit operator cnt s =
    if operator == b'@'
    then (copy_command source limit cnt s >>= again)
    else (if operator == b':'
        then (insert_command limit cnt s >>= again)
        else (if operator == b';' then end_command limit cnt s else value_error unknown_operator))

-- The body of the loop.
pub delta_round : (Run → Result (List ℕ)) → List ℕ → ℕ → Run → Result (List ℕ)
delta_round again source limit s = do
  let (cnt, r) = get_int s.z_delta
  (operator, r') ← get_char r
  dispatch again source limit operator cnt (record s { z_delta = r' })

-- `while z_delta.have_bytes()`, on fuel.
pub delta_loop : ℕ → List ℕ → ℕ → Run → Result (List ℕ)
delta_loop zero source limit s =
    if have_bytes s.z_delta then out_of_fuel else value_error unterminated
delta_loop (suc fuel) source limit s =
    let round = delta_round (delta_loop fuel source limit) source limit s in
    if have_bytes s.z_delta then round else value_error unterminated

-- Every round takes a byte of the delta at least, so its length is fuel enough.
pub apply_delta : List ℕ → List ℕ → Result (List ℕ)
apply_delta source delta = do
  let (limit, r) = get_int (record { a = delta; pos = 0 })
  (c, r') ← get_char r
  raise_if (not (c == 0x0A)) size_not_terminated
  delta_loop (length delta) source limit (record { total = 0; z_delta = r'; z_out = [] })
