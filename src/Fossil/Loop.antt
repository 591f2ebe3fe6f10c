-- ===== src/Fossil/Loop.antt =====
-- The rounds of `apply_delta`'s loop in centrifuge/fossil.py: one rule for what holds of every result.
use centrifuge_python.Base.{
  zero, suc, ◌-◌, Bool, true, false, not, ◌==◌, Bool-cases, inl, inr, length-take_of_le,
  length-drop, length-append, ltb, ◌∙◌, ℕ, ◌+◌, ◌≤◌, ◌<◌, ◌≡◌, refl, List, arith, length, drop, ◌≢◌,
  get_or, ==_iff, drop_of_length-le,
}
use centrifuge_python.Fossil.{
  raise_if, dispatch, delta_round, ValueError, value_error, index_error, copy_not_terminated,
  copy_too_large, copy_past_end, insert_too_large, insert_past_end, Reader, Run, Result, ok,
  out_of_fuel, get_int, get_char, have_bytes, copy_end, copy_command, insert_command, slice, ◌>>=◌,
  ◌>>◌, end_command, get_int_loop, delta_loop, unknown_operator, unterminated,
}
use centrifuge_python.Fossil.Reading.{get_int_moves}

-- The array that is read never changes, and the position stays inside it.
pub record IsGood (delta : List ℕ) (s : Run) : Type 0 where
  pub array : s.z_delta.a ≡ delta
  pub inside : s.z_delta.pos ≤ length delta
  pub counted : s.total ≡ length s.z_out

-- Inversion of a step that did not raise.
bind-eq-ok {ℓ κ} :
    {Value : Type ℓ} {Next : Type κ} (first : Result Value) (rest : Value → Result Next)
    {result : Next}
    → (first >>= rest) ≡ ok result
    → (value : Value) × (first ≡ ok value) × (rest value ≡ ok result)
bind-eq-ok index_error rest ended = cc
bind-eq-ok (value_error reason) rest ended = cc
bind-eq-ok out_of_fuel rest ended = cc
bind-eq-ok (ok value) rest ended = (value, refl, ended)

raise_if-eq-ok {ℓ} :
    {B : Type ℓ} (c : Bool) (e : ValueError) (m : Result B) {b : B}
    → (raise_if c e >> m) ≡ ok b
    → (c ≡ false) × (m ≡ ok b)
raise_if-eq-ok true e m h = cc
raise_if-eq-ok false e m h = (refl, h)

pub get_char_moves :
    (r r' : Reader) (c : ℕ)
    → get_char r ≡ ok (c, r')
    → (r'.a ≡ r.a) × (r'.pos ≡ r.pos + 1) × (r'.pos ≤ length r.a) × (get_or r.a r.pos 0 ≡ c)
unfolding get_char
get_char_moves r r' c e = ground arith

copy_end_moves :
    (r r' : Reader) (bad : Bool)
    → r.pos ≤ length r.a
    → copy_end r ≡ ok (bad, r')
    → (r'.a ≡ r.a) × (r.pos ≤ r'.pos) × (r'.pos ≤ length r.a)
unfolding copy_end
copy_end_moves r r' bad h e = elim (Bool-cases (have_bytes r)) [
  | inl more ↦
      let ((c, q), read, done) =
        bind-eq-ok (get_char r) (λ x. ok (not (x.0 == b','), x.1)) (rw more at e) in
      ground (arith, get_char_moves r q c)
  | inr last ↦ ground arith
]

pub length-slice :
    (a : List ℕ) (start count : ℕ)
    → start + count ≤ length a
    → length (slice a start (start + count)) ≡ count
length-slice a start count h =
    length-take_of_le (start + count - start) (drop start a) (omega (arith, length-drop start a))
    ∙ omega arith

-- `get_int` at the end of the array steps back onto the operator.
get_int_at_end : (r : Reader) → length r.a ≤ r.pos → (get_int r).1 ≡ record r { pos = r.pos - 1 }
unfolding get_int get_int_loop
get_int_at_end r h = rw (drop_of_length-le r.pos r.a h)

-- There the copy command finds its own "@", where it wants a comma.
copy_end_stale :
    (r : Reader)
    → r.pos < length r.a
    → get_or r.a r.pos 0 ≡ b'@'
    → copy_end r ≡ ok (true, record r { pos = r.pos + 1 })
unfolding copy_end have_bytes get_char
copy_end_stale r h e = ground arith

-- The byte before the position.
abbrev LastRead : Run → ℕ → Type 0
LastRead s c = (1 ≤ s.z_delta.pos) × (get_or s.z_delta.a (s.z_delta.pos - 1) 0 ≡ c)

stale_copy :
    (source : List ℕ) (limit cnt : ℕ) (s s' : Run)
    → s.z_delta.pos ≡ length s.z_delta.a
    → LastRead s b'@'
    → copy_command source limit cnt s ≢ ok s'
unfolding copy_command
stale_copy source limit cnt s s' p l e = ground (
  arith,
  get_int_at_end s.z_delta (omega arith),
  copy_end_stale (record s.z_delta { pos = s.z_delta.pos - 1 }) (omega arith) l.1,
)

copy_command-IsGood :
    (source delta : List ℕ) (limit cnt : ℕ) (s s' : Run)
    → IsGood delta s
    → LastRead s b'@'
    → copy_command source limit cnt s ≡ ok s'
    → IsGood delta s' × (s.z_delta.pos ≤ s'.z_delta.pos)
unfolding copy_command
copy_command-IsGood source delta limit cnt s s' g l e =
    let ofst = (get_int s.z_delta).0 in
    let r = (get_int s.z_delta).1 in
    let ((bad, r'), ended, e₁) = bind-eq-ok (copy_end r) _ e in
    let (_, e₂) = raise_if-eq-ok bad copy_not_terminated _ e₁ in
    let (_, e₃) = raise_if-eq-ok (ltb limit (s.total + cnt)) copy_too_large _ e₂ in
    let (fits, e₄) = raise_if-eq-ok (ltb (length source) (ofst + cnt)) copy_past_end _ e₃ in
    ground (
      arith,
      e₄,
      λ (p : s.z_delta.pos ≡ length s.z_delta.a). stale_copy source limit cnt s s' p l e,
      get_int_moves s.z_delta,
      copy_end_moves r r' bad,
      length-slice source ofst cnt,
      length-append s.z_out (slice source ofst (ofst + cnt)),
    )

insert_command-IsGood :
    (delta : List ℕ) (limit cnt : ℕ) (s s' : Run)
    → IsGood delta s
    → insert_command limit cnt s ≡ ok s'
    → IsGood delta s' × (s.z_delta.pos ≤ s'.z_delta.pos)
unfolding insert_command
insert_command-IsGood delta limit cnt s s' g e =
    let r = s.z_delta in
    let (_, e₁) = raise_if-eq-ok (ltb limit (s.total + cnt)) insert_too_large _ e in
    let (fits, e₂) = raise_if-eq-ok (ltb (length r.a - r.pos) cnt) insert_past_end _ e₁ in
    ground
      (arith, e₂, length-slice r.a r.pos cnt, length-append s.z_out (slice r.a r.pos (r.pos + cnt)))

copy_end-ne-out_of_fuel : (r : Reader) → copy_end r ≢ out_of_fuel
unfolding copy_end get_char
copy_end-ne-out_of_fuel r e = ground arith

copy_command-ne-out_of_fuel :
    (source : List ℕ) (limit cnt : ℕ) (s : Run) → copy_command source limit cnt s ≢ out_of_fuel
unfolding copy_command
copy_command-ne-out_of_fuel source limit cnt s e =
    ground (arith, copy_end-ne-out_of_fuel (get_int s.z_delta).1)

insert_command-ne-out_of_fuel : (limit cnt : ℕ) (s : Run) → insert_command limit cnt s ≢ out_of_fuel
unfolding insert_command
insert_command-ne-out_of_fuel limit cnt s e = ground arith

pub end_command-ne-out_of_fuel : (limit cnt : ℕ) (s : Run) → end_command limit cnt s ≢ out_of_fuel
unfolding end_command
end_command-ne-out_of_fuel limit cnt s e = ground arith

pub get_char-ne-out_of_fuel : (r : Reader) → get_char r ≢ out_of_fuel
unfolding get_char
get_char-ne-out_of_fuel r e = ground arith

-- The count of a command was read from the delta.
abbrev pub WasRead : List ℕ → ℕ → Type 0
WasRead delta cnt = (r : Reader) × (r.a ≡ delta) × ((get_int r).0 ≡ cnt)

-- One rule for the loop: what holds of every exception and of every ";" holds of its result.
module _ (P : Result (List ℕ) → Type 0) (raised : P index_error)
    (refused : (e : ValueError) → P (value_error e)) where
  pub bind_rule :
      {A : Type 0} (m : Result A) (f : A → Result (List ℕ))
      → m ≢ out_of_fuel
      → ((a : A) → m ≡ ok a → P (f a))
      → P (m >>= f)
  bind_rule (ok a) f h k = k a refl
  bind_rule index_error f h k = raised
  bind_rule (value_error x) f h k = refused x
  bind_rule out_of_fuel f h k = absurd (h refl)

  module _ (source delta : List ℕ) (limit : ℕ)
      (ended : (cnt : ℕ) (s : Run)
        → IsGood delta s
        → WasRead delta cnt
        → P (end_command limit cnt s)) where
    dispatch_rule :
        (again : Run → Result (List ℕ)) (operator cnt : ℕ) (s : Run)
        → IsGood delta s
        → WasRead delta cnt
        → LastRead s operator
        → ((s' : Run) → IsGood delta s' → s.z_delta.pos ≤ s'.z_delta.pos → P (again s'))
        → P (dispatch again source limit operator cnt s)
    unfolding dispatch
    dispatch_rule again operator cnt s g w l next = elim (Bool-cases (operator == b'@')) [
      | inl copy ↦ rw copy (
          bind_rule (copy_command source limit cnt s) again
            (copy_command-ne-out_of_fuel source limit cnt s)
            λ s' e.
              let (g', p) =
                copy_command-IsGood source delta limit cnt s s' g
                  (l.0, l.1 ∙ (==_iff operator b'@').0 copy) e in
              next s' g' p)
      | inr other ↦ elim (Bool-cases (operator == b':')) [
        | inl insert ↦
            rw (other, insert)
              (bind_rule (insert_command limit cnt s) again
                (insert_command-ne-out_of_fuel limit cnt s)
                λ s' e.
                  let (g', p) = insert_command-IsGood delta limit cnt s s' g e in next s' g' p)
        | inr other₂ ↦ elim (Bool-cases (operator == b';')) [
          | inl end ↦ rw (other, other₂, end) (ended cnt s g w)
          | inr unknown ↦ rw (other, other₂, unknown) (refused unknown_operator)
        ]
      ]
    ]

    delta_round_rule :
        (again : Run → Result (List ℕ)) (s : Run)
        → IsGood delta s
        → s.z_delta.pos < length delta
        → ((s' : Run) → IsGood delta s' → s.z_delta.pos < s'.z_delta.pos → P (again s'))
        → P (delta_round again source limit s)
    unfolding delta_round
    delta_round_rule again s g p next =
        let (cnt, r) = get_int s.z_delta in
        let moved = get_int_moves s.z_delta (ground arith) in
        bind_rule (get_char r) _ (get_char-ne-out_of_fuel r) λ (operator, r') e.
          let read = get_char_moves r r' operator e in
          dispatch_rule again operator cnt (record s { z_delta = r' }) (ground arith)
            (s.z_delta, g.array, refl) (ground arith) λ s' g' le. next s' g' (ground arith)

    pub delta_loop_rule :
        (fuel : ℕ) (s : Run)
        → IsGood delta s
        → length delta - s.z_delta.pos ≤ fuel
        → P (delta_loop fuel source limit s)
    unfolding delta_loop have_bytes
    delta_loop_rule zero s g le =
        let empty : have_bytes s.z_delta ≡ false = ground arith in rw empty (refused unterminated)
    delta_loop_rule (suc fuel) s g le = elim (Bool-cases (have_bytes s.z_delta)) [
      | inl more ↦ rw more (
          delta_round_rule (delta_loop fuel source limit) s g (ground arith)
            (λ s' g' lt. delta_loop_rule fuel s' g' (omega arith)))
      | inr done ↦ rw done (refused unterminated)
    ]
