-- ===== src/Fossil/Apply.antt =====
-- `apply_delta` of centrifuge/fossil.py on any input, well formed or not.
use centrifuge_python.Base.{not, ◌==◌, ℕ, ◌≡◌, List, arith, length, ◌≢◌, []}
use centrifuge_python.Fossil.{
  size_not_terminated, raise_if, apply_delta, ValueError, value_error, index_error, Reader, Run,
  Result, ok, out_of_fuel, get_int, get_char, end_command, checksum,
}
use centrifuge_python.Fossil.Loop.{
  IsGood, get_char_moves, end_command-ne-out_of_fuel, get_char-ne-out_of_fuel, WasRead, bind_rule,
  delta_loop_rule,
}

abbrev pub start : List ℕ → Reader
start delta = record { a = delta; pos = 0 }

start-IsGood :
    (delta : List ℕ) (r' : Reader) (c : ℕ)
    → get_char (get_int (start delta)).1 ≡ ok (c, r')
    → IsGood delta (record { total = 0; z_delta = r'; z_out = [] })
unfolding get_int
start-IsGood delta r' c e = ground (arith, get_char_moves (get_int (start delta)).1 r' c e)

module _ (P : Result (List ℕ) → Type 0) (raised : P index_error)
    (refused : (e : ValueError) → P (value_error e)) where
  apply_delta_rule :
      (source delta : List ℕ)
      → ((cnt : ℕ) (s : Run)
          → IsGood delta s
          → WasRead delta cnt
          → P (end_command (get_int (start delta)).0 cnt s))
      → P (apply_delta source delta)
  unfolding apply_delta
  apply_delta_rule source delta ended =
      let limit = (get_int (start delta)).0 in
      let r = (get_int (start delta)).1 in
      bind_rule P raised refused (get_char r) _ (get_char-ne-out_of_fuel r) λ (c, r') e.
        bind_rule P raised refused (raise_if (not (c == 0x0A)) size_not_terminated) _
          (λ x. ground arith)
          λ _ _.
            delta_loop_rule P raised refused source delta limit ended (length delta)
              (record { total = 0; z_delta = r'; z_out = [] }) (start-IsGood delta r' c e)
              (omega arith)

-- `apply_delta` ends on every input: its loop never runs out of rounds.
pub apply_delta-ne-out_of_fuel : (source delta : List ℕ) → apply_delta source delta ≢ out_of_fuel
apply_delta-ne-out_of_fuel source delta =
    apply_delta_rule (λ r. r ≢ out_of_fuel) (λ e. cc) (λ x e. cc) source delta
      (λ cnt s _ _. end_command-ne-out_of_fuel _ cnt s)

end_command_sound :
    (limit cnt : ℕ) (s : Run) (out : List ℕ)
    → end_command limit cnt s ≡ ok out
    → (out ≡ s.z_out) × (s.total ≡ limit) × (cnt ≡ checksum s.z_out)
unfolding end_command
end_command_sound limit cnt s out e = ground arith

-- A payload that `apply_delta` returns has the size that the delta declares first, and its checksum
-- is a number that was read from the delta.
pub apply_delta_sound :
    (source delta out : List ℕ)
    → apply_delta source delta ≡ ok out
    → (length out ≡ (get_int (start delta)).0)
      × (r : Reader) × (r.a ≡ delta)
      × ((get_int r).0 ≡ checksum out)
apply_delta_sound source delta =
    apply_delta_rule (λ res. (out : List ℕ) → res ≡ ok out → Sound out) (λ out e. cc)
      (λ x out e. cc) source delta
      λ cnt s g (r, same, count) out e.
        let (o, t, c) = end_command_sound (get_int (start delta)).0 cnt s out e in
        (ground arith, r, same, ground arith)
  where
    Sound : List ℕ → Type 0
    Sound out =
        (length out ≡ (get_int (start delta)).0)
        × (r : Reader) × (r.a ≡ delta)
        × ((get_int r).0 ≡ checksum out)
