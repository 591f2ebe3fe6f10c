-- ===== src/Fossil/RoundTrip.antt =====
-- Deltas as a writer makes them, and what `apply_delta` of centrifuge/fossil.py answers.
use mathlib.Core.List.{append-nil, append_assoc}
use centrifuge_python.Base.{
  zero, suc, drop, ◌<◌, take-append, drop-append, ℕ, ◌+◌, ◌-◌, ◌^◌, ◌≤◌, ◌≡◌, refl, List, [], ◌∷◌,
  ◌++◌, arith, length, length-append, none, All, ◌∙◌, ap, sym,
}
use centrifuge_python.Fossil.{
  Run, Result, ok, checksum, copy_end, copy_command, insert_command, dispatch, delta_round, slice,
  z_digit, end_command, delta_loop, apply_delta,
}
use centrifuge_python.Fossil.Reading.{
  Reads, reader_at, Reads-drop, Reads-next, get_char_at, have_bytes_at,
}
use centrifuge_python.Fossil.Loop.{length-slice}
use centrifuge_python.Fossil.Render.{put_int, get_int-put_int, put_int-lt}

-- What a delta is made of: bytes of the source, and bytes of its own.
pub data Command : Type 0 where
  copy : ℕ → ℕ → Command
  insert : List ℕ → Command

-- A command in front of what follows it.
pub write : Command → List ℕ → List ℕ
write (copy cnt ofst) rest = put_int cnt (b'@' ∷ put_int ofst (b',' ∷ rest))
write (insert bytes) rest = put_int (length bytes) (b':' ∷ (bytes ++ rest))

pub write_all : List Command → List ℕ → List ℕ
write_all [] rest = rest
write_all (c ∷ cs) rest = write c (write_all cs rest)

-- The bytes that a command stands for, and those of all.
unfoldable pub piece : List ℕ → Command → List ℕ
piece source (copy cnt ofst) = slice source ofst (ofst + cnt)
piece source (insert bytes) = bytes

unfoldable pub target : List ℕ → List Command → List ℕ
target source [] = []
target source (c ∷ cs) = piece source c ++ target source cs

abbrev pub Fits : List ℕ → Command → Type 0
Fits source (copy cnt ofst) = ofst + cnt ≤ length source
Fits source (insert bytes) = Unit

-- A whole delta, and bytes behind it.
pub render : List ℕ → List Command → List ℕ → List ℕ
render source cs trailer =
    let out = target source cs in
    put_int (length out) (0x0A ∷ write_all cs (put_int (checksum out) (b';' ∷ trailer)))

z_digit_copy : z_digit b'@' ≡ none
unfolding z_digit
z_digit_copy = refl

z_digit_comma : z_digit b',' ≡ none
unfolding z_digit
z_digit_comma = refl

z_digit_insert : z_digit b':' ≡ none
unfolding z_digit
z_digit_insert = refl

z_digit_end : z_digit b';' ≡ none
unfolding z_digit
z_digit_end = refl

z_digit_newline : z_digit 0x0A ≡ none
unfolding z_digit
z_digit_newline = refl

abbrev run_at : List ℕ → ℕ → List ℕ → Run
run_at a pos out = record { total = length out; z_delta = reader_at a pos; z_out = out }

copy_command_written :
    (source a out rest : List ℕ) (limit cnt ofst pos : ℕ)
    → ofst < 2 ^ 32
    → length out + cnt ≤ limit
    → ofst + cnt ≤ length source
    → Reads a (put_int ofst (b',' ∷ rest)) pos
    → (q : ℕ) × (copy_command source limit cnt (run_at a pos out)
        ≡ ok (record {
          total = length out + cnt;
          z_delta = reader_at a q;
          z_out = out ++ slice source ofst (ofst + cnt);
        }))
      × Reads a rest q
unfolding copy_command copy_end
copy_command_written source a out rest limit cnt ofst pos h room fits r =
    let (q, e, r') = get_int-put_int ofst b',' rest a pos h z_digit_comma r in
    (
      q + 1,
      ground (arith, e, have_bytes_at a (b',' ∷ rest) q r', get_char_at a rest q b',' r'),
      Reads-next a rest q b',' r',
    )

slice-append :
    (a bytes rest : List ℕ) (pos : ℕ)
    → drop pos a ≡ bytes ++ rest
    → slice a pos (pos + length bytes) ≡ bytes
slice-append a bytes rest pos e =
    let n : pos + length bytes - pos ≡ length bytes = omega arith in
    rw (n, e) (take-append bytes rest)

insert_command_written :
    (a out bytes rest : List ℕ) (limit pos : ℕ)
    → length out + length bytes ≤ limit
    → Reads a (bytes ++ rest) pos
    → (insert_command limit (length bytes) (run_at a pos out)
        ≡ ok (record {
          total = length out + length bytes;
          z_delta = reader_at a (pos + length bytes);
          z_out = out ++ bytes;
        }))
      × Reads a rest (pos + length bytes)
unfolding insert_command
insert_command_written a out bytes rest limit pos room r = (
  ground (arith, length-append bytes rest, slice-append a bytes rest pos r.rest, r.inside),
  rw drop-append at
      (Reads-drop a (bytes ++ rest) pos (length bytes) r (omega (arith, length-append bytes rest))),
)

module _ (source a : List ℕ) (limit : ℕ) (again : Run → Result (List ℕ)) where
  copy_round :
      (out rest : List ℕ) (cnt ofst pos : ℕ)
      → cnt < 2 ^ 32
      → ofst < 2 ^ 32
      → length out + cnt ≤ limit
      → ofst + cnt ≤ length source
      → Reads a (write (copy cnt ofst) rest) pos
      → (q : ℕ) × (delta_round again source limit (run_at a pos out)
          ≡ again (run_at a q (out ++ piece source (copy cnt ofst))))
        × Reads a rest q
  unfolding delta_round dispatch write piece
  copy_round out rest cnt ofst pos hc ho room fits r =
      let more = put_int ofst (b',' ∷ rest) in
      let (p, e, r₁) = get_int-put_int cnt b'@' more a pos hc z_digit_copy r in
      let r₂ = Reads-next a more p b'@' r₁ in
      let (q, c, r₃) =
        copy_command_written source a out rest limit cnt ofst (p + 1) ho room fits r₂ in
      (
        q,
        ground (
          arith,
          e,
          get_char_at a more p b'@' r₁,
          c,
          length-slice source ofst cnt,
          length-append out (slice source ofst (ofst + cnt)),
        ),
        r₃,
      )

  insert_round :
      (out bytes rest : List ℕ) (pos : ℕ)
      → length bytes < 2 ^ 32
      → length out + length bytes ≤ limit
      → Reads a (write (insert bytes) rest) pos
      → (q : ℕ) × (delta_round again source limit (run_at a pos out)
          ≡ again (run_at a q (out ++ bytes)))
        × Reads a rest q
  unfolding delta_round dispatch write
  insert_round out bytes rest pos hb room r =
      let more = bytes ++ rest in
      let (p, e, r₁) = get_int-put_int (length bytes) b':' more a pos hb z_digit_insert r in
      let r₂ = Reads-next a more p b':' r₁ in
      let (c, r₃) = insert_command_written a out bytes rest limit (p + 1) room r₂ in
      (
        p + 1 + length bytes,
        ground (arith, e, get_char_at a more p b':' r₁, c, length-append out bytes),
        r₃,
      )

  command_round :
      (out rest : List ℕ) (c : Command) (pos : ℕ)
      → length source < 2 ^ 32
      → limit < 2 ^ 32
      → length out + length (piece source c) ≤ limit
      → Fits source c
      → Reads a (write c rest) pos
      → (q : ℕ) × (delta_round again source limit (run_at a pos out)
          ≡ again (run_at a q (out ++ piece source c)))
        × Reads a rest q
  unfolding piece
  command_round out rest (copy cnt ofst) pos hs hl room fits r =
      let n = length-slice source ofst cnt fits in
      copy_round out rest cnt ofst pos (omega arith) (omega arith) (omega arith) fits r
  command_round out rest (insert bytes) pos hs hl room fits r =
      insert_round out bytes rest pos (omega arith) room r

  end_round :
      (out trailer : List ℕ) (pos : ℕ)
      → checksum out < 2 ^ 32
      → length out ≡ limit
      → Reads a (put_int (checksum out) (b';' ∷ trailer)) pos
      → delta_round again source limit (run_at a pos out) ≡ ok out
  unfolding delta_round dispatch end_command
  end_round out trailer pos h whole r =
      let (p, e, r₁) = get_int-put_int (checksum out) b';' trailer a pos h z_digit_end r in
      ground (arith, e, get_char_at a trailer p b';' r₁)

write-lt : (c : Command) (rest : List ℕ) → length rest < length (write c rest)
unfolding write
write-lt (copy cnt ofst) rest =
    omega (arith, put_int-lt cnt (b'@' ∷ put_int ofst (b',' ∷ rest)), put_int-lt ofst (b',' ∷ rest))
write-lt (insert bytes) rest =
    omega (arith, put_int-lt (length bytes) (b':' ∷ (bytes ++ rest)), length-append bytes rest)

checksum-lt : (arr : List ℕ) → checksum arr < 2 ^ 32
unfolding checksum
checksum-lt arr = omega arith

loop_round :
    (fuel : ℕ) (source a xs out : List ℕ) (limit pos : ℕ)
    → Reads a xs pos
    → 0 < length xs
    → delta_loop (suc fuel) source limit (run_at a pos out)
      ≡ delta_round (delta_loop fuel source limit) source limit (run_at a pos out)
unfolding delta_loop
loop_round fuel source a xs out limit pos r more = rw (have_bytes_at a xs pos r more)

delta_loop-written :
    (cs : List Command) (fuel : ℕ) (source a out trailer : List ℕ) (limit pos : ℕ)
    → length source < 2 ^ 32
    → limit < 2 ^ 32
    → length out + length (target source cs) ≡ limit
    → All (Fits source) cs
    → (sum : ℕ) → sum ≡ checksum (out ++ target source cs)
    → Reads a (write_all cs (put_int sum (b';' ∷ trailer))) pos
    → length (write_all cs (put_int sum (b';' ∷ trailer))) ≤ fuel
    → delta_loop fuel source limit (run_at a pos out) ≡ ok (out ++ target source cs)
unfolding write_all target
delta_loop-written [] zero source a out trailer limit pos hs hl size fits sum e r le =
    absurd (omega (arith, put_int-lt sum (b';' ∷ trailer)))
delta_loop-written (c ∷ cs) zero source a out trailer limit pos hs hl size fits sum e r le =
    absurd (omega (arith, write-lt c (write_all cs (put_int sum (b';' ∷ trailer)))))
delta_loop-written [] (suc fuel) source a out trailer limit pos hs hl size fits sum e r le =
    let same : out ++ [] ≡ out = append-nil out in
    let sum_out : sum ≡ checksum out = rw same at e in
    loop_round fuel source a _ out limit pos r (omega (arith, put_int-lt sum (b';' ∷ trailer)))
    ∙ end_round source a limit (delta_loop fuel source limit) out trailer pos (checksum-lt out)
        (omega arith) (rw sum_out at r)
    ∙ ap ok (sym same)
delta_loop-written (c ∷ cs) (suc fuel) source a out trailer limit pos hs hl size fits sum e r le =
    let rest = write_all cs (put_int sum (b';' ∷ trailer)) in
    let shorter = write-lt c rest in
    let joined = append_assoc out (piece source c) (target source cs) in
    let whole = length-append (piece source c) (target source cs) in
    let (q, round, r') =
      command_round source a limit (delta_loop fuel source limit) out rest c pos hs hl (omega arith)
        fits.0 r in
    loop_round fuel source a (write c rest) out limit pos r (omega arith)
    ∙ round
    ∙ delta_loop-written cs fuel source a (out ++ piece source c) trailer limit q hs hl
        (omega (arith, length-append out (piece source c))) fits.1 sum
        (e ∙ ap checksum (sym joined)) r' (omega arith)
    ∙ ap ok joined

-- A delta that is written for a list of commands, each of which copies inside the source, is applied
-- to the bytes that the commands stand for, whatever follows its ";": for sources and targets below
-- 2^32 bytes.
pub apply_delta-render :
    (source : List ℕ) (cs : List Command) (trailer : List ℕ)
    → length source < 2 ^ 32
    → length (target source cs) < 2 ^ 32
    → All (Fits source) cs
    → apply_delta source (render source cs trailer) ≡ ok (target source cs)
unfolding apply_delta render
apply_delta-render source cs trailer hs ht fits =
    let out = target source cs in
    let rest = write_all cs (put_int (checksum out) (b';' ∷ trailer)) in
    let delta = put_int (length out) (0x0A ∷ rest) in
    let (p, e, r) =
      get_int-put_int (length out) 0x0A rest delta 0 ht z_digit_newline
        (record { rest = refl; inside = omega arith }) in
    let read = get_char_at delta rest p 0x0A r in
    rw (e, read)
      (delta_loop-written cs (length delta) source delta [] trailer (length out) (p + 1) hs ht
        (omega arith) fits (checksum out) refl (Reads-next delta rest p 0x0A r)
        (omega (arith, put_int-lt (length out) (0x0A ∷ rest))))
