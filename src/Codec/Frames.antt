-- ===== src/Codec/Frames.antt =====
-- The Protobuf framing of centrifuge/codecs.py: `encode_commands` and `decode_replies`.
use Prim.Native.Nat.{bit_and, bit_or}
use centrifuge_python.Base.{
  ◌*◌, ◌^◌, false, pair_eq, ℕ, zero, suc, ◌+◌, ◌-◌, ◌≤◌, ◌<◌, ◌≡◌, refl, sym, ap, ◌≢◌, inl, inr,
  Option, some, List, [], ◌∷◌, ◌++◌, map, arith, ltb, length, drop, drop-append, take-append,
  length-append, Option-cases,
}
use centrifuge_python.Codec.{
  varint_encode, varint_decode, varint_decode_loop, protobuf_encode_commands,
  protobuf_decode_replies, decode_reply, decode_replies_loop, decoded, stuck,
}
use centrifuge_python.Codec.Varint.{varint_decode-encode, varint_encode_some}
use mathlib.Core.List.{append_assoc, append-nil}

drop_at {ℓ} : {A : Type ℓ} (n : ℕ) (xs ys : List A) → n ≡ length xs → drop n (xs ++ ys) ≡ ys
drop_at n xs ys e = rw e (drop-append xs ys)

module _ {Message Reply : Type 0} (serialize : Message → List ℕ) (parse : List ℕ → Option Reply)
    (reply_of : Message → Reply)
    (parsed : (c : Message) → parse (serialize c) ≡ some (reply_of c)) where
  frame : Message → List ℕ
  frame c = varint_encode (length (serialize c)) ++ serialize c

  decode_reply-frame :
      (c : Message) (before rest : List ℕ)
      → decode_reply parse (before ++ (frame c ++ rest)) (length before)
        ≡ some (reply_of c, length (before ++ frame c))
  unfolding decode_reply frame
  decode_reply-frame c before rest =
      let ser = serialize c in
      let head = varint_encode (length ser) in
      let start' = length before + length head in
      let dropped : drop start' (before ++ (head ++ (ser ++ rest))) ≡ ser ++ rest =
        rw (← append_assoc before head (ser ++ rest)) (
          drop_at start' (before ++ head) (ser ++ rest)
            (omega (arith, length-append before head))) in
      let count : start' + length ser - start' ≡ length ser = omega arith in
      rw
        (
          append_assoc head ser rest,
          varint_decode-encode (length ser) before (ser ++ rest),
          dropped,
          count,
          take-append ser rest,
          parsed c,
        )
        (ap some (
          pair_eq refl (omega (arith, length-append before (head ++ ser), length-append head ser))))

  loop_done :
      (fuel : ℕ) (data' : List ℕ) (position : ℕ)
      → ltb position (length data') ≡ false
      → decode_replies_loop parse fuel data' position ≡ decoded []
  unfolding decode_replies_loop
  loop_done zero data' position h = rw h
  loop_done (suc fuel) data' position h = rw h

  loop_more :
      (fuel : ℕ) (data' : List ℕ) (position next : ℕ) (reply : Reply) (replies : List Reply)
      → position < length data'
      → decode_reply parse data' position ≡ some (reply, next)
      → decode_replies_loop parse fuel data' next ≡ decoded replies
      → decode_replies_loop parse (suc fuel) data' position ≡ decoded (reply ∷ replies)
  unfolding decode_replies_loop
  loop_more fuel data' position next reply replies h e rest = ground arith

  encode_frame :
      (c : Message) (commands : List Message)
      → protobuf_encode_commands serialize (c ∷ commands)
        ≡ frame c ++ protobuf_encode_commands serialize commands
  unfolding protobuf_encode_commands frame
  encode_frame c commands = sym (append_assoc _ (serialize c) _)

  length-frame : (c : Message) → 1 ≤ length (frame c)
  unfolding frame
  length-frame c = omega (
    arith,
    length-append (varint_encode (length (serialize c))) (serialize c),
    varint_encode_some (length (serialize c)),
  )

  decode_replies_loop-frames :
      (commands : List Message) (fuel : ℕ) (before : List ℕ)
      → length (protobuf_encode_commands serialize commands) ≤ fuel
      → decode_replies_loop parse fuel
          (before ++ protobuf_encode_commands serialize commands)
          (length before)
        ≡ decoded (map reply_of commands)
  decode_replies_loop-frames [] fuel before h =
      unfold protobuf_encode_commands in
      rw append-nil (loop_done fuel before (length before) (ground arith))
  decode_replies_loop-frames (c ∷ commands) zero before h = absurd (
      omega (
        arith,
        ap length (encode_frame c commands),
        length-append (frame c) (protobuf_encode_commands serialize commands),
        length-frame c,
      ))
  decode_replies_loop-frames (c ∷ commands) (suc fuel) before h =
      let rest = protobuf_encode_commands serialize commands in
      let size = length-append (frame c) rest in
      let first = length-frame c in
      let whole = ap length (encode_frame c commands) in
      rw (encode_frame c commands) (
        loop_more fuel (before ++ (frame c ++ rest)) (length before) (length (before ++ frame c))
          (reply_of c) (map reply_of commands)
          (omega (arith, length-append before (frame c ++ rest))) (decode_reply-frame c before rest)
          (rw (← append_assoc before (frame c) rest)
            (decode_replies_loop-frames commands fuel (before ++ frame c) (omega arith))))

  -- The replies that `decode_replies` returns for a message that `encode_commands` framed are those
  -- parsed from the serialized commands, in order, if every serialized command parses.
  pub protobuf_decode-encode :
      (commands : List Message)
      → protobuf_decode_replies parse (protobuf_encode_commands serialize commands)
        ≡ decoded (map reply_of commands)
  unfolding protobuf_decode_replies
  protobuf_decode-encode commands = decode_replies_loop-frames commands _ [] (omega arith)

varint_decode_loop_moves :
    (bytes : List ℕ) (result shift position value next : ℕ)
    → varint_decode_loop bytes result shift position ≡ some (value, next)
    → position < next
unfolding varint_decode_loop
varint_decode_loop_moves [] result shift position value next e = cc
varint_decode_loop_moves (byte ∷ bytes) result shift position value next e = ground (
  arith,
  varint_decode_loop_moves bytes (bit_or result (bit_and byte 0x7F * 2 ^ shift)) (shift + 7)
      (position + 1) value next,
)

module _ {Reply : Type 0} (parse : List ℕ → Option Reply) (data' : List ℕ) where
  decode_reply_moves :
      (position next : ℕ) (reply : Reply)
      → decode_reply parse data' position ≡ some (reply, next)
      → position < next
  unfolding decode_reply varint_decode
  decode_reply_moves position next reply e = elim (Option-cases (varint_decode data' position)) [
    | inl bad ↦ ground arith
    | inr ((size, start'), read) ↦
        let moved = varint_decode_loop_moves (drop position data') 0 0 position size start' read in
        ground arith
  ]

  decode_replies_loop-ne-stuck :
      (fuel position : ℕ)
      → length data' - position ≤ fuel
      → decode_replies_loop parse fuel data' position ≢ stuck
  unfolding decode_replies_loop
  decode_replies_loop-ne-stuck zero position h e = ground arith
  decode_replies_loop-ne-stuck (suc fuel) position h e =
      elim (Option-cases (decode_reply parse data' position)) [
        | inl bad ↦ ground arith
        | inr ((reply, next), read) ↦ ground (
          arith,
          decode_reply_moves position next reply read,
          decode_replies_loop-ne-stuck fuel next,
        )
      ]

  -- `decode_replies` ends on every message, well formed or not.
  pub protobuf_decode_replies-ne-stuck : protobuf_decode_replies parse data' ≢ stuck
  unfolding protobuf_decode_replies
  protobuf_decode_replies-ne-stuck = decode_replies_loop-ne-stuck (length data') 0 (omega arith)
