-- ===== src/Codec/Runs.antt =====
-- Runs of the codecs, and the theorems at concrete inputs.
use centrifuge_python.Base.{
  ℕ, ◌≡◌, refl, ◌≢◌, ◌+◌, Option, some, none, List, [], ◌∷◌, ◌++◌, map, arith, length, lt_wf,
}
use centrifuge_python.Codec.{
  varint_encode, varint_encode_loop, varint_decode, varint_decode_loop, protobuf_encode_commands,
  protobuf_decode_replies, decoded, stuck, json_encode_commands, json_decode_replies, is_space,
}
use centrifuge_python.Codec.Varint.{varint_decode-encode}
use centrifuge_python.Codec.Frames.{protobuf_decode-encode, protobuf_decode_replies-ne-stuck}
use centrifuge_python.Codec.Lines.{IsLine, json_decode-encode}
use centrifuge_python.Codec.Payloads.{
  Update, whole, difference, sent_all, payloads, receive_all, receive_all-sent_all, AllSendable,
  payload,
}
use centrifuge_python.Fossil.RoundTrip.{copy, insert, target, piece}
use native.Mathlib.Decide.{dec_lt}

varint_300 : varint_encode 300 ≡ 0xAC ∷ 0x02 ∷ []
unfolding varint_encode varint_encode_loop lt_wf dec_lt
varint_300 = refl

varint_cut : varint_decode (0xAC ∷ []) 0 ≡ none
unfolding varint_decode varint_decode_loop
varint_cut = refl

varint_decode-encode_example :
    varint_decode (7 ∷ (varint_encode 300 ++ (9 ∷ []))) 1
    ≡ some (300, 1 + length (varint_encode 300))
varint_decode-encode_example = varint_decode-encode 300 (7 ∷ []) (9 ∷ [])

-- A serializer that writes the bytes themselves.
same : List ℕ → List ℕ
same m = m

parse_same : List ℕ → Option (List ℕ)
parse_same m = some m

parsed_same : (m : List ℕ) → parse_same (same m) ≡ some (same m)
unfolding same parse_same
parsed_same m = refl

protobuf_decode-encode_example :
    protobuf_decode_replies parse_same (protobuf_encode_commands same ((1 ∷ 2 ∷ []) ∷ [] ∷ []))
    ≡ decoded (map same ((1 ∷ 2 ∷ []) ∷ [] ∷ []))
protobuf_decode-encode_example =
    protobuf_decode-encode same parse_same same parsed_same ((1 ∷ 2 ∷ []) ∷ [] ∷ [])

protobuf_decode_replies-ne-stuck_example :
    protobuf_decode_replies parse_same (0xFF ∷ 1 ∷ []) ≢ stuck
protobuf_decode_replies-ne-stuck_example =
    protobuf_decode_replies-ne-stuck parse_same (0xFF ∷ 1 ∷ [])

-- `{}` as a line for every message.
braces : ℕ → List ℕ
braces n = 0x7B ∷ 0x7D ∷ []

load_braces : List ℕ → Option ℕ
load_braces line = some 0

zero_of : ℕ → ℕ
zero_of n = 0

braces-loaded : (n : ℕ) → load_braces (braces n) ≡ some (zero_of n)
unfolding load_braces zero_of
braces-loaded n = refl

braces-IsLine : (n : ℕ) → IsLine (braces n)
unfolding braces is_space
braces-IsLine n = record {
  first = 0x7B;
  others = 0x7D ∷ [];
  begins = refl;
  first_black = refl;
  front = 0x7B ∷ [];
  last = 0x7D;
  ends = refl;
  last_black = refl;
  one_line = omega arith;
}

json_decode-encode_example :
    json_decode_replies load_braces (json_encode_commands braces (1 ∷ 2 ∷ []))
    ≡ some (map zero_of (1 ∷ 2 ∷ []))
json_decode-encode_example =
    json_decode-encode braces load_braces zero_of braces-loaded braces-IsLine 1 (2 ∷ [])

abbrev updates : List Update
updates =
    difference (copy 2 0 ∷ insert (9 ∷ []) ∷ [])
    ∷ whole (5 ∷ 6 ∷ [])
    ∷ difference (copy 1 1 ∷ [])
    ∷ []

receive_all-sent_all_example :
    receive_all (some (1 ∷ 2 ∷ [])) (sent_all (1 ∷ 2 ∷ []) updates)
    ≡ some (payloads (1 ∷ 2 ∷ []) updates)
unfolding AllSendable payload target piece
receive_all-sent_all_example = receive_all-sent_all (1 ∷ 2 ∷ []) updates (omega arith) (omega arith)
