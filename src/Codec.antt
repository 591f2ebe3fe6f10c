-- ===== src/Codec.antt =====
-- centrifuge/codecs.py: varints, the framing of Protobuf messages, the lines of JSON messages and the
-- payloads of delta publications. Bytes and characters are numbers; `none` stands for an exception.
-- The Protobuf and JSON libraries are parameters: `serialize` is `ParseDict` with
-- `SerializeToString`, `parse` is `ParseFromString` with `MessageToDict`.
pub mod Varint
pub mod Frames
pub mod Lines
pub mod Payloads
mod Runs
use Prim.Native.Nat.{bit_and, bit_or}
use centrifuge_python.Base.{
  map, ◌||◌, ◌&&◌, Bool, leb, ℕ, zero, suc, ◌+◌, ◌-◌, ◌*◌, ◌/◌, ◌%◌, ◌^◌, ◌<◌, true, false, not,
  Option, none, some, List, [], ◌∷◌, ◌++◌, arith, ltb, ◌==◌, if◌then◌else◌, length, take, drop,
  lt_wf,
}
use centrifuge_python.Fossil
use centrifuge_python.Fossil.{apply_delta}
use mathlib.Core.Logic.{dite}
use mathlib.Core.WellFounded.{Acc}
use mathlib.Core.List.{reverse}
use native.Mathlib.Decide.{dec_lt}

infixl 5 ◌>>=◌
abbrev pub ◌>>=◌ {ℓ κ} : {A : Type ℓ} {B : Type κ} → Option A → (A → Option B) → Option B
none >>= f = none
some a >>= f = f a

shift_shrinks : (number : ℕ) → 0 < number / 2 ^ 7 → number / 2 ^ 7 < number
shift_shrinks number h = omega arith

-- The loop of `_varint_encode`: `number >>= 7` is a division, and goes on while it is not 0.
pub varint_encode_loop : (number : ℕ) → List ℕ → Acc ◌<◌ number → List ℕ
varint_encode_loop number buffer (Acc.intro _ smaller) =
    let towrite = bit_and number 0x7F in
    dite (dec_lt 0 (number / 2 ^ 7))
      (λ more.
        varint_encode_loop (number / 2 ^ 7) (buffer ++ (bit_or towrite 0x80 ∷ []))
          (smaller _ (shift_shrinks number more)))
      (λ _. buffer ++ (towrite ∷ []))

pub varint_encode : ℕ → List ℕ
varint_encode number = varint_encode_loop number [] (lt_wf.apply number)

-- The loop of `_varint_decode` over what lies from `position` on.
pub varint_decode_loop : List ℕ → ℕ → ℕ → ℕ → Option (ℕ × ℕ)
varint_decode_loop [] result shift position = none
varint_decode_loop (byte ∷ rest) result shift position =
    let result' = bit_or result (bit_and byte 0x7F * 2 ^ shift) in
    let more = varint_decode_loop rest result' (shift + 7) (position + 1) in
    if bit_and byte 0x80 == 0 then some (result', position + 1) else more

pub varint_decode : List ℕ → ℕ → Option (ℕ × ℕ)
varint_decode buffer position = varint_decode_loop (drop position buffer) 0 0 position

module _ {Message : Type 0} (serialize : Message → List ℕ) where
  -- `_ProtobufCodec.encode_commands`
  pub protobuf_encode_commands : List Message → List ℕ
  protobuf_encode_commands [] = []
  protobuf_encode_commands (command ∷ commands) =
      let serialized = serialize command in
      varint_encode (length serialized) ++ (serialized ++ protobuf_encode_commands commands)

-- What the loop of `decode_replies` may end in: `stuck` is no Python value, the fuel ran out.
pub data Decoded (A : Type 0) : Type 0 where
  decoded : A → Decoded A
  raised : Decoded A
  stuck : Decoded A

module _ {Reply : Type 0} (parse : List ℕ → Option Reply) where
  -- One round of `while position < len(data)`: the reply and the next position.
  pub decode_reply : List ℕ → ℕ → Option (Reply × ℕ)
  decode_reply data' position = do
    (message_length, start) ← varint_decode data' position
    let message_end = start + message_length
    reply ← parse (take (message_end - start) (drop start data'))
    some (reply, message_end)

  abbrev continue : Option (Reply × ℕ) → (ℕ → Decoded (List Reply)) → Decoded (List Reply)
  continue none rest = raised
  continue (some (reply, position)) rest = elim (rest position) [
    | decoded replies ↦ decoded (reply ∷ replies)
    | raised ↦ raised
    | stuck ↦ stuck
  ]

  pub decode_replies_loop : ℕ → List ℕ → ℕ → Decoded (List Reply)
  decode_replies_loop zero data' position =
      if ltb position (length data') then stuck else decoded []
  decode_replies_loop (suc fuel) data' position =
      let round = continue (decode_reply data' position) (decode_replies_loop fuel data') in
      if ltb position (length data') then round else decoded []

  -- `_ProtobufCodec.decode_replies`; every round takes a byte at least.
  pub protobuf_decode_replies : List ℕ → Decoded (List Reply)
  protobuf_decode_replies data' = decode_replies_loop (length data') data' 0

-- Python's white space, which `str.strip` removes.
pub is_space : ℕ → Bool
is_space c =
    (leb 9 c && leb c 13)
    || ((leb 28 c && leb c 32)
        || (c == 0x85
            || (c == 0xA0
                || (c == 0x1680
                    || ((leb 0x2000 c && leb c 0x200A)
                        || (c == 0x2028
                            || (c == 0x2029 || (c == 0x202F || (c == 0x205F || c == 0x3000)))))))))

pub lstrip : List ℕ → List ℕ
lstrip [] = []
lstrip (c ∷ cs) = if is_space c then lstrip cs else c ∷ cs

pub strip : List ℕ → List ℕ
strip s = reverse (lstrip (reverse (lstrip s)))

-- `str.split("\n")`: never empty.
pub split : List ℕ → List ℕ × List (List ℕ)
split [] = ([], [])
split (c ∷ cs) =
    let (line, lines) = split cs in if c == 0x0A then ([], line ∷ lines) else (c ∷ line, lines)

-- `"\n".join`
pub join : List (List ℕ) → List ℕ
join [] = []
join (line ∷ []) = line
join (line ∷ next ∷ lines) = line ++ (0x0A ∷ join (next ∷ lines))

module _ {Message : Type 0} (dumps : Message → List ℕ) where
  -- `_JsonCodec.encode_commands`
  pub json_encode_commands : List Message → List ℕ
  json_encode_commands commands = join (map dumps commands)

module _ {Reply : Type 0} (loads : List ℕ → Option Reply) where
  pub load_all : List (List ℕ) → Option (List Reply)
  load_all [] = some []
  load_all (line ∷ lines) = do reply ← loads line; replies ← load_all lines; some (reply ∷ replies)

  -- `_JsonCodec.decode_replies`
  pub json_decode_replies : List ℕ → Option (List Reply)
  json_decode_replies data' = let (line, lines) = split (strip data') in load_all (line ∷ lines)

-- `apply_delta(prev_data, ...)`: an exception if there is no previous payload.
pub apply_to : Option (List ℕ) → List ℕ → Option (List ℕ)
apply_to none delta = none
apply_to (some prev_data) delta = elim (apply_delta prev_data delta) [
  | Fossil.ok target ↦ some target
  | Fossil.index_error ↦ none
  | Fossil.value_error _ ↦ none
  | Fossil.out_of_fuel ↦ none
]

-- The two fields of a publication that the codecs read, and what `apply_delta_if_needed` returns:
-- the new data and the new base.
pub record DeltaPayload : Type 0 where
  pub data' : List ℕ
  pub delta : Bool

-- `_ProtobufCodec.apply_delta_if_needed`
pub protobuf_apply_delta_if_needed :
    Option (List ℕ) → DeltaPayload → Option (List ℕ × Option (List ℕ))
protobuf_apply_delta_if_needed prev_data pub' =
    if pub'.delta
    then (apply_to prev_data pub'.data' >>= λ target. some (target, some target))
    else some (pub'.data', some pub'.data')

module _ {Value : Type 0} (encode_utf8 : List ℕ → Option (List ℕ))
    (loads_bytes : List ℕ → Option Value) (loads : List ℕ → Option Value) where
  -- `_JsonCodec.apply_delta_if_needed`
  pub json_apply_delta_if_needed : Option (List ℕ) → DeltaPayload → Option (Value × Option (List ℕ))
  json_apply_delta_if_needed prev_data pub' =
      let applied : Option (Value × Option (List ℕ)) = do
        delta ← encode_utf8 pub'.data'
        target ← apply_to prev_data delta
        new_data ← loads_bytes target
        some (new_data, some target)
      in let plain : Option (Value × Option (List ℕ)) = do
        base ← encode_utf8 pub'.data'
        new_data ← loads pub'.data'
        some (new_data, some base)
        in if pub'.delta then applied else plain
