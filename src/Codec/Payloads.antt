-- ===== src/Codec/Payloads.antt =====
-- `apply_delta_if_needed` of centrifuge/codecs.py over a stream of publications: the subscription
-- keeps the base that each call returns and hands it to the next.
use centrifuge_python.Base.{
  ℕ, ◌^◌, ◌<◌, ◌≡◌, refl, ap, true, false, Option, some, List, [], ◌∷◌, length, All,
}
use centrifuge_python.Fossil.{apply_delta, ok}
use centrifuge_python.Fossil.RoundTrip.{Command, Fits, target, render, apply_delta-render}
use centrifuge_python.Codec.{DeltaPayload, apply_to, protobuf_apply_delta_if_needed, ◌>>=◌}

-- A publication as the server makes it: a whole payload, or the difference to the one before.
pub data Update : Type 0 where
  whole : List ℕ → Update
  difference : List Command → Update

-- The payload that an update stands for, after `prev`.
unfoldable pub payload : List ℕ → Update → List ℕ
payload prev (whole bytes) = bytes
payload prev (difference commands) = target prev commands

pub payloads : List ℕ → List Update → List (List ℕ)
unfolding payload
payloads prev [] = []
payloads prev (u ∷ us) = payload prev u ∷ payloads (payload prev u) us

-- What is sent for it.
pub sent : List ℕ → Update → DeltaPayload
sent prev (whole bytes) = record { data' = bytes; delta = false }
sent prev (difference commands) = record { data' = render prev commands []; delta = true }

pub sent_all : List ℕ → List Update → List DeltaPayload
unfolding sent payload
sent_all prev [] = []
sent_all prev (u ∷ us) = sent prev u ∷ sent_all (payload prev u) us

-- Every payload has less than 2^32 bytes, and every difference copies inside the one before.
abbrev pub Sendable : List ℕ → Update → Type 0
Sendable prev (whole bytes) = length bytes < 2 ^ 32
Sendable prev (difference commands) =
    (length (target prev commands) < 2 ^ 32) × All (Fits prev) commands

unfoldable pub AllSendable : List ℕ → List Update → Type 0
unfolding payload
AllSendable prev [] = Unit
AllSendable prev (u ∷ us) = Sendable prev u × AllSendable (payload prev u) us

-- The stream as the subscription reads it.
pub receive_all : Option (List ℕ) → List DeltaPayload → Option (List (List ℕ))
receive_all prev_data [] = some []
receive_all prev_data (p ∷ ps) = do
  (new_data, base) ← protobuf_apply_delta_if_needed prev_data p
  rest ← receive_all base ps
  some (new_data ∷ rest)

apply_to_ok :
    (prev delta out : List ℕ)
    → apply_delta prev delta ≡ ok out
    → apply_to (some prev) delta ≡ some out
unfolding apply_to
apply_to_ok prev delta out e = rw (e, apply_to)

receive_one :
    (prev : List ℕ) (u : Update)
    → length prev < 2 ^ 32
    → Sendable prev u
    → protobuf_apply_delta_if_needed (some prev) (sent prev u)
      ≡ some (payload prev u, some (payload prev u))
unfolding protobuf_apply_delta_if_needed sent payload
receive_one prev (whole bytes) h s = refl
receive_one prev (difference commands) h s =
    let delta = render prev commands [] in
    let applied =
      apply_to_ok prev delta (target prev commands)
        (apply_delta-render prev commands [] h s.0 s.1) in
    ap (λ (r : Option (List ℕ)). r >>= λ out. some (out, some out)) applied

payload-lt : (prev : List ℕ) (u : Update) → Sendable prev u → length (payload prev u) < 2 ^ 32
unfolding payload
payload-lt prev (whole bytes) s = s
payload-lt prev (difference commands) s = s.0

-- From a payload below 2^32 bytes on, a stream of whole and delta publications, each sent against the
-- payload before it and fit to be sent, is read as exactly the payloads that they stand for.
pub receive_all-sent_all :
    (prev : List ℕ) (us : List Update)
    → length prev < 2 ^ 32
    → AllSendable prev us
    → receive_all (some prev) (sent_all prev us) ≡ some (payloads prev us)
unfolding receive_all sent_all payloads AllSendable
receive_all-sent_all prev [] h s = refl
receive_all-sent_all prev (u ∷ us) h s =
    rw (
      receive_one prev u h s.0,
      receive_all-sent_all (payload prev u) us (payload-lt prev u s.0) s.1,
    )
