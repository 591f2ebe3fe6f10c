-- ===== src/Client/Registry/Laws.antt =====
-- The registry's operations together (centrifuge/client.py).
use centrifuge_python.Client.Registry.{
  is_no_delta, is_some, other_delta, no_delta, is_fossil, DeltaOption, fossil_delta, filtered,
  is_registered, remove_subscription, set_tags_filter, removed, get_subscription, made, Options,
  initial, initialize, new_subscription, refused,
}
use centrifuge_python.Client.Subscription.{is_unsubscribed}
use centrifuge_python.Events.{Payload, Error, Channel}
use centrifuge_python.Client.Moves.{subscribe}
use centrifuge_python.Client.Safety.Dicts.{get-delete, get-put}
use centrifuge_python.Client.World.{Subscription, delete, Dict, put, get, World, modify_sub}
use centrifuge_python.Client.Coroutine.{done}
use centrifuge_python.Base.{
  ℕ, ◌≡◌, ◌≢◌, refl, true, false, not, ◌&&◌, Option, none, some, List, [], ◌∷◌, if◌then◌else◌,
  arith, Bool-cases, inl, inr,
}

-- What `new_subscription` makes where it is not refused.
abbrev pub registered : ℕ → Channel → Options → World → World
registered i channel options w = record (modify_sub i (λ _. initial channel options) w) {
  subs = put channel i w.subs;
}

get-put_same : (k v : ℕ) (d : Dict ℕ) → get k (put k v d) ≡ some v
get-put_same k v d = ground (arith, get-put k k v d)

get-put_other : (k c v : ℕ) (d : Dict ℕ) → c ≢ k → get c (put k v d) ≡ get c d
get-put_other k c v d n = ground (arith, get-put c k v d, n)

-- A registry without the channel takes it with options that are allowed; then `get_subscription` finds the
-- new object, a second `new_subscription` for the channel is refused, and the subscriptions of the other
-- channels are as before.
pub new_subscription-lifecycle :
    (i j : ℕ) (channel : Channel) (options options' : Options) (w : World) (other : Channel)
    → get_subscription channel w ≡ none
    → initialize channel options ≡ some (initial channel options)
    → other ≢ channel
    → (new_subscription i channel options w ≡ made (registered i channel options w))
      × (get_subscription channel (registered i channel options w) ≡ some i)
      × (new_subscription j channel options' (registered i channel options w)
          ≡ refused Error.duplicate_subscription)
      × (get_subscription other (registered i channel options w) ≡ get_subscription other w)
unfolding new_subscription get_subscription
new_subscription-lifecycle i j channel options options' w other e a n = (
  rw e (rw a refl),
  get-put_same channel i w.subs,
  rw (get-put_same channel i w.subs) refl,
  get-put_other channel other i w.subs n,
)

-- What `remove_subscription` makes where it takes the subscription out.
abbrev pub without_sub : ℕ → World → World
without_sub i w = record (modify_sub i (λ s. record s { client = false }) w) {
  subs = delete (w.sub i).channel w.subs;
}

get-delete_same : (k : ℕ) (d : Dict ℕ) → get k (delete k d) ≡ none
get-delete_same k d = ground (arith, get-delete k k d)

get-delete_other : (k c : ℕ) (d : Dict ℕ) → c ≢ k → get c (delete k d) ≡ get c d
get-delete_other k c d n = ground (arith, get-delete c k d, n)

client-without_sub : (i : ℕ) (w : World) → ((without_sub i w).sub i).client ≡ false
unfolding modify_sub
client-without_sub i w = ground arith

-- An unsubscribed subscription that is the one of its channel is removed: the channel is free, the object
-- can no longer subscribe, and the subscriptions of the other channels stay.
pub remove_subscription-removes :
    (i : ℕ) (w : World) (other : Channel)
    → is_registered i w ≡ true
    → is_unsubscribed (w.sub i).state ≡ true
    → other ≢ (w.sub i).channel
    → (remove_subscription i w ≡ removed (without_sub i w))
      × (get_subscription (w.sub i).channel (without_sub i w) ≡ none)
      × (subscribe i (without_sub i w) ≡ done false (without_sub i w))
      × (get_subscription other (without_sub i w) ≡ get_subscription other w)
unfolding remove_subscription get_subscription subscribe
remove_subscription-removes i w other r u n = (
  rw r (rw u refl),
  get-delete_same (w.sub i).channel w.subs,
  rw (client-without_sub i w) refl,
  get-delete_other (w.sub i).channel other w.subs n,
)

-- A subscription that `_initialize` made, after calls of `set_tags_filter`.
abbrev pub configured : List (Option Payload) → Subscription → Subscription
configured [] s = s
configured (tags_filter ∷ calls) s = configured calls (filtered tags_filter s)

abbrev Compatible : Subscription → Type 0
Compatible s = s.delta ≡ true → s.tags_filter ≡ none

Compatible-filtered :
    (tags_filter : Option Payload) (s : Subscription)
    → Compatible s
    → Compatible (filtered tags_filter s)
unfolding set_tags_filter
Compatible-filtered none s c = λ _. refl
Compatible-filtered (some tags_filter) s c = elim (Bool-cases s.delta) [
  | inl e ↦ rw (e, filtered) c
  | inr e ↦ rw (e, filtered) (λ d. ground (arith, d, e))
]

Compatible-configured :
    (calls : List (Option Payload)) (s : Subscription)
    → Compatible s
    → Compatible (configured calls s)
Compatible-configured [] s c = c
Compatible-configured (tags_filter ∷ calls) s c =
    Compatible-configured calls (filtered tags_filter s) (Compatible-filtered tags_filter s c)

-- The options that pass the checks.
allowed :
    (option : DeltaOption) (tags_filter : Option Payload) (s t : Subscription)
    → (if not (is_no_delta option) && not (is_fossil option)
        then none
        else (if not (is_no_delta option) && is_some tags_filter then none else some s))
      ≡ some t
    → is_fossil option ≡ true
    → tags_filter ≡ none
allowed no_delta tags_filter s t e f = ground (arith, f)
allowed fossil_delta none s t e f = refl
allowed fossil_delta (some tags_filter) s t e f = ground (arith, e)
allowed other_delta tags_filter s t e f = ground (arith, f)

Compatible-initialize :
    (channel : Channel) (options : Options)
    → initialize channel options ≡ some (initial channel options)
    → Compatible (initial channel options)
unfolding initialize
Compatible-initialize channel options e d =
    allowed options.delta options.tags_filter (initial channel options) (initial channel options) e
      d

-- A subscription with delta compression has no tags filter, whatever the options it was made with and
-- whatever filters were set, whether these calls were refused or not.
pub delta_excludes_filter :
    (channel : Channel) (options : Options) (calls : List (Option Payload))
    → initialize channel options ≡ some (initial channel options)
    → (configured calls (initial channel options)).delta ≡ true
    → (configured calls (initial channel options)).tags_filter ≡ none
delta_excludes_filter channel options calls e =
    Compatible-configured calls (initial channel options) (Compatible-initialize channel options e)
