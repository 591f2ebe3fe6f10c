-- ===== src/Client/Registry.antt =====
-- The registry of subscriptions (centrifuge/client.py): `new_subscription`, `get_subscription`,
-- `remove_subscription`, the construction of a `Subscription` and `set_tags_filter`.
pub mod Laws
use centrifuge_python.Base.{
  ℕ, Bool, true, false, not, ◌&&◌, Option, none, some, ◌==◌, if◌then◌else◌,
}
use centrifuge_python.Events.{Text, empty_text, Channel, Payload, Error}
use centrifuge_python.Client.World.{
  World, Subscription, unsubscribed, Future, pending, Dict, get, put, delete, modify_sub,
}
use centrifuge_python.Client.Subscription.{is_unsubscribed}

-- The `delta` option: none, `DeltaType.FOSSIL`, or something else.
pub data DeltaOption : Type 0 where
  no_delta fossil_delta other_delta : DeltaOption

-- The options of `new_subscription`, but for the handlers and the delays, with the data as in
-- `Subscription`.
pub record Options : Type 0 where
  pub token : Text
  pub has_get_token : Bool
  pub has_get_state : Bool
  pub data' : Option (Option Payload)
  pub positioned : Bool
  pub recoverable : Bool
  pub join_leave : Bool
  pub delta : DeltaOption
  pub tags_filter : Option Payload

abbrev pub is_some : {A : Type 0} → Option A → Bool
is_some o = elim o [ none ↦ false | some _ ↦ true ]

abbrev pub is_fossil : DeltaOption → Bool
is_fossil o = elim o [ fossil_delta ↦ true | _ ↦ false ]

abbrev pub is_no_delta : DeltaOption → Bool
is_no_delta o = elim o [ no_delta ↦ true | _ ↦ false ]

-- The object that `_initialize` makes.
unfoldable pub initial : Channel → Options → Subscription
initial channel options = record {
  channel = channel;
  state = unsubscribed;
  subscribed_future = pending;
  client = true;
  token = options.token;
  has_get_token = options.has_get_token;
  has_get_state = options.has_get_state;
  data' = options.data';
  positioned = options.positioned;
  recoverable = options.recoverable;
  join_leave = options.join_leave;
  resubscribe_attempts = 0;
  refresh_timer = none;
  resubscribe_timer = none;
  recover = false;
  offset = 0;
  epoch = empty_text;
  prev_data = none;
  push_id = 0;
  attempt = 0;
  pending' = none;
  inflight = none;
  delta = is_fossil options.delta;
  delta_negotiated = false;
  tags_filter = options.tags_filter;
}

-- The checks of `_initialize`. `none` is a `CentrifugeError`.
unfoldable pub initialize : Channel → Options → Option Subscription
unfolding initial
initialize channel options =
    if not (is_no_delta options.delta) && not (is_fossil options.delta)
    then none
    else (if not (is_no_delta options.delta) && is_some options.tags_filter
        then none
        else some (initial channel options))

pub data RegistryResult : Type 0 where
  made removed : World → RegistryResult
  refused : Error → RegistryResult

-- `get_subscription`
unfoldable pub get_subscription : Channel → World → Option ℕ
get_subscription channel w = get channel w.subs

-- `new_subscription`, where `i` is the number of the new object.
unfoldable pub new_subscription : ℕ → Channel → Options → World → RegistryResult
unfolding get_subscription
new_subscription i channel options w =
    if is_some (get_subscription channel w)
    then refused Error.duplicate_subscription
    else (elim (initialize channel options) [
      | none ↦ refused Error.centrifuge_error
      | some s ↦ made (record (modify_sub i (λ _. s) w) { subs = put channel i w.subs })
    ])

-- `self._subs.get(sub.channel) is sub`
abbrev pub is_registered : ℕ → World → Bool
is_registered i w = elim (get (w.sub i).channel w.subs) [ none ↦ false | some j ↦ j == i ]

-- `remove_subscription`
unfoldable pub remove_subscription : ℕ → World → RegistryResult
remove_subscription i w =
    if not (is_registered i w)
    then removed w
    else (if not (is_unsubscribed (w.sub i).state)
        then refused Error.centrifuge_error
        else removed (record (modify_sub i (λ s. record s { client = false }) w) {
          subs = delete (w.sub i).channel w.subs;
        }))

-- `set_tags_filter`. `none` is a `CentrifugeError`.
unfoldable pub set_tags_filter : Option Payload → Subscription → Option Subscription
set_tags_filter tags_filter s =
    if is_some tags_filter && s.delta then none else some (record s { tags_filter = tags_filter })

-- A call of `set_tags_filter`, after which a subscription is as it was where the call is refused.
abbrev pub filtered : Option Payload → Subscription → Subscription
filtered tags_filter s = elim (set_tags_filter tags_filter s) [ none ↦ s | some s' ↦ s' ]
