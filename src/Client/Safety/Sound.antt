-- ===== src/Client/Safety/Sound.antt =====
-- The invariant of a client's state (centrifuge/client.py), and the updates of subscriptions in it.
use centrifuge_python.Client.World.{
  Callback, World, Subscription, Dict, get, put, delete, modify_sub,
}
use centrifuge_python.Base.{
  ◌+◌, ◌≤◌, ℕ, ◌<◌, true, false, ◌≡◌, refl, ◌∙◌, none, some, List, [], ◌∷◌, ◌==◌, ltb, arith,
  if◌then◌else◌, Bool-cases, inl, inr, ◌&&◌,
}
use centrifuge_python.Client.Subscription.{
  enter_subscribing, clear_subscribed_state, commit_pending, clear_subscribing_state,
  update_subscription_push_id, set_push_id, reset_state, invalidate_state, leave_session,
  become_unsubscribed,
}
use centrifuge_python.Client.Teardown.{is_disconnected, invalidate_subs, enter_all}
use centrifuge_python.Client.Safety.Dicts.{get-put, get-delete}

-- No transport, no handshake, no refresh or reconnect timer and no command in flight.
abbrev pub Idle : World → Type 0
Idle w =
    (w.conn ≡ none)
    × (w.open_task ≡ none)
    × (w.refresh_timer ≡ none)
    × (w.reconnect_timer ≡ none)
    × (w.inflight_commands ≡ [])

-- A push ID that is registered is positive and is the one that its subscription holds.
abbrev pub Routed : World → Type 0
Routed w = (id i : ℕ) → get id w.subs_by_id ≡ some i → (0 < id) × ((w.sub i).push_id ≡ id)

-- A command in flight has an id that was given out.
abbrev pub Issued : World → Type 0
Issued w = (k : ℕ) (cb : Callback) → get k w.inflight_commands ≡ some cb → k ≤ w.command_id

abbrev pub Consistent : World → Type 0
Consistent w = Routed w × Issued w

abbrev pub Sound : World → Type 0
Sound w = (is_disconnected w.state ≡ true → Idle w) × Consistent w

-- `_next_command_id`
pub Sound-issue : (w : World) → Sound w → Sound (record w { command_id = w.command_id + 1 })
Sound-issue w (q, (r, n)) = (q, (r, λ k cb g. omega (arith, n k cb g)))

push_id-modify_sub :
    (i : ℕ) (f : Subscription → Subscription) (w : World)
    → ((s : Subscription) → (f s).push_id ≡ s.push_id)
    → (j : ℕ) → ((modify_sub i f w).sub j).push_id ≡ (w.sub j).push_id
unfolding modify_sub
push_id-modify_sub i f w e j = elim (Bool-cases (i == j)) [
  | inl h ↦ rw h (e (w.sub j))
  | inr h ↦ rw h
]

pub Sound-modify_sub :
    (i : ℕ) (f : Subscription → Subscription) (w : World)
    → ((s : Subscription) → (f s).push_id ≡ s.push_id)
    → Sound w
    → Sound (modify_sub i f w)
unfolding modify_sub
Sound-modify_sub i f w e (q, (r, n)) =
    (q, ((λ id j g. ((r id j g).0, push_id-modify_sub i f w e j ∙ (r id j g).1)), n))

pub push_id-enter_subscribing : (s : Subscription) → (enter_subscribing s).push_id ≡ s.push_id
unfolding enter_subscribing clear_subscribed_state commit_pending
push_id-enter_subscribing s = ground arith

pub push_id-leave_session : (s : Subscription) → (leave_session s).push_id ≡ s.push_id
unfolding leave_session clear_subscribed_state commit_pending clear_subscribing_state
push_id-leave_session s = ground arith

-- The registry without the ID `old` of the subscription `i`.
abbrev without : ℕ → ℕ → Dict ℕ → Dict ℕ
without i old d =
    if ltb 0 old && (elim (get old d) [ none ↦ false | some j ↦ j == i ]) then delete old d else d

get-without :
    (i old : ℕ) (d : Dict ℕ) (id j : ℕ)
    → get id (without i old d) ≡ some j
    → (get id d ≡ some j) × (id ≡ old → j ≡ i → id ≡ 0)
get-without i old d id j g = ground (arith, get-delete id old d, g)

Routed-register :
    (i p : ℕ) (w : World)
    → Routed w
    → (id j : ℕ)
    → get id (
        if ltb 0 p
        then put p i (without i (w.sub i).push_id w.subs_by_id)
        else without i (w.sub i).push_id w.subs_by_id)
      ≡ some j
    → (0 < id) × ((if i == j then p else (w.sub j).push_id) ≡ id)
Routed-register i p w r id j g = ground (
  arith,
  get-put id p i (without i (w.sub i).push_id w.subs_by_id),
  get-without i (w.sub i).push_id w.subs_by_id id j,
  r id j,
  g,
)

pub Sound-set_push_id : (i p : ℕ) (w : World) → Sound w → Sound (set_push_id i p w)
unfolding set_push_id update_subscription_push_id modify_sub
Sound-set_push_id i p w (q, (r, n)) = elim (Bool-cases (p == 0 && (w.sub i).push_id == 0)) [
  | inl e ↦ rw e (q, (r, n))
  | inr e ↦ rw e (q, ((λ id j g. ground (arith, Routed-register i p w r id j g)), n))
]

pub Sound-invalidate_state : (i : ℕ) (w : World) → Sound w → Sound (invalidate_state i w)
unfolding invalidate_state reset_state
Sound-invalidate_state i w s =
    Sound-set_push_id i 0 (modify_sub i reset_state w)
      (Sound-modify_sub i reset_state w (λ _. refl) s)

pub Sound-become_unsubscribed : (i : ℕ) (w : World) → Sound w → Sound (become_unsubscribed i w)
unfolding become_unsubscribed
Sound-become_unsubscribed i w s =
    Sound-set_push_id i 0 (modify_sub i leave_session w)
      (Sound-modify_sub i leave_session w push_id-leave_session s)

pub Sound-invalidate_subs : (is : List ℕ) (w : World) → Sound w → Sound (invalidate_subs is w)
unfolding invalidate_subs
Sound-invalidate_subs [] w s = s
Sound-invalidate_subs (i ∷ is) w s =
    Sound-invalidate_subs is (invalidate_state i w) (Sound-invalidate_state i w s)

pub Sound-enter_all : (is : List ℕ) (w : World) → Sound w → Sound ((enter_all is w).0)
unfolding enter_all
Sound-enter_all [] w s = s
Sound-enter_all (i ∷ is) w s =
    Sound-enter_all is (modify_sub i enter_subscribing w)
      (Sound-modify_sub i enter_subscribing w push_id-enter_subscribing s)
