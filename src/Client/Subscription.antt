-- ===== src/Client/Subscription.antt =====
-- The methods of `Subscription` (centrifuge/client.py) that run without a suspension.
use centrifuge_python.Base.{ℕ, ◌+◌, Bool, true, false, ◌&&◌, none, some, ◌==◌, ltb, if◌then◌else◌}
use centrifuge_python.Events.{empty_text, sentinel_epoch}
use centrifuge_python.Client.World.{
  World, Subscription, SubscriptionState, unsubscribed, subscribing, subscribed, Future, pending,
  failed, backoff, get, put, delete, modify_sub,
}

abbrev pub is_subscribed : SubscriptionState → Bool
is_subscribed s = elim s [ subscribed ↦ true | _ ↦ false ]

abbrev pub is_subscribing : SubscriptionState → Bool
is_subscribing s = elim s [ subscribing ↦ true | _ ↦ false ]

abbrev pub is_unsubscribed : SubscriptionState → Bool
is_unsubscribed s = elim s [ unsubscribed ↦ true | _ ↦ false ]

-- `if future.done(): future = asyncio.Future()`: in both cases the future is pending afterwards.
abbrev pub renewed : Future → Future
renewed f = pending

-- `_next_attempt`
abbrev pub next_attempt : Subscription → Subscription
next_attempt s = record s { attempt = s.attempt + 1 }

-- `_session_current`
unfoldable pub session_current : ℕ → Subscription → Bool
session_current session s = s.attempt == session && is_subscribed s.state

-- `_publication_failed`
unfoldable pub publication_failed : Subscription → Subscription
publication_failed s = record s { pending' = none }

-- `_commit_pending`
unfoldable pub commit_pending : Subscription → Subscription
commit_pending s = elim s.pending' [
  | none ↦ s
  | some (session, offset) ↦
      if session == s.attempt
      then record s { offset = offset; pending' = none }
      else record s { pending' = none }
]

-- `_clear_subscribed_state`
unfoldable pub clear_subscribed_state : Subscription → Subscription
clear_subscribed_state s = record s { refresh_timer = none }

-- `_cancel_resubscribe_timer`
unfoldable pub cancel_resubscribe_timer : Subscription → Subscription
cancel_resubscribe_timer s = record s { resubscribe_timer = none }

-- `_clear_subscribing_state`
unfoldable pub clear_subscribing_state : Subscription → Subscription
clear_subscribing_state s = record s { resubscribe_attempts = 0; resubscribe_timer = none }

-- `_enter_subscribing`, for a subscribed subscription; whether it moves is `is_subscribed`.
unfoldable pub enter_subscribing : Subscription → Subscription
unfolding clear_subscribed_state commit_pending
enter_subscribing s =
    if is_subscribed s.state
    then (let s' = commit_pending (clear_subscribed_state s) in
        record s' {
          state = subscribing;
          attempt = s'.attempt + 1;
          subscribed_future = renewed s'.subscribed_future;
        })
    else s

-- `Client._update_subscription_push_id`
unfoldable pub update_subscription_push_id : ℕ → ℕ → ℕ → World → World
update_subscription_push_id i old_id new_id w =
    let without =
      (if ltb 0 old_id && (elim (get old_id w.subs_by_id) [ none ↦ false | some j ↦ j == i ])
        then delete old_id w.subs_by_id
        else w.subs_by_id) in
    record w { subs_by_id = if ltb 0 new_id then put new_id i without else without }

-- `_set_push_id`
unfoldable pub set_push_id : ℕ → ℕ → World → World
unfolding update_subscription_push_id
set_push_id i push_id w =
    if push_id == 0 && (w.sub i).push_id == 0
    then w
    else (let old_id = (w.sub i).push_id in
        update_subscription_push_id i old_id push_id
          (modify_sub i (λ s. record s { push_id = push_id }) w))

-- `_invalidate_state` but for the push ID.
unfoldable pub reset_state : Subscription → Subscription
reset_state s = record s {
  token = if s.has_get_token then empty_text else s.token;
  offset = 0;
  epoch = sentinel_epoch;
  pending' = none;
  prev_data = none;
}

-- `_invalidate_state`
unfoldable pub invalidate_state : ℕ → World → World
unfolding reset_state set_push_id
invalidate_state i w = set_push_id i 0 (modify_sub i reset_state w)

-- `_schedule_resubscribe`
unfoldable pub schedule_resubscribe : Subscription → Subscription
schedule_resubscribe s =
    if is_subscribing s.state
    then record s {
      resubscribe_timer = some (backoff s.resubscribe_attempts);
      resubscribe_attempts = s.resubscribe_attempts + 1;
    }
    else s

-- What `_move_unsubscribed` does before its command and its event, for a subscription that is not
-- unsubscribed.
unfoldable pub leave_session : Subscription → Subscription
unfolding clear_subscribed_state commit_pending clear_subscribing_state
leave_session s =
    let s' : Subscription = elim s.state [
      | unsubscribed ↦ s
      | subscribed ↦ commit_pending (clear_subscribed_state s)
      | subscribing ↦ clear_subscribing_state s
    ] in
    record s' { state = unsubscribed; attempt = s'.attempt + 1; subscribed_future = failed }

unfoldable pub become_unsubscribed : ℕ → World → World
unfolding leave_session set_push_id
become_unsubscribed i w = set_push_id i 0 (modify_sub i leave_session w)
