-- ===== src/Client/Safety/Attempts.antt =====
-- The invariant through the connect reply and its errors (centrifuge/client.py).
use centrifuge_python.Base.{
  ℕ, Bool, true, false, ◌≡◌, refl, none, some, [], ◌∷◌, ◌==◌, ltb, if◌then◌else◌, ◌||◌, arith,
}
use centrifuge_python.Client.World.{
  subscribe_task, after_ttl, Subscription, World, connected, ConnectResult, ReplyError, Dict,
  modify_sub,
}
use centrifuge_python.Client.Safety.Subscriptions.{contradiction, not_disconnected}
use centrifuge_python.Client.Safety.Recovered.{process_server_subs-Keeps}
use centrifuge_python.Codes.{is_token_expired}
use centrifuge_python.Events.{Text, Error}
use centrifuge_python.Client.Coroutine.{ends, waits}
use centrifuge_python.Client.Subscription.{is_subscribing, cancel_resubscribe_timer}
use centrifuge_python.Client.Teardown.{
  is_disconnected, is_connected, attempt_current, connection_current,
}
use centrifuge_python.Client.Connecting.{
  accept_connected, clear_connecting_state, resubscribe_all, on_connect_reply, is_unauthorized,
  connect_token_failed, connect_rejected,
}
use centrifuge_python.Client.Messages.{restart_ping_wait}
use centrifuge_python.Client.Safety.Rules.{Keeps, Safe-bind, Safe-if}
use centrifuge_python.Client.Safety.Sound.{Sound, Sound-modify_sub}
use centrifuge_python.Client.Safety.Ending.{Sound-if}
use centrifuge_python.Client.Safety.Disconnect.{do_disconnect-Keeps, Sound-schedule_reconnect}
use centrifuge_python.Client.Safety.Pushes.{fail_connection_attempt-Keeps}

connected_busy : is_disconnected connected ≡ true → ⊥
connected_busy d = ground arith

refreshing :
    (b : Bool) (result : ConnectResult) (w : World)
    → is_connected w.state ≡ true
    → Sound w
    → Sound (record (if b then restart_ping_wait w else w) {
      refresh_timer = some (after_ttl result.ttl);
    })
unfolding restart_ping_wait
refreshing true result w c (q, r) =
    ((λ d. elim (contradiction w.state d (not_disconnected w.state c)) [ ]), r)
refreshing false result w c (q, r) =
    ((λ d. elim (contradiction w.state d (not_disconnected w.state c)) [ ]), r)

Sound-accept_connected :
    (result : ConnectResult) (w : World) → Sound w → Sound (accept_connected result w)
unfolding accept_connected restart_ping_wait
Sound-accept_connected result w (q, r) =
    let w₁ : World = record w {
      refresh_required = false;
      client_id = result.client;
      state = connected;
      send_pong = result.pong;
      ping_interval = result.ping;
    } in
    let s₁ : Sound w₁ = ((λ d. elim (connected_busy d) [ ]), r) in
    let w₂ = if ltb 0 result.ping then restart_ping_wait w₁ else w₁ in
    let s₂ = Sound-if (ltb 0 result.ping) (restart_ping_wait w₁) w₁ s₁ s₁ in
    let w₃ = record w₂ { refresh_timer = some (after_ttl result.ttl) } in
    Sound-if result.expires w₃ w₂ (refreshing (ltb 0 result.ping) result w₁ refl s₁) s₂

push_id-cancel : (s : Subscription) → (cancel_resubscribe_timer s).push_id ≡ s.push_id
unfolding cancel_resubscribe_timer
push_id-cancel s = refl

Sound-resubscribe_all : (subs : Dict ℕ) (w : World) → Sound w → Sound (resubscribe_all subs w)
unfolding resubscribe_all
Sound-resubscribe_all [] w s = s
Sound-resubscribe_all ((channel, i) ∷ subs) w s =
    let w' = modify_sub i cancel_resubscribe_timer w in
    let w'' = record w' { spawned = subscribe_task channel ∷ w'.spawned } in
    Sound-resubscribe_all subs (if is_subscribing (w.sub i).state then w'' else w) (
      Sound-if (is_subscribing (w.sub i).state) w'' w
        (Sound-modify_sub i cancel_resubscribe_timer w push_id-cancel s) s)

Sound-no_timer :
    (w : World) → Sound w → Sound (record w { reconnect_attempts = 0; reconnect_timer = none })
Sound-no_timer w (q, r) = ((λ d. (let (c, t, f, n, e) = q d in (c, t, f, refl, e))), r)

pub on_connect_reply-Keeps :
    (result : ConnectResult) (attempt : ℕ) → Keeps Sound (on_connect_reply result attempt)
unfolding on_connect_reply clear_connecting_state
on_connect_reply-Keeps result attempt w s = waits (Sound-accept_connected result w s) (λ ans w' s'.
    Safe-if (connection_current attempt w')
      (λ _. process_server_subs-Keeps result.subs attempt _ (
        Sound-resubscribe_all w'.subs (record w' { reconnect_attempts = 0; reconnect_timer = none })
          (Sound-no_timer w' s')))
      (ends s'))

pub connect_token_failed-Keeps :
    (attempt : ℕ) (error : Error) → Keeps Sound (connect_token_failed attempt error)
unfolding connect_token_failed
connect_token_failed-Keeps attempt error w s =
    Safe-if (attempt_current attempt w)
      (λ _.
        Safe-if (is_unauthorized error) (λ _. do_disconnect-Keeps _ _ false w s)
          (waits s (λ ans w' s'.
            Safe-if (attempt_current attempt w') (λ _. ends (Sound-schedule_reconnect w' s'))
              (ends s'))))
      (ends s)

pub connect_rejected-Keeps :
    (attempt : ℕ) (sent_token : Text) (error : ReplyError)
    → Keeps Sound (connect_rejected attempt sent_token error)
unfolding connect_rejected
connect_rejected-Keeps attempt sent_token error w s =
    Safe-bind _
      (Safe-if (is_token_expired error.code)
        (λ _. Safe-if (sent_token == w.token) (λ _. ends s) (ends s)) (ends s))
      (λ _ w' s'.
        Safe-if (is_token_expired error.code || error.temporary)
          (λ _. waits s' (λ ans. fail_connection_attempt-Keeps attempt))
          (do_disconnect-Keeps _ _ false w' s'))
