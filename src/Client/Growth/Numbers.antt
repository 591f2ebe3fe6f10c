-- ===== src/Client/Growth/Numbers.antt =====
-- The growth of the numbers through the updates of the state (centrifuge/client.py).
use centrifuge_python.Client.World.{backoff, World, modify_sub, Outcome, Subscription, excepted}
use mathlib.Core.Path.{subst}
use centrifuge_python.Client.Safety.Ending.{
  fail_all-settles, invalidated, close_transport-rest, stopped, complete-settles,
}
use centrifuge_python.Events.{Error, empty_text}
use centrifuge_python.Codes.{disconnected_state_invalidated}
use centrifuge_python.Client.Commands.{clear_outgoing_futures, keys, complete, future_error}
use centrifuge_python.Client.Teardown.{
  is_connecting, stop_transport_tasks, schedule_reconnect, invalidate_subs, enter_all, values,
  close_transport, tear_down, invalidate_connection_state,
}
use centrifuge_python.Client.Growth.{Later, mark, Later-if, Mark, Later-refl}
use centrifuge_python.Client.Subscription.{
  set_push_id, reset_state, leave_session, invalidate_state, enter_subscribing, become_unsubscribed,
  update_subscription_push_id, clear_subscribed_state, commit_pending, clear_subscribing_state,
}
use centrifuge_python.Base.{
  ℕ, ◌≤◌, ◌+◌, Bool, true, false, if◌then◌else◌, ◌≡◌, ◌==◌, ◌&&◌, sym, arith, some, List, [], ◌∷◌,
  ◌<◌,
}

-- `f` does not take the attempt of a subscription back.
abbrev pub Forward : (Subscription → Subscription) → Type 0
Forward f = (s : Subscription) → s.attempt ≤ (f s).attempt

-- What a method writes that keeps the attempt.
pub Forward-same :
    (f : Subscription → Subscription) → ((s : Subscription) → (f s).attempt ≡ s.attempt) → Forward f
Forward-same f e s = rw (e s) (omega arith)

pub Later-modify_sub :
    (i : ℕ) (f : Subscription → Subscription) {m : Mark} (w : World)
    → Forward f
    → Later m (mark w)
    → Later m (mark (modify_sub i f w))
unfolding modify_sub
Later-modify_sub i f {m} w forward l = record {
  connections = l.connections;
  transitions = l.transitions;
  commands = l.commands;
  failures = l.failures;
  attempts = λ j. ground (arith, l.attempts j, forward (w.sub j));
}

pub Forward-enter_subscribing : Forward enter_subscribing
unfolding enter_subscribing clear_subscribed_state commit_pending
Forward-enter_subscribing s = ground arith

pub Forward-leave_session : Forward leave_session
unfolding leave_session clear_subscribed_state commit_pending clear_subscribing_state
Forward-leave_session s = ground arith

pub Later-set_push_id :
    (i p : ℕ) {m : Mark} (w : World) → Later m (mark w) → Later m (mark (set_push_id i p w))
unfolding set_push_id update_subscription_push_id modify_sub
Later-set_push_id i p {m} w l = Later-if (p == 0 && (w.sub i).push_id == 0) w _ l (record {
  connections = l.connections;
  transitions = l.transitions;
  commands = l.commands;
  failures = l.failures;
  attempts = λ j. ground (arith, l.attempts j);
})

pub Later-invalidate_state :
    (i : ℕ) {m : Mark} (w : World) → Later m (mark w) → Later m (mark (invalidate_state i w))
unfolding invalidate_state reset_state
Later-invalidate_state i {m} w l =
    Later-set_push_id i 0 (modify_sub i reset_state w)
      (Later-modify_sub i reset_state w (λ s. omega arith) l)

pub Later-become_unsubscribed :
    (i : ℕ) {m : Mark} (w : World) → Later m (mark w) → Later m (mark (become_unsubscribed i w))
unfolding become_unsubscribed
Later-become_unsubscribed i {m} w l =
    Later-set_push_id i 0 (modify_sub i leave_session w)
      (Later-modify_sub i leave_session w Forward-leave_session l)

Later-invalidate_subs :
    (is : List ℕ) {m : Mark} (w : World) → Later m (mark w) → Later m (mark (invalidate_subs is w))
unfolding invalidate_subs
Later-invalidate_subs [] {m} w l = l
Later-invalidate_subs (i ∷ is) {m} w l =
    Later-invalidate_subs is (invalidate_state i w) (Later-invalidate_state i w l)

Later-invalidate_connection_state :
    {m : Mark} (w : World) → Later m (mark w) → Later m (mark (invalidate_connection_state w))
unfolding invalidate_connection_state
Later-invalidate_connection_state {m} w l =
    let w' = record w { token = empty_text; refresh_required = true } in
    let w₁ = if w.has_get_token then w' else w in
    Later-invalidate_subs (values w₁.subs) w₁ (Later-if w.has_get_token w' w l l)

pub Later-complete :
    (k : ℕ) (o : Outcome) {m : Mark} (w : World)
    → Later m (mark w)
    → Later m (mark (complete k o w))
Later-complete k o {m} w l = subst (λ v. Later m (mark v)) (sym (complete-settles k o w)) l

Later-clear_outgoing_futures :
    {m : Mark} (w : World) → Later m (mark w) → Later m (mark (clear_outgoing_futures w))
unfolding clear_outgoing_futures
Later-clear_outgoing_futures {m} w l =
    let (cs, e) = fail_all-settles (keys w.inflight_commands) w in
    subst (λ v. Later m (mark v)) (sym e) l

pub Later-close_transport :
    {m : Mark} (w : World) → Later m (mark w) → Later m (mark (close_transport w))
Later-close_transport {m} w l = subst (λ v. Later m (mark v)) (sym (close_transport-rest w)) l

Later-stopped : {m : Mark} (w : World) → Later m (mark w) → Later m (mark (stopped w))
Later-stopped {m} w l = record {
  connections = omega (arith, l.connections);
  transitions = omega (arith, l.transitions);
  commands = l.commands;
  failures = l.failures;
  attempts = l.attempts;
}

Later-invalidated :
    (code : ℕ) {m : Mark} (w : World) → Later m (mark w) → Later m (mark (invalidated code w))
Later-invalidated code {m} w l =
    Later-if (code == disconnected_state_invalidated) (invalidate_connection_state w) w
      (Later-invalidate_connection_state w l) l

Later-cleared :
    (w : World) {m : Mark}
    → Later m (mark w)
    → Later m (mark (clear_outgoing_futures (close_transport (stopped w))))
Later-cleared w {m} l =
    Later-clear_outgoing_futures (close_transport (stopped w))
      (Later-close_transport (stopped w) (Later-stopped w l))

pub Later-tear_down :
    (code : ℕ) (reconnect : Bool) {m : Mark} (w : World)
    → Later m (mark w)
    → Later m (mark (tear_down code reconnect w))
unfolding tear_down stop_transport_tasks
Later-tear_down code true {m} w l = Later-cleared (invalidated code w) (Later-invalidated code w l)
Later-tear_down code false {m} w l = Later-cleared (invalidated code w) (Later-invalidated code w l)

passes :
    (w : World)
    → w.transport_id < (clear_outgoing_futures (close_transport (stopped w))).transport_id
passes w =
    let l =
      Later-clear_outgoing_futures (close_transport (stopped w))
        (Later-close_transport (stopped w) (Later-refl (mark (stopped w)))) in
    omega (arith, l.connections)

-- A teardown passes the number of the connection.
pub transport_id-tear_down :
    (code : ℕ) (reconnect : Bool) (w : World)
    → w.transport_id < (tear_down code reconnect w).transport_id
unfolding tear_down stop_transport_tasks
transport_id-tear_down code true w =
    let l = Later-invalidated code w (Later-refl (mark w)) in
    omega (arith, l.connections, passes (invalidated code w))
transport_id-tear_down code false w =
    let l = Later-invalidated code w (Later-refl (mark w)) in
    omega (arith, l.connections, passes (invalidated code w))

pub Later-enter_all :
    (is : List ℕ) {m : Mark} (w : World) → Later m (mark w) → Later m (mark ((enter_all is w).0))
unfolding enter_all
Later-enter_all [] {m} w l = l
Later-enter_all (i ∷ is) {m} w l =
    Later-enter_all is (modify_sub i enter_subscribing w)
      (Later-modify_sub i enter_subscribing w Forward-enter_subscribing l)

pub Later-schedule_reconnect :
    {m : Mark} (w : World) → Later m (mark w) → Later m (mark (schedule_reconnect w))
unfolding schedule_reconnect
Later-schedule_reconnect {m} w l =
    Later-if (is_connecting w.state)
      (record w {
        reconnect_timer = some (backoff w.reconnect_attempts);
        reconnect_attempts = w.reconnect_attempts + 1;
      })
      w l l

pub Later-future_error :
    (k : ℕ) (error : Error) {m : Mark} (w : World)
    → Later m (mark w)
    → Later m (mark (future_error k error w))
unfolding future_error
Later-future_error k error {m} w l = Later-complete k (excepted error) w l
