-- ===== src/Client/Growth/Updates.antt =====
-- The growth of the numbers through what the connection and the token refreshes write
-- (centrifuge/client.py).
use centrifuge_python.Client.Growth.{Mark, Later, mark, Later-if}
use centrifuge_python.Client.Growth.Numbers.{Later-close_transport, Forward, Later-modify_sub}
use centrifuge_python.Client.Teardown.{stop_transport_tasks, close_transport, connection_current}
use centrifuge_python.Client.Messages.{restart_ping_wait}
use centrifuge_python.Client.Refreshing.{refresh_accepted, schedule_refresh_retry}
use centrifuge_python.Client.Subscription.{
  is_subscribing, publication_failed, cancel_resubscribe_timer,
}
use centrifuge_python.Client.Connecting.{
  is_open_task, resubscribe_all, accept_connected, forget_open_task, has_transport,
  clear_connecting_state,
}
use centrifuge_python.Client.Guarded.{
  server_publication_failed, publication_handler, server_publication_handler, other_handler, Raised,
  not_delivered,
}
use centrifuge_python.Client.World.{
  after_ttl, Dict, refresh_retry, World, ConnectResult, RefreshResult, modify_sub, subscribe_task,
}
use centrifuge_python.Base.{ℕ, ◌+◌, ◌&&◌, if◌then◌else◌, arith, none, some, [], ◌∷◌, Option}

pub Later-next_connection :
    {m : Mark} (w : World)
    → Later m (mark w)
    → Later m (mark (record w { transport_id = w.transport_id + 1 }))
Later-next_connection {m} w l = record {
  connections = omega (arith, l.connections);
  transitions = l.transitions;
  commands = l.commands;
  failures = l.failures;
  attempts = l.attempts;
}

pub Later-next_transition :
    {m : Mark} (w : World)
    → Later m (mark w)
    → Later m (mark (record w { transition = w.transition + 1 }))
Later-next_transition {m} w l = record {
  connections = l.connections;
  transitions = omega (arith, l.transitions);
  commands = l.commands;
  failures = l.failures;
  attempts = l.attempts;
}

pub Later-next_failure :
    {m : Mark} (w : World)
    → Later m (mark w)
    → Later m (mark (record w { handler_failures = w.handler_failures + 1 }))
Later-next_failure {m} w l = record {
  connections = l.connections;
  transitions = l.transitions;
  commands = l.commands;
  failures = omega (arith, l.failures);
  attempts = l.attempts;
}

pub Later-restart_ping_wait :
    {m : Mark} (w : World) → Later m (mark w) → Later m (mark (restart_ping_wait w))
unfolding restart_ping_wait
Later-restart_ping_wait {m} w l = l

pub Later-clear_connecting_state :
    {m : Mark} (w : World) → Later m (mark w) → Later m (mark (clear_connecting_state w))
unfolding clear_connecting_state
Later-clear_connecting_state {m} w l = l

pub Later-accept_connected :
    (result : ConnectResult) {m : Mark} (w : World)
    → Later m (mark w)
    → Later m (mark (accept_connected result w))
unfolding accept_connected restart_ping_wait
Later-accept_connected result {m} w l = record {
  connections = ground (arith, l.connections);
  transitions = ground (arith, l.transitions);
  commands = ground (arith, l.commands);
  failures = ground (arith, l.failures);
  attempts = λ i. ground (arith, l.attempts i);
}

Forward-cancel_resubscribe_timer : Forward cancel_resubscribe_timer
unfolding cancel_resubscribe_timer
Forward-cancel_resubscribe_timer s = omega arith

pub Later-resubscribe_all :
    (subs : Dict ℕ) {m : Mark} (w : World)
    → Later m (mark w)
    → Later m (mark (resubscribe_all subs w))
unfolding resubscribe_all
Later-resubscribe_all [] {m} w l = l
Later-resubscribe_all ((channel, i) ∷ subs) {m} w l =
    let w' = modify_sub i cancel_resubscribe_timer w in
    let w₁ = record w' { spawned = subscribe_task channel ∷ w'.spawned } in
    Later-resubscribe_all subs (if is_subscribing (w.sub i).state then w₁ else w) (
      Later-if (is_subscribing (w.sub i).state) w₁ w
        (Later-modify_sub i cancel_resubscribe_timer w Forward-cancel_resubscribe_timer l) l)

pub Later-forget_open_task :
    (attempt : ℕ) {m : Mark} (w : World)
    → Later m (mark w)
    → Later m (mark (forget_open_task attempt w))
unfolding forget_open_task
Later-forget_open_task attempt {m} w l =
    Later-if (is_open_task attempt w) (record w { open_task = none }) w l l

pub Later-close_listening :
    {m : Mark} (w : World)
    → Later m (mark w)
    → Later m (mark (if has_transport w then close_transport (stop_transport_tasks w) else w))
unfolding stop_transport_tasks
Later-close_listening {m} w l =
    Later-if (has_transport w) (close_transport (stop_transport_tasks w)) w
      (Later-close_transport (stop_transport_tasks w) l) l

pub Later-schedule_refresh_retry :
    (connection : ℕ) {m : Mark} (w : World)
    → Later m (mark w)
    → Later m (mark (schedule_refresh_retry connection w))
unfolding schedule_refresh_retry
Later-schedule_refresh_retry connection {m} w l =
    Later-if (connection_current connection w && w.has_get_token)
      (record w { refresh_timer = some refresh_retry }) w l l

pub Later-refresh_accepted :
    (result : Option RefreshResult) {m : Mark} (w : World)
    → Later m (mark w)
    → Later m (mark (refresh_accepted result w))
unfolding refresh_accepted
Later-refresh_accepted none {m} w l = l
Later-refresh_accepted (some result) {m} w l =
    Later-if result.expires (record w { refresh_timer = some (after_ttl result.ttl) }) w l l

pub Later-not_delivered :
    (handler : Raised) {m : Mark} (w : World)
    → Later m (mark w)
    → Later m (mark (not_delivered handler w))
unfolding not_delivered server_publication_failed publication_failed
Later-not_delivered (publication_handler i) {m} w l =
    Later-modify_sub i publication_failed w (λ s. omega arith) l
Later-not_delivered (server_publication_handler channel) {m} w l = l
Later-not_delivered other_handler {m} w l = l
