-- ===== src/Client/Growth/Subscriptions.antt =====
-- The growth of the numbers through what the methods of a subscription write (centrifuge/client.py).
use centrifuge_python.Client.Refreshing.{schedule_sub_refresh_retry, sub_refresh_accepted}
use centrifuge_python.Client.Subscription.{
  schedule_resubscribe, session_current, next_attempt, clear_subscribed_state,
  clear_subscribing_state, commit_pending, enter_subscribing,
}
use centrifuge_python.Client.World.{RefreshResult, delete, get, SubscribeResult, World}
use centrifuge_python.Client.Subscribing.{end_flow, forget_position}
use centrifuge_python.Client.Registry.{set_tags_filter, filtered}
use centrifuge_python.Events.{Payload}
use centrifuge_python.Client.Growth.{mark, Later, Later-if, Mark}
use centrifuge_python.Client.Publications.{set_server_offset, end_server_pending, end_pending}
use centrifuge_python.Client.Commands.{register_future, next_command_id}
use centrifuge_python.Base.{◌==◌, Option-cases, ℕ, Bool, arith, inl, inr, none, some, Option}
use centrifuge_python.Client.Growth.Numbers.{Forward}
use centrifuge_python.Client.Moves.{resubscribe, start_subscribing, accept_subscribed}

pub Forward-end_pending : (session : ℕ) → Forward (end_pending session)
unfolding end_pending
Forward-end_pending session s = elim (Option-cases s.pending') [
  | inl e ↦ rw (e, end_pending) (omega arith)
  | inr (p, e) ↦ rw (e, end_pending) (ground arith)
]

pub Forward-clear_subscribing_state : Forward clear_subscribing_state
unfolding clear_subscribing_state
Forward-clear_subscribing_state s = omega arith

pub Forward-start_subscribing : Forward start_subscribing
unfolding start_subscribing enter_subscribing clear_subscribed_state commit_pending
Forward-start_subscribing s = ground arith

pub Forward-accept_subscribed : (result : SubscribeResult) → Forward (accept_subscribed result)
unfolding accept_subscribed
Forward-accept_subscribed result s = ground arith

pub Forward-schedule_resubscribe : Forward schedule_resubscribe
unfolding schedule_resubscribe
Forward-schedule_resubscribe s = ground arith

pub Forward-schedule_sub_refresh_retry :
    (session : ℕ) → Forward (schedule_sub_refresh_retry session)
unfolding schedule_sub_refresh_retry session_current
Forward-schedule_sub_refresh_retry session s = ground arith

pub Forward-sub_refresh_accepted :
    (result : Option RefreshResult) → Forward (sub_refresh_accepted result)
unfolding sub_refresh_accepted
Forward-sub_refresh_accepted none s = omega arith
Forward-sub_refresh_accepted (some result) s = ground arith

pub Forward-forget_position : Forward forget_position
unfolding forget_position
Forward-forget_position s = omega arith

pub Forward-end_flow : (connection attempt : ℕ) → Forward (end_flow connection attempt)
unfolding end_flow
Forward-end_flow connection attempt s = ground arith

pub Forward-next_attempt : Forward next_attempt
Forward-next_attempt s = omega arith

pub Forward-filtered : (tags_filter : Option Payload) → Forward (filtered tags_filter)
unfolding set_tags_filter
Forward-filtered tags_filter s = ground arith

pub Later-end_server_pending :
    (channel connection : ℕ) {m : Mark} (w : World)
    → Later m (mark w)
    → Later m (mark (end_server_pending channel connection w))
unfolding end_server_pending
Later-end_server_pending channel connection {m} w l =
    elim (Option-cases (get channel w.server_pending)) [
      | inl e ↦ rw (e, end_server_pending) l
      | inr ((p, n), e) ↦
          rw (e, end_server_pending)
            (Later-if (p == connection)
              (record w { server_pending = delete channel w.server_pending }) w l l)
    ]

pub Later-set_server_offset :
    (channel offset : ℕ) {m : Mark} (w : World)
    → Later m (mark w)
    → Later m (mark (set_server_offset channel offset w))
unfolding set_server_offset
Later-set_server_offset channel offset {m} w l = elim (Option-cases (get channel w.server_subs)) [
  | inl e ↦ rw (e, set_server_offset) l
  | inr (s, e) ↦ rw (e, set_server_offset) l
]

pub Later-next_command_id :
    {m : Mark} (w : World) → Later m (mark w) → Later m (mark (next_command_id w))
unfolding next_command_id
Later-next_command_id {m} w l = record {
  connections = l.connections;
  transitions = l.transitions;
  commands = omega (arith, l.commands);
  failures = l.failures;
  attempts = l.attempts;
}

pub Later-register_future :
    (with_done timeout : Bool) (cmd_id : ℕ) {m : Mark} (w : World)
    → Later m (mark w)
    → Later m (mark (register_future with_done timeout cmd_id w))
unfolding register_future
Later-register_future with_done timeout cmd_id {m} w l = l

pub Later-resubscribe :
    (i : ℕ) {m : Mark} (w : World) → Later m (mark w) → Later m (mark (resubscribe i w))
unfolding resubscribe
Later-resubscribe i {m} w l = l
