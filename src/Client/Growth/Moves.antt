-- ===== src/Client/Growth/Moves.antt =====
-- The growth of the numbers through the transitions of a subscription (centrifuge/client.py).
use centrifuge_python.Client.Publications.{ApplyDelta}
use centrifuge_python.Client.Growth.{Mark, mark, Later, Grows, growth}
use centrifuge_python.Client.Growth.Publications.{sub_process_publication-Grows}
use centrifuge_python.Events.{Publication, Reason}
use centrifuge_python.Client.Moves.{
  unsubscribe_answered, move_unsubscribed, move_subscribing, move_subscribed, subscribe,
  send_unsubscribe, deliver_recovered,
}
use centrifuge_python.Client.Growth.Subscriptions.{
  Later-next_command_id, Forward-clear_subscribing_state, Later-resubscribe, Later-register_future,
  Forward-accept_subscribed, Forward-start_subscribing,
}
use centrifuge_python.Client.Growth.Teardown.{do_disconnect-Grows, send_commands-Grows}
use centrifuge_python.Client.Coroutine.{replied, raised, Answer}
use centrifuge_python.Client.World.{World, SubscribeResult}
use centrifuge_python.Client.Growth.Numbers.{
  Forward-same, Later-set_push_id, Later-become_unsubscribed, Later-modify_sub,
}
use centrifuge_python.Base.{ℕ, ◌∷◌, [], List, Bool}

send_unsubscribe-Grows :
    (i : ℕ) (m : Mark) (w : World) → Later m (mark w) → Grows m (send_unsubscribe i w)
unfolding send_unsubscribe
send_unsubscribe-Grows i m w l =
    search (growth, send_commands-Grows, Later-next_command_id, Later-register_future) depth 8

pub unsubscribe_answered-Grows :
    (connection : ℕ) (answer : Answer) (m : Mark) (w : World)
    → Later m (mark w)
    → Grows m (unsubscribe_answered connection answer w)
unfolding unsubscribe_answered
unsubscribe_answered-Grows connection (raised error) m w l = search (growth, do_disconnect-Grows)
unsubscribe_answered-Grows connection (replied reply) m w l = search (growth, do_disconnect-Grows)
unsubscribe_answered-Grows connection _ m w l = search (growth)

pub move_unsubscribed-Grows :
    (i : ℕ) (code : ℕ) (reason : Reason) (send_unsubscribe_command : Bool) (m : Mark) (w : World)
    → Later m (mark w)
    → Grows m (move_unsubscribed i code reason send_unsubscribe_command w)
unfolding move_unsubscribed
move_unsubscribed-Grows i code reason send_unsubscribe_command m w l =
    search (growth, send_unsubscribe-Grows, Later-become_unsubscribed) depth 8

pub move_subscribing-Grows :
    (i : ℕ) (code : ℕ) (reason : Reason) (skip_schedule_resubscribe : Bool) (m : Mark) (w : World)
    → Later m (mark w)
    → Grows m (move_subscribing i code reason skip_schedule_resubscribe w)
unfolding move_subscribing
move_subscribing-Grows i code reason skip_schedule_resubscribe m w l =
    search (growth, Later-modify_sub, Forward-start_subscribing)

pub subscribe-Grows : (i : ℕ) (m : Mark) (w : World) → Later m (mark w) → Grows m (subscribe i w)
unfolding subscribe
subscribe-Grows i m w l = search (growth, Later-modify_sub, Forward-same, Later-resubscribe) depth 8

deliver_recovered-Grows :
    (apply_delta : ApplyDelta) (i : ℕ) (session : ℕ) (publications : List Publication) (m : Mark)
    (w : World)
    → Later m (mark w)
    → Grows m (deliver_recovered apply_delta i session publications w)
unfolding deliver_recovered
deliver_recovered-Grows apply_delta i session [] m w l = search (growth)
deliver_recovered-Grows apply_delta i session (publication ∷ publications) m w l = search (
  growth,
  sub_process_publication-Grows,
  deliver_recovered-Grows apply_delta i session publications,
)

pub move_subscribed-Grows :
    (apply_delta : ApplyDelta) (i : ℕ) (result : SubscribeResult) (m : Mark) (w : World)
    → Later m (mark w)
    → Grows m (move_subscribed apply_delta i result w)
unfolding move_subscribed
move_subscribed-Grows apply_delta i result m w l = search (
  growth, deliver_recovered-Grows, Later-modify_sub, Later-set_push_id,
  Forward-clear_subscribing_state, Forward-accept_subscribed,
)
