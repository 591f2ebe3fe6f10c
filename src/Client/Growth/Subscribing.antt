-- ===== src/Client/Growth/Subscribing.antt =====
-- The growth of the numbers through the subscribe flow (centrifuge/client.py).
use centrifuge_python.Client.World.{SubscribeRequest, ReplyError, SubscribeResult, World}
use centrifuge_python.Client.Subscribing.{
  submit_subscribe, subscribe_rejected, subscribe_raised, subscribe_failed, subscribe_steps,
  subscribe_token_failed, load_state_position, run_flow, subscribe_of, subscribe_refused,
  resubscribe_fired, subscribe_attempt, subscribe_replied, state_answered, sub_token_answered,
  subscribe_with_token, send_subscribe, subscribe_answered, subscribe_channel,
}
use centrifuge_python.Client.Growth.Messages.{handler_failed-Grows}
use centrifuge_python.Client.Publications.{ApplyDelta}
use centrifuge_python.Client.Growth.Moves.{move_subscribed-Grows, move_unsubscribed-Grows}
use centrifuge_python.Client.Coroutine.{replied, Answer, token_of, raised, position_of}
use centrifuge_python.Events.{Channel, Text, Error}
use centrifuge_python.Client.Growth.Teardown.{send_commands-Grows, do_disconnect-Grows}
use centrifuge_python.Client.Growth.Numbers.{Later-modify_sub, Forward-same}
use centrifuge_python.Client.Growth.{Grows, Later, mark, Mark, growth}
use centrifuge_python.Client.Growth.Subscriptions.{
  Forward-forget_position, Later-register_future, Forward-next_attempt, Later-next_command_id,
  Forward-end_flow, Later-resubscribe, Forward-schedule_resubscribe,
}
use centrifuge_python.Base.{ℕ, some, none, Option}

subscribe_token_failed-Grows :
    (i : ℕ) (attempt : ℕ) (connection : ℕ) (error : Error) (m : Mark) (w : World)
    → Later m (mark w)
    → Grows m (subscribe_token_failed i attempt connection error w)
unfolding subscribe_token_failed
subscribe_token_failed-Grows i attempt connection error m w l =
    search (growth, move_unsubscribed-Grows, Later-modify_sub, Forward-schedule_resubscribe) depth 8

subscribe_refused-Grows :
    (i : ℕ) (error : ReplyError) (m : Mark) (w : World)
    → Later m (mark w)
    → Grows m (subscribe_refused i error w)
unfolding subscribe_refused
subscribe_refused-Grows i error m w l =
    search
      (
        growth, move_unsubscribed-Grows, Later-modify_sub, Forward-same,
        Forward-schedule_resubscribe,
      )
      depth 8

subscribe_rejected-Grows :
    (i : ℕ) (attempt : ℕ) (connection : ℕ) (error : ReplyError) (m : Mark) (w : World)
    → Later m (mark w)
    → Grows m (subscribe_rejected i attempt connection error w)
unfolding subscribe_rejected
subscribe_rejected-Grows i attempt connection error m w l =
    search
      (
        growth, move_unsubscribed-Grows, subscribe_refused-Grows, Later-modify_sub,
        Forward-forget_position, Forward-schedule_resubscribe,
      )
      depth 8

subscribe_replied-Grows :
    (apply_delta : ApplyDelta) (i : ℕ) (attempt : ℕ) (connection : ℕ) (error : Option ReplyError)
    (result : Option SubscribeResult) (m : Mark) (w : World)
    → Later m (mark w)
    → Grows m (subscribe_replied apply_delta i attempt connection error result w)
unfolding subscribe_replied
subscribe_replied-Grows apply_delta i attempt connection (some error) result m w l =
    search (growth, subscribe_rejected-Grows)
subscribe_replied-Grows apply_delta i attempt connection none (some result) m w l =
    search (growth, move_subscribed-Grows)
subscribe_replied-Grows apply_delta i attempt connection none none m w l = search (growth)

subscribe_failed-Grows :
    (i : ℕ) (attempt : ℕ) (connection : ℕ) (error : Error) (m : Mark) (w : World)
    → Later m (mark w)
    → Grows m (subscribe_failed i attempt connection error w)
unfolding subscribe_failed
subscribe_failed-Grows i attempt connection error m w l =
    search (growth, do_disconnect-Grows, Later-modify_sub, Forward-schedule_resubscribe) depth 8

subscribe_answered-Grows :
    (apply_delta : ApplyDelta) (i : ℕ) (attempt : ℕ) (connection : ℕ) (answer : Answer) (m : Mark)
    (w : World)
    → Later m (mark w)
    → Grows m (subscribe_answered apply_delta i attempt connection answer w)
unfolding subscribe_answered
subscribe_answered-Grows apply_delta i attempt connection (raised error) m w l =
    search (growth, subscribe_failed-Grows)
subscribe_answered-Grows apply_delta i attempt connection (replied reply) m w l =
    search (growth, subscribe_replied-Grows)
subscribe_answered-Grows apply_delta i attempt connection _ m w l = search (growth)

submit_subscribe-Grows :
    (apply_delta : ApplyDelta) (i attempt connection cmd_id : ℕ) (request : Option SubscribeRequest)
    (m : Mark) (w : World)
    → Later m (mark w)
    → Grows m (submit_subscribe apply_delta i attempt connection cmd_id request w)
unfolding submit_subscribe
submit_subscribe-Grows apply_delta i attempt connection cmd_id none m w l = search (growth)
submit_subscribe-Grows apply_delta i attempt connection cmd_id (some request) m w l =
    search (growth, send_commands-Grows, subscribe_answered-Grows, Later-register_future) depth 8

send_subscribe-Grows :
    (apply_delta : ApplyDelta) (i : ℕ) (attempt : ℕ) (connection : ℕ) (m : Mark) (w : World)
    → Later m (mark w)
    → Grows m (send_subscribe apply_delta i attempt connection w)
unfolding send_subscribe
send_subscribe-Grows apply_delta i attempt connection m w l =
    search (growth, submit_subscribe-Grows, Later-next_command_id) depth 8

sub_token_answered-Grows :
    (apply_delta : ApplyDelta) (i : ℕ) (attempt : ℕ) (connection : ℕ) (answer : Answer) (m : Mark)
    (w : World)
    → Later m (mark w)
    → Grows m (sub_token_answered apply_delta i attempt connection answer w)
unfolding sub_token_answered
sub_token_answered-Grows apply_delta i attempt connection (token_of token) m w l =
    search (growth, move_unsubscribed-Grows, send_subscribe-Grows, Later-modify_sub, Forward-same)
sub_token_answered-Grows apply_delta i attempt connection (raised error) m w l =
    search (growth, subscribe_token_failed-Grows)
sub_token_answered-Grows apply_delta i attempt connection _ m w l =
    search (growth, subscribe_token_failed-Grows)

subscribe_with_token-Grows :
    (apply_delta : ApplyDelta) (i : ℕ) (attempt : ℕ) (connection : ℕ) (m : Mark) (w : World)
    → Later m (mark w)
    → Grows m (subscribe_with_token apply_delta i attempt connection w)
unfolding subscribe_with_token
subscribe_with_token-Grows apply_delta i attempt connection m w l =
    search (growth, send_subscribe-Grows, sub_token_answered-Grows)

state_answered-Grows :
    (i : ℕ) (attempt : ℕ) (connection : ℕ) (answer : Answer) (m : Mark) (w : World)
    → Later m (mark w)
    → Grows m (state_answered i attempt connection answer w)
unfolding state_answered
state_answered-Grows i attempt connection (position_of position) m w l =
    search (growth, Later-modify_sub, Forward-same)
state_answered-Grows i attempt connection (raised error) m w l = search (growth)
state_answered-Grows i attempt connection _ m w l = search (growth)

load_state_position-Grows :
    (i : ℕ) (attempt : ℕ) (connection : ℕ) (m : Mark) (w : World)
    → Later m (mark w)
    → Grows m (load_state_position i attempt connection w)
unfolding load_state_position
load_state_position-Grows i attempt connection m w l = search (growth, state_answered-Grows)

subscribe_steps-Grows :
    (apply_delta : ApplyDelta) (i : ℕ) (attempt : ℕ) (connection : ℕ) (m : Mark) (w : World)
    → Later m (mark w)
    → Grows m (subscribe_steps apply_delta i attempt connection w)
unfolding subscribe_steps
subscribe_steps-Grows apply_delta i attempt connection m w l =
    search (growth, subscribe_with_token-Grows, load_state_position-Grows)

run_flow-Grows :
    (apply_delta : ApplyDelta) (i : ℕ) (m : Mark) (w : World)
    → Later m (mark w)
    → Grows m (run_flow apply_delta i w)
unfolding run_flow
run_flow-Grows apply_delta i m w l =
    search
      (
        growth, subscribe_steps-Grows, Later-modify_sub, Forward-same, Forward-next_attempt,
        Forward-end_flow,
      )
      depth 8

subscribe_attempt-Grows :
    (apply_delta : ApplyDelta) (i : ℕ) (m : Mark) (w : World)
    → Later m (mark w)
    → Grows m (subscribe_attempt apply_delta i w)
unfolding subscribe_attempt
subscribe_attempt-Grows apply_delta i m w l = search (growth, run_flow-Grows)

subscribe_raised-Grows :
    (i : ℕ) (connection : ℕ) (message : Text) (m : Mark) (w : World)
    → Later m (mark w)
    → Grows m (subscribe_raised i connection message w)
unfolding subscribe_raised
subscribe_raised-Grows i connection message m w l =
    search (growth, handler_failed-Grows, Later-modify_sub, Forward-schedule_resubscribe)

subscribe_of-Grows :
    (apply_delta : ApplyDelta) (message : Text) (sub : Option ℕ) (m : Mark) (w : World)
    → Later m (mark w)
    → Grows m (subscribe_of apply_delta message sub w)
unfolding subscribe_of
subscribe_of-Grows apply_delta message none m w l = search (growth)
subscribe_of-Grows apply_delta message (some i) m w l =
    search (growth, subscribe_attempt-Grows, subscribe_raised-Grows)

pub subscribe_channel-Grows :
    (apply_delta : ApplyDelta) (channel : Channel) (message : Text) (m : Mark) (w : World)
    → Later m (mark w)
    → Grows m (subscribe_channel apply_delta channel message w)
unfolding subscribe_channel
subscribe_channel-Grows apply_delta channel message m w l = search (growth, subscribe_of-Grows)

pub resubscribe_fired-Grows :
    (i : ℕ) (m : Mark) (w : World) → Later m (mark w) → Grows m (resubscribe_fired i w)
unfolding resubscribe_fired
resubscribe_fired-Grows i m w l = search (growth, Later-resubscribe)
