-- ===== src/Client/Safety/SubReplies.antt =====
-- The invariant through the answers to a subscribe command (centrifuge/client.py).
use centrifuge_python.Client.Safety.Sound.{Sound-issue, Sound, Sound-modify_sub}
use centrifuge_python.Client.Subscribing.{
  submit_subscribe, subscribe_replied, subscribe_answered, subscribe_refused, send_subscribe,
  forget_position, subscribe_current, is_client_disconnected, subscribe_rejected,
  subscribe_token_failed, subscribe_failed,
}
use centrifuge_python.Client.Commands.{construct_subscribe_command, next_command_id}
use centrifuge_python.Client.World.{
  SubscribeRequest, World, modify_sub, SubscribeResult, ReplyError,
}
use centrifuge_python.Client.Coroutine.{
  Safe, returned, token_of, Answer, protocol_error, raised, connection_closed, position_of, waits,
  ends, opened, replied, cancelled,
}
use centrifuge_python.Client.Publications.{ApplyDelta}
use centrifuge_python.Client.Safety.Disconnect.{do_disconnect-Keeps}
use centrifuge_python.Client.Safety.Subscriptions.{move_unsubscribed-Keeps, move_subscribed-Keeps}
use centrifuge_python.Events.{empty_text, Error}
use centrifuge_python.Client.Moves.{is_timeout}
use centrifuge_python.Codes.{is_token_expired, error_code_unrecoverable_position}
use centrifuge_python.Client.Connecting.{is_unauthorized}
use centrifuge_python.Client.Subscription.{schedule_resubscribe}
use centrifuge_python.Base.{
  ℕ, true, false, not, refl, Option, none, some, ◌&&◌, ◌||◌, arith, ◌==◌, ◌+◌,
}
use centrifuge_python.Client.Safety.Rules.{Keeps, Safe-bind, Safe-if}
use centrifuge_python.Client.Safety.Calls.{submit-Keeps}

pub Sound-schedule_resubscribe :
    (i : ℕ) (w : World) → Sound w → Sound (modify_sub i schedule_resubscribe w)
unfolding schedule_resubscribe
Sound-schedule_resubscribe i w s = Sound-modify_sub i schedule_resubscribe w (λ t. ground arith) s

pub subscribe_token_failed-Keeps :
    (i attempt connection : ℕ) (error : Error)
    → Keeps Sound (subscribe_token_failed i attempt connection error)
unfolding subscribe_token_failed
subscribe_token_failed-Keeps i attempt connection error w s =
    Safe-if (subscribe_current i attempt connection w)
      (λ _.
        Safe-if (is_unauthorized error) (λ _. move_unsubscribed-Keeps i _ _ false w s)
          (waits s (λ ans w' s'.
            Safe-if (subscribe_current i attempt connection w')
              (λ _. ends (Sound-schedule_resubscribe i w' s')) (ends s'))))
      (ends s)

subscribe_refused-Keeps : (i : ℕ) (error : ReplyError) → Keeps Sound (subscribe_refused i error)
unfolding subscribe_refused
subscribe_refused-Keeps i error w s =
    Safe-bind _
      (Safe-if (is_token_expired error.code)
        (λ _. ends (Sound-modify_sub i (λ t. record t { token = empty_text }) w (λ _. refl) s))
        (ends s))
      (λ _ w' s'.
        Safe-if (is_token_expired error.code || error.temporary)
          (λ _. waits s' (λ ans w₂ s₂. ends (Sound-schedule_resubscribe i w₂ s₂)))
          (move_unsubscribed-Keeps i _ _ false w' s'))

subscribe_rejected-Keeps :
    (i attempt connection : ℕ) (error : ReplyError)
    → Keeps Sound (subscribe_rejected i attempt connection error)
unfolding subscribe_rejected forget_position
subscribe_rejected-Keeps i attempt connection error w s =
    Safe-if (error.code == error_code_unrecoverable_position && (w.sub i).has_get_state)
      (λ _. ends (
        Sound-schedule_resubscribe i (modify_sub i forget_position w)
          (Sound-modify_sub i forget_position w (λ _. refl) s)))
      (Safe-if (is_token_expired error.code && not (w.sub i).has_get_token)
        (λ _. waits s (λ ans w' s'.
          Safe-if (subscribe_current i attempt connection w')
            (λ _. move_unsubscribed-Keeps i _ _ false w' s') (ends s')))
        (subscribe_refused-Keeps i error w s))

subscribe_replied-Keeps :
    (apply_delta : ApplyDelta) (i attempt connection : ℕ) (error : Option ReplyError)
    (result : Option SubscribeResult)
    → Keeps Sound (subscribe_replied apply_delta i attempt connection error result)
unfolding subscribe_replied
subscribe_replied-Keeps apply_delta i attempt connection (some error) result w s =
    Safe-bind _ (subscribe_rejected-Keeps i attempt connection error w s) (λ _ w' s'. ends s')
subscribe_replied-Keeps apply_delta i attempt connection none (some result) w s =
    move_subscribed-Keeps apply_delta i result w s
subscribe_replied-Keeps apply_delta i attempt connection none none w s = ends s

subscribe_failed-Keeps :
    (i attempt connection : ℕ) (error : Error)
    → Keeps Sound (subscribe_failed i attempt connection error)
unfolding subscribe_failed
subscribe_failed-Keeps i attempt connection error w s =
    Safe-if (not (is_client_disconnected error) && subscribe_current i attempt connection w)
      (λ _.
        Safe-if (is_timeout error)
          (λ _. waits s (λ ans w' s'.
            Safe-if (subscribe_current i attempt connection w')
              (λ _. do_disconnect-Keeps _ _ true w' s') (ends s')))
          (waits s (λ ans w' s'. ends (Sound-schedule_resubscribe i w' s'))))
      (ends s)

subscribe_answered-Keeps :
    (apply_delta : ApplyDelta) (i attempt connection : ℕ) (answer : Answer)
    → Keeps Sound (subscribe_answered apply_delta i attempt connection answer)
unfolding subscribe_answered
subscribe_answered-Keeps apply_delta i attempt connection (raised error) w s =
    Safe-bind _ (subscribe_failed-Keeps i attempt connection error w s) (λ _ w' s'. ends s')
subscribe_answered-Keeps apply_delta i attempt connection (replied reply) w s =
    Safe-if (subscribe_current i attempt connection w)
      (λ _.
        subscribe_replied-Keeps apply_delta i attempt connection reply.error reply.subscribe w s)
      (ends s)
subscribe_answered-Keeps apply_delta i attempt connection returned w s = ends s
subscribe_answered-Keeps apply_delta i attempt connection cancelled w s = ends s
subscribe_answered-Keeps apply_delta i attempt connection connection_closed w s = ends s
subscribe_answered-Keeps apply_delta i attempt connection protocol_error w s = ends s
subscribe_answered-Keeps apply_delta i attempt connection (token_of token) w s = ends s
subscribe_answered-Keeps apply_delta i attempt connection (position_of position) w s = ends s
subscribe_answered-Keeps apply_delta i attempt connection (opened conn) w s = ends s

-- The command of a subscribe flow, where its id was just given out.
submit_subscribe-Safe :
    (apply_delta : ApplyDelta) (i attempt connection : ℕ) (request : Option SubscribeRequest)
    (w : World)
    → Sound w
    → Safe Sound (
        submit_subscribe apply_delta i attempt connection
          (w.command_id + 1)
          request
          (record w { command_id = w.command_id + 1 }))
unfolding submit_subscribe
submit_subscribe-Safe apply_delta i attempt connection none w s =
    ends {w = record w { command_id = w.command_id + 1 }} (Sound-issue w s)
submit_subscribe-Safe apply_delta i attempt connection (some request) w s =
    Safe-bind _ (submit-Keeps true w.timeout _ w s) (λ _ w' s'.
      waits s' (λ answer. subscribe_answered-Keeps apply_delta i attempt connection answer))

pub send_subscribe-Keeps :
    (apply_delta : ApplyDelta) (i attempt connection : ℕ)
    → Keeps Sound (send_subscribe apply_delta i attempt connection)
unfolding send_subscribe next_command_id
send_subscribe-Keeps apply_delta i attempt connection w s =
    submit_subscribe-Safe apply_delta i attempt connection (construct_subscribe_command (w.sub i)) w
      s
