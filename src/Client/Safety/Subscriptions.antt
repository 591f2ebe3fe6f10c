-- ===== src/Client/Safety/Subscriptions.antt =====
-- The invariant through the transitions of a subscription and the delivery of its publications
-- (centrifuge/client.py).
use centrifuge_python.Client.Safety.Sound.{
  Issued, Sound-issue, push_id-enter_subscribing, Sound, Sound-modify_sub,
  Sound-become_unsubscribed, Sound-set_push_id,
}
use centrifuge_python.Client.Safety.Dicts.{get-put}
use centrifuge_python.Client.World.{
  put, Callback, ClientState, disconnected, connecting, connected, World, Subscription,
  SubscribeResult, modify_sub,
}
use centrifuge_python.Base.{
  ℕ, Bool, true, false, not, ◌≡◌, refl, Option, none, some, List, [], ◌∷◌, ltb, if◌then◌else◌, ◌&&◌,
  arith, ◌+◌, ◌==◌, ◌≤◌,
}
use centrifuge_python.Client.Teardown.{is_disconnected, is_connected}
use centrifuge_python.Client.Commands.{register_future, next_command_id}
use centrifuge_python.Client.Publications.{
  deliver_decoded, ApplyDelta, set_pending, end_pending, set_offset, deliver,
  sub_process_publication,
}
use centrifuge_python.Events.{Payload, Reason, Publication}
use centrifuge_python.Client.Coroutine.{Safe, ends, waits, pass}
use centrifuge_python.Client.Subscription.{
  is_subscribed, is_subscribing, is_unsubscribed, session_current, clear_subscribing_state,
}
use centrifuge_python.Client.Moves.{
  resubscribe, send_unsubscribe, move_unsubscribed, start_subscribing, move_subscribing, subscribe,
  accept_subscribed, deliver_recovered, move_subscribed,
}
use centrifuge_python.Client.Safety.Rules.{Keeps, Safe-bind, Safe-if, Keeps-if}
use centrifuge_python.Client.Safety.Disconnect.{send_commands-Keeps}

push_id-end_pending : (session : ℕ) (s : Subscription) → (end_pending session s).push_id ≡ s.push_id
unfolding end_pending
push_id-end_pending session s = ground arith

-- After the handler of a publication.
delivered :
    (i session offset : ℕ) (failed : Bool) (w : World)
    → Sound w
    → Safe Sound (
        if failed
        then pass w
        else (if ltb 0 offset && session_current session (w.sub i)
            then pass (modify_sub i (set_offset offset) w)
            else pass w))
delivered i session offset failed w s =
    Safe-if failed (λ _. ends s)
      (Safe-if (ltb 0 offset && session_current session (w.sub i))
        (λ _. ends (Sound-modify_sub i (set_offset offset) w (λ _. refl) s)) (ends s))

pub deliver-Keeps :
    (i session : ℕ) (publication : Publication) → Keeps Sound (deliver i session publication)
unfolding deliver
deliver-Keeps i session publication w s =
    Safe-bind _
      (Safe-if (ltb 0 publication.offset)
        (λ _. ends (Sound-modify_sub i (set_pending session publication.offset) w (λ _. refl) s))
        (ends s))
      (λ _ w' s'. waits s' (λ ans w₂ s₂.
        delivered i session publication.offset _ (modify_sub i (end_pending session) w₂)
          (Sound-modify_sub i (end_pending session) w₂ (push_id-end_pending session) s₂)))

deliver_decoded-Keeps :
    (i session : ℕ) (publication : Publication) (decoded : Option (Option Payload × Option Payload))
    → Keeps Sound (deliver_decoded i session publication decoded)
unfolding deliver_decoded
deliver_decoded-Keeps i session publication none w s = ends s
deliver_decoded-Keeps i session publication (some (new_data, prev_data)) w s =
    let decoded = record publication { data' = new_data } in
    let w₁ = modify_sub i (λ t. record t { prev_data = prev_data }) w in
    Safe-bind _
      (deliver-Keeps i session decoded w₁
        (Sound-modify_sub i (λ t. record t { prev_data = prev_data }) w (λ _. refl) s))
      (λ _ w' s'. ends s')

pub sub_process_publication-Keeps :
    (apply_delta : ApplyDelta) (i : ℕ) (publication : Publication)
    → Keeps Sound (sub_process_publication apply_delta i publication)
unfolding sub_process_publication
sub_process_publication-Keeps apply_delta i publication w s =
    Safe-if (is_subscribed (w.sub i).state)
      (λ _.
        Safe-if ((w.sub i).delta && (w.sub i).delta_negotiated)
          (λ _.
            deliver_decoded-Keeps i (w.sub i).attempt publication
              (apply_delta (w.sub i).prev_data publication) w s)
          (Safe-bind _ (deliver-Keeps i (w.sub i).attempt publication w s) (λ _ w' s'. ends s')))
      (ends s)

pub contradiction : (s : ClientState) → is_disconnected s ≡ true → is_disconnected s ≡ false → ⊥
contradiction s d e = ground (arith, d, e)

pub Issued-put :
    (k : ℕ) (v : Callback) (w : World)
    → k ≤ w.command_id
    → Issued w
    → Issued (record w { inflight_commands = put k v w.inflight_commands })
Issued-put k v w b n j cb g = ground (arith, get-put j k v w.inflight_commands, n j cb, g, b)

pub Sound-register :
    (with_done timeout : Bool) (cmd_id : ℕ) (w : World)
    → is_disconnected w.state ≡ false
    → cmd_id ≤ w.command_id
    → Sound w
    → Sound (register_future with_done timeout cmd_id w)
unfolding register_future
Sound-register with_done timeout cmd_id w e b (q, r) =
    ((λ d. elim (contradiction (w.state) d e) [ ]), (r.0, Issued-put cmd_id _ w b r.1))

pub not_disconnected : (s : ClientState) → is_connected s ≡ true → is_disconnected s ≡ false
not_disconnected disconnected c = ground arith
not_disconnected connecting c = refl
not_disconnected connected c = refl

send_unsubscribe-Keeps : (i : ℕ) → Keeps Sound (send_unsubscribe i)
unfolding send_unsubscribe next_command_id
send_unsubscribe-Keeps i w s =
    Safe-if (is_connected w.state)
      (λ c.
        Safe-bind _
          (send_commands-Keeps _ _ _ (
            Sound-register false w.timeout (w.command_id + 1)
              (record w { command_id = w.command_id + 1 }) (not_disconnected w.state c)
              (omega arith) (Sound-issue w s)))
          (λ _ w' s'. ends s'))
      (ends s)

pub move_unsubscribed-Keeps :
    (i code : ℕ) (reason : Reason) (send : Bool)
    → Keeps Sound (move_unsubscribed i code reason send)
unfolding move_unsubscribed
move_unsubscribed-Keeps i code reason send w s =
    Safe-if (is_unsubscribed (w.sub i).state) (λ _. ends s)
      (Safe-bind _
        (Safe-if (send && (w.sub i).client)
          (λ _. send_unsubscribe-Keeps i _ (Sound-become_unsubscribed i w s))
          (ends (Sound-become_unsubscribed i w s)))
        (λ _ w' s'. waits s' (λ ans w₂ s₂. ends s₂)))

push_id-start_subscribing : (s : Subscription) → (start_subscribing s).push_id ≡ s.push_id
unfolding start_subscribing
push_id-start_subscribing s = ground (arith, push_id-enter_subscribing s)

pub move_subscribing-Keeps :
    (i code : ℕ) (reason : Reason) (skip : Bool) → Keeps Sound (move_subscribing i code reason skip)
unfolding move_subscribing
move_subscribing-Keeps i code reason skip w s =
    Safe-if (is_subscribing (w.sub i).state) (λ _. ends s)
      (waits (Sound-modify_sub i start_subscribing w push_id-start_subscribing s) (λ ans w' s'.
        Safe-if
          (not skip
            && (w'.sub i).attempt == ((modify_sub i start_subscribing w).sub i).attempt
            && (w'.sub i).client)
          (λ _. ends s') (ends s')))

pub Sound-resubscribe : (i : ℕ) (w : World) → Sound w → Sound (resubscribe i w)
unfolding resubscribe
Sound-resubscribe i w s = s

pub subscribe-Keeps : (i : ℕ) → Keeps Sound (subscribe i)
unfolding subscribe
subscribe-Keeps i w s =
    Safe-if (not (w.sub i).client) (λ _. ends s)
      (Safe-if (not (is_unsubscribed (w.sub i).state)) (λ _. ends s)
        (waits (Sound-modify_sub i _ w (λ _. refl) s) (λ ans w' s'.
          Safe-bind _
            (Safe-if (is_subscribing (w'.sub i).state && (w'.sub i).client)
              (λ _. ends (Sound-resubscribe i w' s')) (ends s'))
            (λ _ w₂ s₂. ends s₂))))

push_id-accept_subscribed :
    (result : SubscribeResult) (s : Subscription) → (accept_subscribed result s).push_id ≡ s.push_id
unfolding accept_subscribed
push_id-accept_subscribed result s = ground arith

deliver_recovered-Keeps :
    (apply_delta : ApplyDelta) (i session : ℕ) (publications : List Publication)
    → Keeps Sound (deliver_recovered apply_delta i session publications)
unfolding deliver_recovered
deliver_recovered-Keeps apply_delta i session [] w s = ends s
deliver_recovered-Keeps apply_delta i session (publication ∷ publications) w s =
    Safe-if (session_current session (w.sub i))
      (λ _.
        Safe-bind _ (sub_process_publication-Keeps apply_delta i publication w s) (λ handled w' s'.
          Keeps-if handled _ _ w' (deliver_recovered-Keeps apply_delta i session publications w' s')
            (ends s')))
      (ends s)

push_id-clear : (s : Subscription) → (clear_subscribing_state s).push_id ≡ s.push_id
unfolding clear_subscribing_state
push_id-clear s = refl

pub move_subscribed-Keeps :
    (apply_delta : ApplyDelta) (i : ℕ) (result : SubscribeResult)
    → Keeps Sound (move_subscribed apply_delta i result)
unfolding move_subscribed
move_subscribed-Keeps apply_delta i result w s =
    Safe-if (not (is_subscribing (w.sub i).state)) (λ _. ends s)
      (waits
        (Sound-set_push_id i result.id _
          (Sound-modify_sub i (accept_subscribed result) w (push_id-accept_subscribed result) s))
        (λ ans w' s'.
          deliver_recovered-Keeps apply_delta i _ result.publications _
            (Sound-modify_sub i clear_subscribing_state w' push_id-clear s')))
