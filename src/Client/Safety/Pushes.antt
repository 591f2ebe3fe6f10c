-- ===== src/Client/Safety/Pushes.antt =====
-- The invariant through the messages of the server (centrifuge/client.py).
use centrifuge_python.Client.Moves.{subscribe}
use centrifuge_python.Base.{
  ℕ, Bool, true, false, Option, none, some, List, [], ◌∷◌, ◌==◌, ltb, if◌then◌else◌, Option-cases,
  inl, inr, ◌&&◌,
}
use centrifuge_python.Codes.{unsubscribed_state_invalidated}
use centrifuge_python.Events.{Text, Publication, Channel, ClientInfo, Event}
use centrifuge_python.Client.World.{World, get, succeeded}
use centrifuge_python.Client.Coroutine.{Safe, ends, waits, pass}
use centrifuge_python.Client.Commands.{future_success}
use centrifuge_python.Client.Teardown.{attempt_current, connection_current}
use centrifuge_python.Client.Publications.{
  ApplyDelta, end_server_pending, set_server_offset, process_server_publication,
}
use centrifuge_python.Client.Messages.{
  Push, Message, is_server_push, publication_to, process_publication, join_leave_to,
  process_join_leave, unsubscribe_to, process_unsubscribe, process_subscribe, process_disconnect,
  handle_ping, restart_ping_wait, process_push, process_reply, process_replies,
  fail_connection_attempt, handler_failed, process_decoded, process_message, connection_lost,
  close_decision,
}
use centrifuge_python.Client.Messages
use centrifuge_python.Client.Safety.Rules.{Keeps, Safe-bind, Safe-if, Keeps-if}
use centrifuge_python.Client.Safety.Sound.{Sound, Sound-invalidate_state}
use centrifuge_python.Client.Safety.Ending.{Sound-complete, Sound-if}
use centrifuge_python.Client.Safety.Disconnect.{do_disconnect-Keeps, send_commands-Keeps}
use centrifuge_python.Client.Safety.Subscriptions.{
  sub_process_publication-Keeps, move_unsubscribed-Keeps, move_subscribing-Keeps,
}

Sound-end_server_pending :
    (channel : Channel) (connection : ℕ) (w : World)
    → Sound w
    → Sound (end_server_pending channel connection w)
unfolding end_server_pending
Sound-end_server_pending channel connection w s =
    elim (Option-cases (get channel w.server_pending)) [
      | inl e ↦ rw (e, end_server_pending) s
      | inr ((c, o), e) ↦ rw (e, end_server_pending) (Sound-if (c == connection) _ w s s)
    ]

Sound-set_server_offset :
    (channel : Channel) (offset : ℕ) (w : World)
    → Sound w
    → Sound (set_server_offset channel offset w)
unfolding set_server_offset
Sound-set_server_offset channel offset w s = elim (Option-cases (get channel w.server_subs)) [
  | inl e ↦ rw (e, set_server_offset) s
  | inr (sub, e) ↦ rw (e, set_server_offset) s
]

server_delivered :
    (channel : Channel) (connection offset : ℕ) (failed : Bool) (w : World)
    → Sound w
    → Safe Sound (
        if failed
        then pass w
        else (if ltb 0 offset && w.transport_id == connection
            then pass (set_server_offset channel offset w)
            else pass w))
server_delivered channel connection offset failed w s =
    Safe-if failed (λ _. ends s)
      (Safe-if (ltb 0 offset && w.transport_id == connection)
        (λ _. ends (Sound-set_server_offset channel offset w s)) (ends s))

pub process_server_publication-Keeps :
    (channel : Channel) (publication : Publication)
    → Keeps Sound (process_server_publication channel publication)
unfolding process_server_publication
process_server_publication-Keeps channel publication w s =
    Safe-bind _ (Safe-if (ltb 0 publication.offset) (λ _. ends s) (ends s)) (λ _ w' s'.
      waits s' (λ ans w₂ s₂.
        server_delivered channel w.transport_id publication.offset _
          (end_server_pending channel w.transport_id w₂)
          (Sound-end_server_pending channel w.transport_id w₂ s₂)))

publication_to-Keeps :
    (apply_delta : ApplyDelta) (channel : Channel) (push_id : ℕ) (publication : Publication)
    (found : Option ℕ)
    → Keeps Sound (publication_to apply_delta channel push_id publication found)
unfolding publication_to
publication_to-Keeps apply_delta channel push_id publication none w s =
    Safe-bind _
      (Safe-if (is_server_push channel push_id w)
        (λ _. process_server_publication-Keeps channel publication w s) (ends s))
      (λ _ w' s'. ends s')
publication_to-Keeps apply_delta channel push_id publication (some i) w s =
    sub_process_publication-Keeps apply_delta i publication w s

join_leave_to-Keeps :
    (event : ℕ → ClientInfo → Event) (server_event : Channel → ClientInfo → Event)
    (channel : Channel) (push_id : ℕ) (info : ClientInfo) (found : Option ℕ)
    → Keeps Sound (join_leave_to event server_event channel push_id info found)
unfolding join_leave_to
join_leave_to-Keeps event server_event channel push_id info none w s =
    Safe-if (is_server_push channel push_id w) (λ _. waits s (λ ans w' s'. ends s')) (ends s)
join_leave_to-Keeps event server_event channel push_id info (some i) w s =
    waits s (λ ans w' s'. ends s')

unsubscribe_to-Keeps :
    (channel : Channel) (code : ℕ) (reason : Text) (found : Option ℕ)
    → Keeps Sound (unsubscribe_to channel code reason found)
unfolding unsubscribe_to
unsubscribe_to-Keeps channel code reason none w s =
    Safe-if (elim (get channel w.server_subs) [ none ↦ false | some _ ↦ true ])
      (λ _. waits s (λ ans w' s'. ends s')) (ends s)
unsubscribe_to-Keeps channel code reason (some i) w s =
    Safe-if (ltb code 2500) (λ _. move_unsubscribed-Keeps i code _ false w s)
      (Safe-bind _
        (Safe-if (code == unsubscribed_state_invalidated) (λ _. ends (Sound-invalidate_state i w s))
          (ends s))
        (λ _ w' s'. move_subscribing-Keeps i code _ false w' s'))

handle_ping-Keeps : Keeps Sound handle_ping
unfolding handle_ping restart_ping_wait
handle_ping-Keeps w s =
    Safe-bind _ (Safe-if w.send_pong (λ _. send_commands-Keeps 0 _ w s) (ends s))
      (λ _ w' s'. ends s')

process_push-Keeps :
    (apply_delta : ApplyDelta) (push : Push) → Keeps Sound (process_push apply_delta push)
unfolding process_push process_publication process_join_leave process_unsubscribe process_subscribe
    process_disconnect
process_push-Keeps apply_delta (Messages.pub_push channel push_id publication) w s =
    publication_to-Keeps apply_delta channel push_id publication _ w s
process_push-Keeps apply_delta (Messages.join_push channel push_id info) w s =
    Safe-bind _ (join_leave_to-Keeps _ _ channel push_id info _ w s) (λ _ w' s'. ends s')
process_push-Keeps apply_delta (Messages.leave_push channel push_id info) w s =
    Safe-bind _ (join_leave_to-Keeps _ _ channel push_id info _ w s) (λ _ w' s'. ends s')
process_push-Keeps apply_delta (Messages.unsubscribe_push channel code reason) w s =
    Safe-bind _ (unsubscribe_to-Keeps channel code reason _ w s) (λ _ w' s'. ends s')
process_push-Keeps apply_delta (Messages.subscribe_push channel subscribe) w s =
    waits s (λ ans w' s'. ends s')
process_push-Keeps apply_delta (Messages.disconnect_push code reason) w s =
    Safe-bind _ (do_disconnect-Keeps code _ _ w s) (λ _ w' s'. ends s')
process_push-Keeps apply_delta Messages.unknown_push w s = ends s

future_success-Keeps : (cmd_id : ℕ) → Keeps Sound (future_success cmd_id)
unfolding future_success
future_success-Keeps cmd_id w s =
    Safe-if (elim (get cmd_id w.inflight_commands) [ none ↦ false | some cb ↦ cb.done ])
      (λ _. waits (Sound-complete cmd_id succeeded w s) (λ ans w' s'. ends s'))
      (ends (Sound-complete cmd_id succeeded w s))

process_reply-Keeps :
    (apply_delta : ApplyDelta) (message : Message) → Keeps Sound (process_reply apply_delta message)
unfolding process_reply
process_reply-Keeps apply_delta (Messages.reply_message cmd_id) w s =
    Safe-bind _ (future_success-Keeps cmd_id w s) (λ _ w' s'. ends s')
process_reply-Keeps apply_delta (Messages.push_message push) w s =
    process_push-Keeps apply_delta push w s
process_reply-Keeps apply_delta Messages.ping_message w s =
    Safe-bind _ (handle_ping-Keeps w s) (λ _ w' s'. ends s')

process_replies-Keeps :
    (apply_delta : ApplyDelta) (replies : List Message) (attempt : ℕ)
    → Keeps Sound (process_replies apply_delta replies attempt)
unfolding process_replies
process_replies-Keeps apply_delta [] attempt w s = ends s
process_replies-Keeps apply_delta (reply ∷ replies) attempt w s =
    Safe-if (w.transport_id == attempt)
      (λ _. Safe-bind _ (process_reply-Keeps apply_delta reply w s) (λ handled w' s'.
        Keeps-if handled _ _ w' (process_replies-Keeps apply_delta replies attempt w' s')
          (ends s')))
      (ends s)

pub fail_connection_attempt-Keeps : (attempt : ℕ) → Keeps Sound (fail_connection_attempt attempt)
unfolding fail_connection_attempt
fail_connection_attempt-Keeps attempt w s =
    Safe-if (attempt_current attempt w) (λ _. do_disconnect-Keeps _ _ true w s) (ends s)

pub handler_failed-Keeps :
    (attempt : ℕ) (message : Text) → Keeps Sound (handler_failed attempt message)
unfolding handler_failed
handler_failed-Keeps attempt message w s =
    Safe-if (attempt_current attempt w) (λ _. fail_connection_attempt-Keeps attempt w s)
      (Safe-if (connection_current attempt w) (λ _. do_disconnect-Keeps _ _ false w s) (ends s))

process_decoded-Keeps :
    (apply_delta : ApplyDelta) (attempt : ℕ) (error : Text) (message : Option (List Message))
    → Keeps Sound (process_decoded apply_delta attempt error message)
unfolding process_decoded
process_decoded-Keeps apply_delta attempt error none w s = handler_failed-Keeps attempt error w s
process_decoded-Keeps apply_delta attempt error (some replies) w s =
    Safe-bind _ (process_replies-Keeps apply_delta replies attempt w s) (λ handled w' s'.
      Keeps-if handled _ _ w' (ends s') (handler_failed-Keeps attempt error w' s'))

pub process_message-Keeps :
    (apply_delta : ApplyDelta) (message : Option (List Message)) (attempt : ℕ) (error : Text)
    → Keeps Sound (process_message apply_delta message attempt error)
unfolding process_message
process_message-Keeps apply_delta message attempt error w s =
    Safe-if (w.transport_id == attempt)
      (λ _. process_decoded-Keeps apply_delta attempt error message w s) (ends s)

pub connection_lost-Keeps :
    (ws_code : ℕ) (ws_reason : Text) (attempt : ℕ)
    → Keeps Sound (connection_lost ws_code ws_reason attempt)
unfolding connection_lost
connection_lost-Keeps ws_code ws_reason attempt w s =
    Safe-if (w.transport_id == attempt) (λ _. do_disconnect-Keeps _ _ _ w s) (ends s)
