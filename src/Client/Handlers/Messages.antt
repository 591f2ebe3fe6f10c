-- ===== src/Client/Handlers/Messages.antt =====
-- The handlers and commands that the processing of messages and pushes leads to
-- (centrifuge/client.py).
use centrifuge_python.Client.Handlers.{
  left_or, Polite-bind, Polite, command_fits, second_true, polite_end, call_fits, fits, Polite-if,
  polite_call, polite,
}
use centrifuge_python.Client.Safety.Dicts.{get-put}
use centrifuge_python.Client.Publications.{ApplyDelta}
use centrifuge_python.Client.Handlers.Moves.{move_subscribing-Polite, move_unsubscribed-Polite}
use centrifuge_python.Client.Registry.{is_some}
use centrifuge_python.Client.Handlers.Publications.{
  process_server_publication-Polite, sub_process_publication-Polite,
}
use centrifuge_python.Client.Commands.{future_success}
use centrifuge_python.Client.Moves.{subscribe}
use centrifuge_python.Events.{
  Publication, on_join, ClientInfo, on_server_join, on_leave, Channel, Text, on_server_leave, Event,
}
use centrifuge_python.Client.Subscription.{is_subscribed}
use centrifuge_python.Client.Teardown.{is_connected}
use centrifuge_python.Client.Handlers.Teardown.{send_commands-Polite, do_disconnect-Polite}
use centrifuge_python.Client.Messages.{
  handle_ping, process_publication, ping_message, pub_push, unsubscribe_to, connection_lost,
  process_unsubscribe, process_push, process_join_leave, process_subscribe, subscribed_sub_for_push,
  subscribe_push, handler_failed, join_push, process_replies, unknown_push, unsubscribe_push,
  push_message, process_decoded, is_server_push, Push, process_message, process_disconnect,
  disconnect_push, leave_push, process_reply, Message, publication_to, join_leave_to, reply_message,
  fail_connection_attempt,
}
use centrifuge_python.Client.World.{
  ServerSubscribe, Dict, ServerSubscription, pong, World, put, get,
}
use centrifuge_python.Base.{◌==◌, ℕ, ◌∷◌, [], some, none, Option, List, ◌≡◌, true, refl, arith}

future_success-Polite : (cmd_id : ℕ) (w : World) → Polite (future_success cmd_id w)
unfolding future_success call_fits fits
future_success-Polite cmd_id w = search (polite)

abbrev Found : Option ℕ → World → Type 0
Found found w = (i : ℕ) → found ≡ some i → is_subscribed (w.sub i).state ≡ true

subscribed_sub_for_push-Found :
    (channel : Channel) (push_id : ℕ) (w : World)
    → Found (subscribed_sub_for_push channel push_id w) w
unfolding subscribed_sub_for_push
subscribed_sub_for_push-Found channel push_id w i e = ground (arith, e)

publication_to-Polite :
    (apply_delta : ApplyDelta) (channel : Channel) (push_id : ℕ) (publication : Publication)
    (sub : Option ℕ) (w : World)
    → Polite (publication_to apply_delta channel push_id publication sub w)
unfolding publication_to call_fits fits
publication_to-Polite apply_delta channel push_id publication (some i) w =
    search (polite, sub_process_publication-Polite)
publication_to-Polite apply_delta channel push_id publication none w =
    Polite-bind _
      (Polite-if (is_server_push channel push_id w)
        (λ c. process_server_publication-Polite channel publication w (
          left_or (is_some (get channel w.server_subs)) (is_connected w.state)
            (second_true (push_id == 0) (is_some (get channel w.server_subs)) c)))
        polite_end)
      (λ _ _. polite_end)

process_publication-Polite :
    (apply_delta : ApplyDelta) (channel : Channel) (push_id : ℕ) (publication : Publication)
    (w : World)
    → Polite (process_publication apply_delta channel push_id publication w)
unfolding process_publication call_fits fits
process_publication-Polite apply_delta channel push_id publication w =
    search (polite, publication_to-Polite)

join_leave_to-Polite :
    (event : ℕ → ClientInfo → Event) (server_event : Channel → ClientInfo → Event)
    (channel : Channel) (push_id : ℕ) (info : ClientInfo) (found : Option ℕ) (w : World)
    → ((i : ℕ) (w : World) → is_subscribed (w.sub i).state ≡ true → fits (event i info) w ≡ true)
    → ((w : World)
        → is_some (get channel w.server_subs) ≡ true
        → fits (server_event channel info) w ≡ true)
    → Found found w
    → Polite (join_leave_to event server_event channel push_id info found w)
unfolding join_leave_to call_fits
join_leave_to-Polite event server_event channel push_id info (some i) w f g e =
    polite_call (f i _ (e i refl)) (λ _ _. polite_end)
join_leave_to-Polite event server_event channel push_id info none w f g e =
    Polite-if (is_server_push channel push_id w)
      (λ c. polite_call (g _ (second_true _ _ c)) (λ _ _. polite_end)) polite_end

process_join_leave-Polite :
    (event : ℕ → ClientInfo → Event) (server_event : Channel → ClientInfo → Event)
    (channel : Channel) (push_id : ℕ) (info : ClientInfo) (w : World)
    → ((i : ℕ) (w : World) → is_subscribed (w.sub i).state ≡ true → fits (event i info) w ≡ true)
    → ((w : World)
        → is_some (get channel w.server_subs) ≡ true
        → fits (server_event channel info) w ≡ true)
    → Polite (process_join_leave event server_event channel push_id info w)
unfolding process_join_leave
process_join_leave-Polite event server_event channel push_id info w f g =
    join_leave_to-Polite event server_event channel push_id info
      (subscribed_sub_for_push channel push_id w) w f g
      (subscribed_sub_for_push-Found channel push_id w)

unsubscribe_to-Polite :
    (channel : Channel) (code : ℕ) (reason : Text) (sub : Option ℕ) (w : World)
    → Polite (unsubscribe_to channel code reason sub w)
unfolding unsubscribe_to call_fits fits
unsubscribe_to-Polite channel code reason (some i) w =
    search (polite, move_unsubscribed-Polite, move_subscribing-Polite)
unsubscribe_to-Polite channel code reason none w = search (polite)

process_unsubscribe-Polite :
    (channel : Channel) (code : ℕ) (reason : Text) (w : World)
    → Polite (process_unsubscribe channel code reason w)
unfolding process_unsubscribe call_fits fits
process_unsubscribe-Polite channel code reason w = search (polite, unsubscribe_to-Polite)

pub has-put :
    (channel : Channel) (s : ServerSubscription) (d : Dict ServerSubscription)
    → is_some (get channel (put channel s d)) ≡ true
has-put channel s d = ground (arith, get-put channel channel s d)

process_subscribe-Polite :
    (channel : Channel) (subscribe : ServerSubscribe) (w : World)
    → Polite (process_subscribe channel subscribe w)
unfolding process_subscribe call_fits fits
process_subscribe-Polite channel subscribe w =
    polite_call (has-put channel _ w.server_subs) (λ _ _. polite_end)

process_disconnect-Polite :
    (code : ℕ) (reason : Text) (w : World) → Polite (process_disconnect code reason w)
unfolding process_disconnect call_fits fits
process_disconnect-Polite code reason w = search (polite, do_disconnect-Polite)

handle_ping-Polite : (w : World) → Polite (handle_ping w)
unfolding handle_ping call_fits command_fits
handle_ping-Polite w =
    Polite-bind _ (Polite-if w.send_pong (λ _. send_commands-Polite 0 pong w refl) polite_end)
      (λ _ w'. polite_end)

process_push-Polite :
    (apply_delta : ApplyDelta) (push : Push) (w : World) → Polite (process_push apply_delta push w)
unfolding process_push fits
process_push-Polite apply_delta (pub_push channel push_id publication) w =
    process_publication-Polite apply_delta channel push_id publication w
process_push-Polite apply_delta (join_push channel push_id info) w =
    Polite-bind _
      (process_join_leave-Polite on_join on_server_join channel push_id info w (λ i w' e. e)
        (λ w' e. e))
      (λ _ _. polite_end)
process_push-Polite apply_delta (leave_push channel push_id info) w =
    Polite-bind _
      (process_join_leave-Polite on_leave on_server_leave channel push_id info w (λ i w' e. e)
        (λ w' e. e))
      (λ _ _. polite_end)
process_push-Polite apply_delta (unsubscribe_push channel code reason) w =
    search (polite, process_unsubscribe-Polite)
process_push-Polite apply_delta (subscribe_push channel subscribe) w =
    search (polite, process_subscribe-Polite)
process_push-Polite apply_delta (disconnect_push code reason) w =
    search (polite, process_disconnect-Polite)
process_push-Polite apply_delta unknown_push w = polite_end

process_reply-Polite :
    (apply_delta : ApplyDelta) (ping_message : Message) (w : World)
    → Polite (process_reply apply_delta ping_message w)
unfolding process_reply call_fits fits
process_reply-Polite apply_delta (reply_message cmd_id) w = search (polite, future_success-Polite)
process_reply-Polite apply_delta (push_message push) w = search (polite, process_push-Polite)
process_reply-Polite apply_delta ping_message w = search (polite, handle_ping-Polite)

process_replies-Polite :
    (apply_delta : ApplyDelta) (replies : List Message) (attempt : ℕ) (w : World)
    → Polite (process_replies apply_delta replies attempt w)
unfolding process_replies call_fits fits
process_replies-Polite apply_delta [] attempt w = search (polite)
process_replies-Polite apply_delta (reply ∷ replies) attempt w =
    search (polite, process_reply-Polite, process_replies-Polite apply_delta replies attempt)

pub fail_connection_attempt-Polite :
    (attempt : ℕ) (w : World) → Polite (fail_connection_attempt attempt w)
unfolding fail_connection_attempt call_fits fits
fail_connection_attempt-Polite attempt w = search (polite, do_disconnect-Polite)

pub handler_failed-Polite :
    (attempt : ℕ) (message : Text) (w : World) → Polite (handler_failed attempt message w)
unfolding handler_failed call_fits fits
handler_failed-Polite attempt message w =
    search (polite, do_disconnect-Polite, fail_connection_attempt-Polite)

process_decoded-Polite :
    (apply_delta : ApplyDelta) (attempt : ℕ) (error : Text) (x3 : Option (List Message)) (w : World)
    → Polite (process_decoded apply_delta attempt error x3 w)
unfolding process_decoded call_fits fits
process_decoded-Polite apply_delta attempt error none w = search (polite, handler_failed-Polite)
process_decoded-Polite apply_delta attempt error (some replies) w =
    search (polite, process_replies-Polite, handler_failed-Polite)

pub process_message-Polite :
    (apply_delta : ApplyDelta) (message : Option (List Message)) (attempt : ℕ) (error : Text)
    (w : World)
    → Polite (process_message apply_delta message attempt error w)
unfolding process_message call_fits fits
process_message-Polite apply_delta message attempt error w = search (polite, process_decoded-Polite)

pub connection_lost-Polite :
    (ws_code : ℕ) (ws_reason : Text) (attempt : ℕ) (w : World)
    → Polite (connection_lost ws_code ws_reason attempt w)
unfolding connection_lost call_fits fits
connection_lost-Polite ws_code ws_reason attempt w = search (polite, do_disconnect-Polite)
