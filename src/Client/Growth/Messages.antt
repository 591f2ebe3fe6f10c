-- ===== src/Client/Growth/Messages.antt =====
-- The growth of the numbers through the processing of messages and pushes (centrifuge/client.py).
use centrifuge_python.Client.Growth.Publications.{
  sub_process_publication-Grows, process_server_publication-Grows,
}
use centrifuge_python.Client.Moves.{subscribe}
use centrifuge_python.Client.Commands.{future_success}
use centrifuge_python.Events.{Publication, Text, Event, Channel, ClientInfo}
use centrifuge_python.Client.Growth.Updates.{Later-restart_ping_wait}
use centrifuge_python.Client.Growth.Moves.{move_subscribing-Grows, move_unsubscribed-Grows}
use centrifuge_python.Client.Growth.Teardown.{send_commands-Grows, do_disconnect-Grows}
use centrifuge_python.Client.Growth.{Grows, Mark, Later, mark, growth}
use centrifuge_python.Client.Publications.{ApplyDelta}
use centrifuge_python.Client.World.{World, ServerSubscribe}
use centrifuge_python.Client.Growth.Numbers.{Later-invalidate_state, Later-complete}
use centrifuge_python.Client.Messages.{
  join_leave_to, ping_message, connection_lost, handle_ping, process_unsubscribe, handler_failed,
  process_disconnect, unknown_push, Push, subscribe_push, publication_to, process_join_leave,
  reply_message, unsubscribe_push, push_message, process_reply, fail_connection_attempt,
  process_publication, pub_push, process_replies, process_message, join_push, disconnect_push,
  leave_push, process_subscribe, unsubscribe_to, Message, process_decoded, process_push,
}
use centrifuge_python.Base.{ℕ, ◌∷◌, [], some, none, Option, List}

future_success-Grows :
    (cmd_id : ℕ) (m : Mark) (w : World) → Later m (mark w) → Grows m (future_success cmd_id w)
unfolding future_success
future_success-Grows cmd_id m w l = search (growth, Later-complete)

publication_to-Grows :
    (apply_delta : ApplyDelta) (channel : Channel) (push_id : ℕ) (publication : Publication)
    (sub : Option ℕ) (m : Mark) (w : World)
    → Later m (mark w)
    → Grows m (publication_to apply_delta channel push_id publication sub w)
unfolding publication_to
publication_to-Grows apply_delta channel push_id publication (some i) m w l =
    search (growth, sub_process_publication-Grows)
publication_to-Grows apply_delta channel push_id publication none m w l =
    search (growth, process_server_publication-Grows)

process_publication-Grows :
    (apply_delta : ApplyDelta) (channel : Channel) (push_id : ℕ) (publication : Publication)
    (m : Mark) (w : World)
    → Later m (mark w)
    → Grows m (process_publication apply_delta channel push_id publication w)
unfolding process_publication
process_publication-Grows apply_delta channel push_id publication m w l =
    search (growth, publication_to-Grows)

join_leave_to-Grows :
    (event : (ℕ → ClientInfo → Event)) (server_event : (Channel → ClientInfo → Event))
    (channel : Channel) (push_id : ℕ) (info : ClientInfo) (sub : Option ℕ) (m : Mark) (w : World)
    → Later m (mark w)
    → Grows m (join_leave_to event server_event channel push_id info sub w)
unfolding join_leave_to
join_leave_to-Grows event server_event channel push_id info (some i) m w l = search (growth)
join_leave_to-Grows event server_event channel push_id info none m w l = search (growth)

process_join_leave-Grows :
    (event : (ℕ → ClientInfo → Event)) (server_event : (Channel → ClientInfo → Event))
    (channel : Channel) (push_id : ℕ) (info : ClientInfo) (m : Mark) (w : World)
    → Later m (mark w)
    → Grows m (process_join_leave event server_event channel push_id info w)
unfolding process_join_leave
process_join_leave-Grows event server_event channel push_id info m w l =
    search (growth, join_leave_to-Grows)

unsubscribe_to-Grows :
    (channel : Channel) (code : ℕ) (reason : Text) (sub : Option ℕ) (m : Mark) (w : World)
    → Later m (mark w)
    → Grows m (unsubscribe_to channel code reason sub w)
unfolding unsubscribe_to
unsubscribe_to-Grows channel code reason (some i) m w l =
    search (growth, move_unsubscribed-Grows, move_subscribing-Grows, Later-invalidate_state)
unsubscribe_to-Grows channel code reason none m w l = search (growth)

process_unsubscribe-Grows :
    (channel : Channel) (code : ℕ) (reason : Text) (m : Mark) (w : World)
    → Later m (mark w)
    → Grows m (process_unsubscribe channel code reason w)
unfolding process_unsubscribe
process_unsubscribe-Grows channel code reason m w l = search (growth, unsubscribe_to-Grows)

process_subscribe-Grows :
    (channel : Channel) (subscribe : ServerSubscribe) (m : Mark) (w : World)
    → Later m (mark w)
    → Grows m (process_subscribe channel subscribe w)
unfolding process_subscribe
process_subscribe-Grows channel subscribe m w l = search (growth)

process_disconnect-Grows :
    (code : ℕ) (reason : Text) (m : Mark) (w : World)
    → Later m (mark w)
    → Grows m (process_disconnect code reason w)
unfolding process_disconnect
process_disconnect-Grows code reason m w l = search (growth, do_disconnect-Grows)

handle_ping-Grows : (m : Mark) (w : World) → Later m (mark w) → Grows m (handle_ping w)
unfolding handle_ping
handle_ping-Grows m w l = search (growth, send_commands-Grows, Later-restart_ping_wait)

process_push-Grows :
    (apply_delta : ApplyDelta) (unknown_push : Push) (m : Mark) (w : World)
    → Later m (mark w)
    → Grows m (process_push apply_delta unknown_push w)
unfolding process_push
process_push-Grows apply_delta (pub_push channel push_id publication) m w l =
    search (growth, process_publication-Grows)
process_push-Grows apply_delta (join_push channel push_id info) m w l =
    search (growth, process_join_leave-Grows)
process_push-Grows apply_delta (leave_push channel push_id info) m w l =
    search (growth, process_join_leave-Grows)
process_push-Grows apply_delta (unsubscribe_push channel code reason) m w l =
    search (growth, process_unsubscribe-Grows)
process_push-Grows apply_delta (subscribe_push channel subscribe) m w l =
    search (growth, process_subscribe-Grows)
process_push-Grows apply_delta (disconnect_push code reason) m w l =
    search (growth, process_disconnect-Grows)
process_push-Grows apply_delta unknown_push m w l = search (growth)

process_reply-Grows :
    (apply_delta : ApplyDelta) (ping_message : Message) (m : Mark) (w : World)
    → Later m (mark w)
    → Grows m (process_reply apply_delta ping_message w)
unfolding process_reply
process_reply-Grows apply_delta (reply_message cmd_id) m w l = search (growth, future_success-Grows)
process_reply-Grows apply_delta (push_message push) m w l = search (growth, process_push-Grows)
process_reply-Grows apply_delta ping_message m w l = search (growth, handle_ping-Grows)

process_replies-Grows :
    (apply_delta : ApplyDelta) (replies : List Message) (attempt : ℕ) (m : Mark) (w : World)
    → Later m (mark w)
    → Grows m (process_replies apply_delta replies attempt w)
unfolding process_replies
process_replies-Grows apply_delta [] attempt m w l = search (growth)
process_replies-Grows apply_delta (reply ∷ replies) attempt m w l =
    search (growth, process_reply-Grows, process_replies-Grows apply_delta replies attempt)

pub fail_connection_attempt-Grows :
    (attempt : ℕ) (m : Mark) (w : World)
    → Later m (mark w)
    → Grows m (fail_connection_attempt attempt w)
unfolding fail_connection_attempt
fail_connection_attempt-Grows attempt m w l = search (growth, do_disconnect-Grows)

pub handler_failed-Grows :
    (attempt : ℕ) (message : Text) (m : Mark) (w : World)
    → Later m (mark w)
    → Grows m (handler_failed attempt message w)
unfolding handler_failed
handler_failed-Grows attempt message m w l =
    search (growth, do_disconnect-Grows, fail_connection_attempt-Grows)

process_decoded-Grows :
    (apply_delta : ApplyDelta) (attempt : ℕ) (error : Text) (x3 : Option (List Message)) (m : Mark)
    (w : World)
    → Later m (mark w)
    → Grows m (process_decoded apply_delta attempt error x3 w)
unfolding process_decoded
process_decoded-Grows apply_delta attempt error none m w l = search (growth, handler_failed-Grows)
process_decoded-Grows apply_delta attempt error (some replies) m w l =
    search (growth, process_replies-Grows, handler_failed-Grows)

pub process_message-Grows :
    (apply_delta : ApplyDelta) (message : Option (List Message)) (attempt : ℕ) (error : Text)
    (m : Mark) (w : World)
    → Later m (mark w)
    → Grows m (process_message apply_delta message attempt error w)
unfolding process_message
process_message-Grows apply_delta message attempt error m w l =
    search (growth, process_decoded-Grows)

pub connection_lost-Grows :
    (ws_code : ℕ) (ws_reason : Text) (attempt : ℕ) (m : Mark) (w : World)
    → Later m (mark w)
    → Grows m (connection_lost ws_code ws_reason attempt w)
unfolding connection_lost
connection_lost-Grows ws_code ws_reason attempt m w l = search (growth, do_disconnect-Grows)
