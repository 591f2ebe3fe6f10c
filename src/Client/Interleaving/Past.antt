-- ===== src/Client/Interleaving/Past.antt =====
-- What is over in a state and stays over in those that follow (centrifuge/client.py): attempts to connect,
-- connections, and attempts and sessions of subscriptions.
use centrifuge_python.Client.Teardown.{
  is_connecting, clear_connected_state, is_connected, connection_current, attempt_current,
  is_disconnected, tear_down, do_disconnect,
}
use centrifuge_python.Client.World.{close_conn, World}
use centrifuge_python.Client.Connecting.{
  forget_open_task, reconnect, transport_answered, token_answered, connect_answered,
}
use centrifuge_python.Client.Growth.{
  Later-refl, Grows-choose, Grows-bind, grown, Grows-else, Grows, mark, growth,
}
use centrifuge_python.Client.Coroutine.{
  pass, cancelled, replied, connection_closed, position_of, returned, protocol_error, done,
  token_of, Answer, raised, opened,
}
use centrifuge_python.Client.Interleaving.Growth.{Grows-left, follows_lem, Follows-Later}
use centrifuge_python.Client.Growth.Numbers.{transport_id-tear_down, Later-schedule_reconnect}
use centrifuge_python.Client.Interleaving.{left, held, Follows, Reaches, Suspended}
use centrifuge_python.Events.{Reason, Channel, Text}
use centrifuge_python.Client.Growth.Teardown.{
  clear_connected_state-Grows, emit_teardown_event-Grows,
}
use centrifuge_python.Client.Publications.{ApplyDelta}
use centrifuge_python.Client.Subscription.{session_current}
use centrifuge_python.Client.Subscribing.{subscribe_answered, state_answered, sub_token_answered}
use centrifuge_python.Client.Refreshing.{
  sub_refresh_answered, sub_refresh_token_answered, refresh_answered, refresh_token_answered,
}
use centrifuge_python.Client.Messages.{connection_lost, Message, process_message}
use centrifuge_python.Client.Stale.{
  connect-stale, refresh-stale, subscribe-stale, sub_refresh-stale,
}
use centrifuge_python.Base.{
  ◌∷◌, ℕ, ◌<◌, ◌≤◌, ◌+◌, ◌≡◌, ◌==◌, ◌&&◌, true, false, refl, arith, Bool, List, Option,
}

passed : (a b c : ℕ) → a < b → b ≤ c → (c == a) ≡ false
passed a b c l m = ground (arith, l, m)

first_false : (a b : Bool) → a ≡ false → (a && b) ≡ false
first_false a b e = rw e refl

process_message-passed :
    (apply_delta : ApplyDelta) (message : Option (List Message)) (attempt : ℕ) (error : Text)
    (w : World)
    → (w.transport_id == attempt) ≡ false
    → process_message apply_delta message attempt error w ≡ done tt w
unfolding process_message
process_message-passed apply_delta message attempt error w e = rw e refl

connection_lost-passed :
    (ws_code : ℕ) (ws_reason : Text) (attempt : ℕ) (w : World)
    → (w.transport_id == attempt) ≡ false
    → connection_lost ws_code ws_reason attempt w ≡ done tt w
unfolding connection_lost
connection_lost-passed ws_code ws_reason attempt w e = rw e refl

state_answered-passed :
    (i attempt connection : ℕ) (answer : Answer) (w : World)
    → ((w.sub i).attempt == attempt) ≡ false
    → state_answered i attempt connection answer w ≡ done false w
unfolding state_answered
state_answered-passed i attempt connection (position_of position) w e = rw e refl
state_answered-passed i attempt connection (raised error) w e = rw e refl
state_answered-passed i attempt connection (replied reply) w e = refl
state_answered-passed i attempt connection (token_of token) w e = refl
state_answered-passed i attempt connection (opened conn) w e = refl
state_answered-passed i attempt connection returned w e = refl
state_answered-passed i attempt connection cancelled w e = refl
state_answered-passed i attempt connection connection_closed w e = refl
state_answered-passed i attempt connection protocol_error w e = refl

-- What is left of an attempt that is over once its handshake is answered.
abbrev pub late_handshake : ℕ → Answer → World → World
late_handshake attempt cancelled w = w
late_handshake attempt (opened conn) w =
    let w' = forget_open_task attempt w in record w' { spawned = close_conn conn ∷ w'.spawned }
late_handshake attempt _ w = forget_open_task attempt w

transport_id-forget_open_task :
    (attempt : ℕ) (w : World) → (forget_open_task attempt w).transport_id ≡ w.transport_id
unfolding forget_open_task
transport_id-forget_open_task attempt w = ground arith

attempt_current-forget_open_task :
    (attempt : ℕ) (w : World)
    → (w.transport_id == attempt) ≡ false
    → attempt_current attempt (forget_open_task attempt w) ≡ false
attempt_current-forget_open_task attempt w e =
    first_false ((forget_open_task attempt w).transport_id == attempt)
      (is_connecting (forget_open_task attempt w).state)
      (rw (transport_id-forget_open_task attempt w) e)

transport_answered-passed :
    (attempt : ℕ) (answer : Answer) (w : World)
    → (w.transport_id == attempt) ≡ false
    → transport_answered attempt answer w ≡ done tt (late_handshake attempt answer w)
unfolding transport_answered
transport_answered-passed attempt cancelled w e = refl
transport_answered-passed attempt (opened conn) w e =
    rw (attempt_current-forget_open_task attempt w e) refl
transport_answered-passed attempt (raised error) w e =
    rw (attempt_current-forget_open_task attempt w e) refl
transport_answered-passed attempt (replied reply) w e =
    rw (attempt_current-forget_open_task attempt w e) refl
transport_answered-passed attempt (token_of token) w e =
    rw (attempt_current-forget_open_task attempt w e) refl
transport_answered-passed attempt (position_of position) w e =
    rw (attempt_current-forget_open_task attempt w e) refl
transport_answered-passed attempt returned w e =
    rw (attempt_current-forget_open_task attempt w e) refl
transport_answered-passed attempt connection_closed w e =
    rw (attempt_current-forget_open_task attempt w e) refl
transport_answered-passed attempt protocol_error w e =
    rw (attempt_current-forget_open_task attempt w e) refl

-- Once a reachable state has passed the number of an attempt to connect, in every state that follows the
-- answers to its token request and its connect command, those to the token refresh of its connection, the
-- messages of its transport and the end of it do nothing, and the answer to its handshake does no more
-- than forget the handshake, where it is the client's current one and was not cancelled, and start the close
-- of the transport that it opened.
pub connection-over :
    (apply_delta : ApplyDelta) (w₀ w w' : World) (pool pool' : List Suspended)
    → Reaches apply_delta w₀ w pool
    → Follows apply_delta w pool w' pool'
    → (attempt : ℕ) → attempt < w.transport_id
    → (sent_token ws_reason error : Text) (answer : Answer) (message : Option (List Message))
      (ws_code : ℕ)
    → (token_answered attempt answer w' ≡ done tt w')
      × (connect_answered attempt sent_token answer w' ≡ done tt w')
      × (transport_answered attempt answer w' ≡ done tt (late_handshake attempt answer w'))
      × (refresh_token_answered attempt answer w' ≡ done tt w')
      × (refresh_answered attempt answer w' ≡ done tt w')
      × (process_message apply_delta message attempt error w' ≡ done tt w')
      × (connection_lost ws_code ws_reason attempt w' ≡ done tt w')
connection-over apply_delta w₀ w w' pool pool' r f attempt l sent_token ws_reason error answer
      message ws_code =
    let past =
      passed attempt w.transport_id w'.transport_id l
        (Follows-Later apply_delta w₀ w w' pool pool' r f).connections in
    let (t, c) = connect-stale attempt sent_token answer w' (first_false _ _ past) in
    let (u, d) = refresh-stale attempt answer w' (first_false _ _ past) in
    (
      t,
      c,
      transport_answered-passed attempt answer w' past,
      u,
      d,
      process_message-passed apply_delta message attempt error w' past,
      connection_lost-passed ws_code ws_reason attempt w' past,
    )

-- Once a reachable state has passed the number of an attempt or a session of a subscription, in every
-- state that follows the answers to its requests for a state and a token, to its subscribe command, and
-- to the requests and commands of its token refresh do nothing.
pub session-over :
    (apply_delta : ApplyDelta) (w₀ w w' : World) (pool pool' : List Suspended)
    → Reaches apply_delta w₀ w pool
    → Follows apply_delta w pool w' pool'
    → (i attempt : ℕ) → attempt < (w.sub i).attempt
    → (connection : ℕ) (channel : Channel) (answer : Answer)
    → (state_answered i attempt connection answer w' ≡ done false w')
      × (sub_token_answered apply_delta i attempt connection answer w' ≡ done true w')
      × (subscribe_answered apply_delta i attempt connection answer w' ≡ done true w')
      × (sub_refresh_token_answered i channel attempt connection answer w' ≡ done tt w')
      × (sub_refresh_answered i attempt connection answer w' ≡ done tt w')
unfolding session_current
session-over apply_delta w₀ w w' pool pool' r f i attempt l connection channel answer =
    let past =
      passed attempt (w.sub i).attempt (w'.sub i).attempt l
        ((Follows-Later apply_delta w₀ w w' pool pool' r f).attempts i) in
    let (t, c) = subscribe-stale apply_delta i attempt connection answer w' (rw past refl) in
    let (u, d) = sub_refresh-stale i channel attempt connection answer w' (rw past refl) in
    (state_answered-passed i attempt connection answer w' past, t, c, u, d)

do_disconnect-passes :
    (code : ℕ) (reason : Reason) (reconnect : Bool) (w : World)
    → is_disconnected w.state ≡ false
    → Grows (mark (tear_down code reconnect w)) (do_disconnect code reason reconnect w)
unfolding do_disconnect
do_disconnect-passes code reason reconnect w e =
    let w₁ = tear_down code reconnect w in
    Grows-else (is_disconnected w.state) (pass w) _ e (
      Grows-bind _
        (Grows-choose (is_connected w.state) (clear_connected_state w₁.transition) pass
          (clear_connected_state-Grows w₁.transition (mark w₁) w₁ (Later-refl (mark w₁)))
          (grown (Later-refl (mark w₁))))
        (λ _ m w' l. search (growth, emit_teardown_event-Grows, Later-schedule_reconnect) depth 8))

-- After a teardown of a client in a reachable state that is not disconnected, in every state that follows, no attempt to
-- connect and no connection that began before it is current.
pub do_disconnect-over :
    (apply_delta : ApplyDelta) (w₀ w w' : World) (pool pool' : List Suspended) (code : ℕ)
    (reason : Reason) (reconnect : Bool)
    → Reaches apply_delta w₀ w pool
    → is_disconnected w.state ≡ false
    → Follows apply_delta
        (left (do_disconnect code reason reconnect w))
        (held (do_disconnect code reason reconnect w) pool)
        w'
        pool'
    → (attempt : ℕ) → attempt ≤ w.transport_id
    → (attempt_current attempt w' ≡ false) × (connection_current attempt w' ≡ false)
do_disconnect-over apply_delta w₀ w w' pool pool' code reason reconnect r e f attempt l =
    let (l₁, gs) =
      Grows-left pool (do_disconnect-passes code reason reconnect w e) (follows_lem tt r).1 in
    let (l₂, _) = follows_lem gs f in
    let past =
      passed attempt (w.transport_id + 1) w'.transport_id (omega (arith, l))
        (omega (arith, transport_id-tear_down code reconnect w, l₁.connections, l₂.connections)) in
    (first_false _ _ past, first_false _ _ past)
