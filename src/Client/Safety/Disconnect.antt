-- ===== src/Client/Safety/Disconnect.antt =====
-- The invariant through `_disconnect` and `_send_commands` (centrifuge/client.py).
use centrifuge_python.Base.{
  ℕ, Bool, true, false, not, ◌≡◌, Option, none, some, List, [], ◌∷◌, ◌==◌, Bool-cases, inl, inr,
  ◌&&◌, arith, ◌+◌, ◌<◌,
}
use centrifuge_python.Client.World.{
  backoff, World, ClientState, disconnected, connecting, connected, Command, excepted, get,
}
use centrifuge_python.Client.Safety.Sound.{Idle, Sound, Sound-enter_all}
use centrifuge_python.Client.Teardown.{
  is_connecting, is_connected, is_disconnected, schedule_reconnect, tear_down,
  clear_connected_state, announce_moved, announce_server, emit_teardown_event, do_disconnect,
  send_commands, values, enter_all, after_send, send_over, is_conn,
}
use centrifuge_python.Client.Safety.Ending.{Sound-complete, tear_down-Idle}
use centrifuge_python.Client.Coroutine.{
  opened, token_of, position_of, replied, returned, raised, cancelled, Answer, ends, waits, pass,
  connection_closed, protocol_error,
}
use centrifuge_python.Events.{Reason, Error, Channel}
use centrifuge_python.Client.Subscription.{is_subscribing}
use centrifuge_python.Client.Commands.{future_error, keys}
use centrifuge_python.Client.Safety.Rules.{Keeps, Safe-bind, Safe-if, Keeps-if}

exclusive : (s : ClientState) → is_connecting s ≡ true → is_disconnected s ≡ true → ⊥
exclusive disconnected c d = ground arith
exclusive connecting c d = ground arith
exclusive connected c d = ground arith

Sound-tear_down :
    (code : ℕ) (reconnect : Bool) (w : World) → Sound w → Sound (tear_down code reconnect w)
Sound-tear_down code reconnect w s =
    let (idle, routed) = tear_down-Idle code reconnect w s in (λ _. idle, routed)

pub Sound-connecting :
    (w : World) → is_connecting w.state ≡ true → (is_disconnected w.state ≡ true → Idle w)
Sound-connecting w c d = elim (exclusive w.state c d) [ ]

pub Sound-schedule_reconnect : (w : World) → Sound w → Sound (schedule_reconnect w)
unfolding schedule_reconnect
Sound-schedule_reconnect w (q, r) = elim (Bool-cases (is_connecting w.state)) [
  | inl e ↦
      rw (e, schedule_reconnect)
        (
          Sound-connecting
              (record w {
                reconnect_timer = some (backoff w.reconnect_attempts);
                reconnect_attempts = w.reconnect_attempts + 1;
              })
              e,
          r,
        )
  | inr e ↦ rw (e, schedule_reconnect) (q, r)
]

announce_moved-Keeps : (moved : List (ℕ × ℕ)) → Keeps Sound (announce_moved moved)
unfolding announce_moved
announce_moved-Keeps [] w s = ends s
announce_moved-Keeps ((i, attempt) ∷ moved) w s =
    Safe-bind _
      (Safe-if ((w.sub i).attempt == attempt && is_subscribing (w.sub i).state)
        (λ _. waits s (λ ans w' s'. ends s')) (ends s))
      (λ _. announce_moved-Keeps moved)

announce_server-Keeps :
    (transition : ℕ) (channels : List Channel) → Keeps Sound (announce_server transition channels)
unfolding announce_server
announce_server-Keeps transition [] w s = ends s
announce_server-Keeps transition (channel ∷ channels) w s =
    Safe-if (w.transition == transition)
      (λ _. waits s (λ ans. announce_server-Keeps transition channels)) (ends s)

unregistered :
    (id i : ℕ) → get {V = ℕ} id [] ≡ some i → (0 < id) × ((w : World) → (w.sub i).push_id ≡ id)
unfolding get
unregistered id i g = ground arith

clear_connected_state-Keeps : (transition : ℕ) → Keeps Sound (clear_connected_state transition)
unfolding clear_connected_state
clear_connected_state-Keeps transition w (q, r) =
    let moved = enter_all (values w.subs) (record w { subs_by_id = [] }) in
    Safe-bind _
      (announce_moved-Keeps moved.1 moved.0 (
        Sound-enter_all (values w.subs) (record w { subs_by_id = [] })
          (q, ((λ id i g. ((unregistered id i g).0, (unregistered id i g).1 w)), r.1))))
      (λ _ w' s'. announce_server-Keeps transition (keys w'.server_subs) w' s')

emit_teardown_event-Keeps :
    (code : ℕ) (reason : Reason) (reconnect : Bool) (previous : ClientState)
    → Keeps Sound (emit_teardown_event code reason reconnect previous)
unfolding emit_teardown_event
emit_teardown_event-Keeps code reason false previous w s = waits s (λ ans w' s'. ends s')
emit_teardown_event-Keeps code reason true connected w s = waits s (λ ans w' s'. ends s')
emit_teardown_event-Keeps code reason true connecting w s = ends s
emit_teardown_event-Keeps code reason true disconnected w s = ends s

pub do_disconnect-Keeps :
    (code : ℕ) (reason : Reason) (reconnect : Bool)
    → Keeps Sound (do_disconnect code reason reconnect)
unfolding do_disconnect
do_disconnect-Keeps code reason reconnect w s =
    Safe-if (is_disconnected w.state) (λ _. ends s)
      (Safe-bind _
        (Keeps-if (is_connected w.state)
          (clear_connected_state (tear_down code reconnect w).transition) pass
          (tear_down code reconnect w)
          (clear_connected_state-Keeps _ _ (Sound-tear_down code reconnect w s))
          (ends (Sound-tear_down code reconnect w s)))
        (λ _ w' s'.
          Safe-if (w'.transition == (tear_down code reconnect w).transition)
            (λ _.
              Safe-bind _ (emit_teardown_event-Keeps code reason reconnect w.state w' s')
                (λ _ w₂ s₂.
                  Safe-if (w₂.transition == (tear_down code reconnect w).transition && reconnect)
                    (λ _. ends (Sound-schedule_reconnect w₂ s₂)) (ends s₂)))
            (ends s')))

pub Sound-future_error :
    (cmd_id : ℕ) (error : Error) (w : World) → Sound w → Sound (future_error cmd_id error w)
unfolding future_error
Sound-future_error cmd_id error w s = Sound-complete cmd_id (excepted error) w s

after_send-Keeps : (c : ℕ) (answer : Answer) → Keeps Sound (after_send c answer)
unfolding after_send
after_send-Keeps c connection_closed w s =
    Safe-if (is_conn c w) (λ _. do_disconnect-Keeps _ _ true w s) (ends s)
after_send-Keeps c protocol_error w s =
    Safe-if (is_conn c w) (λ _. waits s (λ ans. do_disconnect-Keeps _ _ true)) (ends s)
after_send-Keeps c returned w s = ends s
after_send-Keeps c (raised error) w s = ends s
after_send-Keeps c cancelled w s = ends s
after_send-Keeps c (token_of token) w s = ends s
after_send-Keeps c (position_of position) w s = ends s
after_send-Keeps c (opened conn) w s = ends s
after_send-Keeps c (replied reply) w s = ends s

send_over-Keeps :
    (conn : Option ℕ) (cmd_id : ℕ) (command : Command) → Keeps Sound (send_over conn cmd_id command)
unfolding send_over
send_over-Keeps none cmd_id command w s =
    Safe-if (not (cmd_id == 0))
      (λ _. ends (Sound-future_error cmd_id Error.client_disconnected w s)) (ends s)
send_over-Keeps (some c) cmd_id command w s = waits s (λ answer. after_send-Keeps c answer)

pub send_commands-Keeps :
    (cmd_id : ℕ) (command : Command) → Keeps Sound (send_commands cmd_id command)
unfolding send_commands
send_commands-Keeps cmd_id command w = send_over-Keeps w.conn cmd_id command w
