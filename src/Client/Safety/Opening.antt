-- ===== src/Client/Safety/Opening.antt =====
-- The invariant through `connect` and `_connection_attempt` (centrifuge/client.py).
use centrifuge_python.Client.Connecting.{
  submit_connect, connect_replied, connect_answered, start_listening, send_connect,
  forget_open_task, transport_answered, open_connection, token_answered, obtain_token,
  has_transport, is_open_task, connection_attempt, start_attempt, connect,
}
use centrifuge_python.Client.Commands.{construct_connect_command, register_future, next_command_id}
use centrifuge_python.Client.World.{
  ConnectRequest, World, ClientState, disconnected, connecting, connected, ConnectResult,
  ReplyError,
}
use centrifuge_python.Client.Safety.Sound.{Sound-issue, Sound, Consistent}
use centrifuge_python.Base.{
  ℕ, Bool, true, false, not, ◌+◌, ◌≡◌, refl, Option, none, some, ◌==◌, if◌then◌else◌, ◌&&◌, ◌||◌,
  arith, ◌≤◌,
}
use centrifuge_python.Client.Safety.Subscriptions.{Sound-register}
use centrifuge_python.Events.{Text, empty_text}
use centrifuge_python.Client.Coroutine.{
  Answer, Safe, ends, waits, returned, raised, cancelled, connection_closed, protocol_error,
  token_of, position_of, opened, replied,
}
use centrifuge_python.Client.Teardown.{
  is_disconnected, is_connecting, attempt_current, close_transport, stop_transport_tasks,
}
use centrifuge_python.Client.Safety.Rules.{Keeps, Safe-bind, Safe-if}
use centrifuge_python.Client.Safety.Ending.{Sound-if, close_transport-rest}
use centrifuge_python.Client.Safety.Disconnect.{
  do_disconnect-Keeps, send_commands-Keeps, Sound-schedule_reconnect, Sound-connecting,
}
use centrifuge_python.Client.Safety.Pushes.{fail_connection_attempt-Keeps}
use mathlib.Core.Path.{subst, sym}
use centrifuge_python.Client.Safety.Attempts.{
  connect_rejected-Keeps, connect_token_failed-Keeps, on_connect_reply-Keeps,
}

connect_replied-Keeps :
    (attempt : ℕ) (sent_token : Text) (error : Option ReplyError) (result : Option ConnectResult)
    → Keeps Sound (connect_replied attempt sent_token error result)
unfolding connect_replied
connect_replied-Keeps attempt sent_token (some error) result w s =
    connect_rejected-Keeps attempt sent_token error w s
connect_replied-Keeps attempt sent_token none (some result) w s =
    on_connect_reply-Keeps result attempt w s
connect_replied-Keeps attempt sent_token none none w s = fail_connection_attempt-Keeps attempt w s

connect_answered-Keeps :
    (attempt : ℕ) (sent_token : Text) (answer : Answer)
    → Keeps Sound (connect_answered attempt sent_token answer)
unfolding connect_answered
connect_answered-Keeps attempt sent_token (raised error) w s =
    Safe-if (attempt_current attempt w)
      (λ _. waits s (λ ans. fail_connection_attempt-Keeps attempt)) (ends s)
connect_answered-Keeps attempt sent_token (replied reply) w s =
    Safe-if (attempt_current attempt w)
      (λ _. connect_replied-Keeps attempt sent_token reply.error reply.connect w s) (ends s)
connect_answered-Keeps attempt sent_token returned w s = ends s
connect_answered-Keeps attempt sent_token cancelled w s = ends s
connect_answered-Keeps attempt sent_token connection_closed w s = ends s
connect_answered-Keeps attempt sent_token protocol_error w s = ends s
connect_answered-Keeps attempt sent_token (token_of token) w s = ends s
connect_answered-Keeps attempt sent_token (position_of position) w s = ends s
connect_answered-Keeps attempt sent_token (opened conn) w s = ends s

-- The test of an attempt gives the state.
current_connecting :
    (attempt : ℕ) (w : World) → attempt_current attempt w ≡ true → is_connecting w.state ≡ true
current_connecting attempt w e = ground (arith, e)

not_disconnected' : (s : ClientState) → is_connecting s ≡ true → is_disconnected s ≡ false
not_disconnected' disconnected c = ground arith
not_disconnected' connecting c = refl
not_disconnected' connected c = refl

submit_connect-Safe :
    (attempt cmd_id : ℕ) (sent_token : Text) (request : Option ConnectRequest) (w : World)
    → is_disconnected w.state ≡ false
    → cmd_id ≤ w.command_id
    → Sound w
    → Safe Sound (submit_connect attempt cmd_id sent_token request w)
unfolding submit_connect
submit_connect-Safe attempt cmd_id sent_token none w e l s =
    fail_connection_attempt-Keeps attempt w s
submit_connect-Safe attempt cmd_id sent_token (some request) w e l s =
    Safe-bind _
      (send_commands-Keeps _ _ (register_future true w.timeout cmd_id w)
        (Sound-register true w.timeout cmd_id w e l s))
      (λ _ w₂ s₂. waits s₂ (λ answer. connect_answered-Keeps attempt _ answer))

send_connect-Keeps :
    (attempt conn : ℕ) (w : World)
    → is_connecting w.state ≡ true
    → Sound w
    → Safe Sound (send_connect attempt conn w)
unfolding send_connect next_command_id
send_connect-Keeps attempt conn w c (q, r) =
    let w' = record (start_listening conn attempt w) { command_id = w.command_id + 1 } in
    submit_connect-Safe attempt (w.command_id + 1) w.token (construct_connect_command w') w'
      (not_disconnected' w.state c) (omega arith)
      (Sound-issue (start_listening conn attempt w)
        (Sound-connecting (start_listening conn attempt w) c, r))

Sound-no_task : (w : World) → Sound w → Sound (record w { open_task = none })
Sound-no_task w (q, r) = ((λ d. (let (c, t, f, n, e) = q d in (c, refl, f, n, e))), r)

Sound-forget_open_task : (attempt : ℕ) (w : World) → Sound w → Sound (forget_open_task attempt w)
unfolding forget_open_task
Sound-forget_open_task attempt w s =
    Sound-if (is_open_task attempt w) (record w { open_task = none }) w (Sound-no_task w s) s

not_opened :
    (attempt : ℕ) (w : World) → Sound w → Safe Sound (transport_answered attempt returned w)
unfolding transport_answered
not_opened attempt w s =
    let w' = forget_open_task attempt w in
    let s' = Sound-forget_open_task attempt w s in
    Safe-if (attempt_current attempt w')
      (λ _. waits s' (λ ans w₂ s₂.
        Safe-if (attempt_current attempt w₂) (λ _. ends (Sound-schedule_reconnect w₂ s₂))
          (ends s₂)))
      (ends s')

transport_answered-Keeps :
    (attempt : ℕ) (answer : Answer) → Keeps Sound (transport_answered attempt answer)
unfolding transport_answered
transport_answered-Keeps attempt cancelled w s = ends s
transport_answered-Keeps attempt (opened conn) w s =
    let w' = forget_open_task attempt w in
    let s' = Sound-forget_open_task attempt w s in
    Safe-if (attempt_current attempt w')
      (λ e. send_connect-Keeps attempt conn w' (current_connecting attempt w' e) s') (ends s')
transport_answered-Keeps attempt returned w s = not_opened attempt w s
transport_answered-Keeps attempt (raised error) w s = not_opened attempt w s
transport_answered-Keeps attempt connection_closed w s = not_opened attempt w s
transport_answered-Keeps attempt protocol_error w s = not_opened attempt w s
transport_answered-Keeps attempt (token_of token) w s = not_opened attempt w s
transport_answered-Keeps attempt (position_of position) w s = not_opened attempt w s
transport_answered-Keeps attempt (replied reply) w s = not_opened attempt w s

open_connection-Keeps :
    (attempt : ℕ) (w : World)
    → is_connecting w.state ≡ true
    → Sound w
    → Safe Sound (open_connection attempt w)
unfolding open_connection
open_connection-Keeps attempt w c (q, r) =
    waits (Sound-connecting (record w { open_task = some attempt }) c, r)
      (λ answer. transport_answered-Keeps attempt answer)

token_answered-Keeps : (attempt : ℕ) (answer : Answer) → Keeps Sound (token_answered attempt answer)
unfolding token_answered
token_answered-Keeps attempt (token_of token) w s =
    Safe-if (attempt_current attempt w)
      (λ e.
        open_connection-Keeps attempt (record w { token = token; refresh_required = false })
          (current_connecting attempt w e) s)
      (ends s)
token_answered-Keeps attempt (raised error) w s = connect_token_failed-Keeps attempt error w s
token_answered-Keeps attempt returned w s = connect_token_failed-Keeps attempt _ w s
token_answered-Keeps attempt cancelled w s = connect_token_failed-Keeps attempt _ w s
token_answered-Keeps attempt connection_closed w s = connect_token_failed-Keeps attempt _ w s
token_answered-Keeps attempt protocol_error w s = connect_token_failed-Keeps attempt _ w s
token_answered-Keeps attempt (position_of position) w s = connect_token_failed-Keeps attempt _ w s
token_answered-Keeps attempt (opened conn) w s = connect_token_failed-Keeps attempt _ w s
token_answered-Keeps attempt (replied reply) w s = connect_token_failed-Keeps attempt _ w s

start_attempt-Keeps :
    (attempt : ℕ) (w : World)
    → is_connecting w.state ≡ true
    → Sound w
    → Safe Sound (start_attempt attempt w)
unfolding start_attempt obtain_token
start_attempt-Keeps attempt w c s =
    Safe-if (w.refresh_required && not w.has_get_token)
      (λ _. waits s (λ ans w' s'.
        Safe-if (attempt_current attempt w') (λ _. do_disconnect-Keeps _ _ false w' s') (ends s')))
      (Safe-if (w.has_get_token && (w.refresh_required || w.token == empty_text))
        (λ _. waits s (λ answer. token_answered-Keeps attempt answer))
        (open_connection-Keeps attempt w c s))

still_connecting :
    (b : Bool) (w : World)
    → is_connecting w.state ≡ true
    → is_connecting (if b then close_transport (stop_transport_tasks w) else w).state ≡ true
unfolding stop_transport_tasks
still_connecting true w c =
    rw (close_transport-rest (record w { listen_task = false; process_messages_task = false })) c
still_connecting false w c = c

Consistent-still :
    (b : Bool) (w : World)
    → Consistent w
    → Consistent (if b then close_transport (stop_transport_tasks w) else w)
unfolding stop_transport_tasks
Consistent-still true w r =
    subst (λ v. Consistent v)
      (sym (close_transport-rest (record w { listen_task = false; process_messages_task = false })))
      r
Consistent-still false w r = r

pub connection_attempt-Keeps : Keeps Sound connection_attempt
unfolding connection_attempt
connection_attempt-Keeps w (q, r) =
    Safe-if (is_connecting w.state)
      (λ c.
        (let w₁ = record w { transport_id = w.transport_id + 1 } in
          let w₂ = if has_transport w₁ then close_transport (stop_transport_tasks w₁) else w₁ in
          let c₂ = still_connecting (has_transport w₁) w₁ c in
          start_attempt-Keeps (w.transport_id + 1) w₂ c₂
            (Sound-connecting w₂ c₂, Consistent-still (has_transport w₁) w₁ r)))
      (ends (q, r))

connecting_busy : is_disconnected connecting ≡ true → ⊥
connecting_busy d = ground arith

pub connect-Keeps : Keeps Sound connect
unfolding connect
connect-Keeps w (q, r) =
    Safe-if (is_disconnected w.state)
      (λ _.
        waits ((λ d. elim (connecting_busy d) [ ]), r)
          (λ ans w' s'.
            Safe-if (w'.transition == w.transition + 1 && is_connecting w'.state) (λ _. ends s')
              (ends s')))
      (ends (q, r))
