-- ===== src/Client/Undisturbed.antt =====
-- Methods that run to their end with no other code between their steps (centrifuge/client.py): the calls
-- that they wait for, the handlers of the app included, return and change nothing, whatever they answer.
pub mod Flow
pub mod Ends
pub mod Refused
use centrifuge_python.Client.Connecting.{reconnect, connect_answered}
use centrifuge_python.Client.Coroutine.{
  ends, raised, when, pass, update, Co, done, Step, bind, Answer, wait,
}
use centrifuge_python.Events.{Error, Text, Reason, Channel}
use centrifuge_python.Client.Messages.{fail_connection_attempt}
use centrifuge_python.Client.Teardown.{
  attempt_current, values, clear_connected_state, is_connected, announce_moved, schedule_reconnect,
  announce_server, tear_down, is_connecting, is_disconnected, enter_all, emit_teardown_event,
  do_disconnect,
}
use centrifuge_python.Client.Safety.Ending.{tear_down-Idle}
use centrifuge_python.Client.World.{
  backoff, connecting, disconnected, World, ClientState, modify_sub, connected,
}
use centrifuge_python.Client.Commands.{keys}
use centrifuge_python.Client.Subscription.{enter_subscribing, is_subscribing}
use centrifuge_python.Client.Safety.Sound.{Sound, Idle}
use centrifuge_python.Base.{
  ℕ, ◌≡◌, refl, ap, Bool, true, false, ◌&&◌, none, some, List, [], ◌∷◌, ◌==◌, if◌then◌else◌, arith,
}

-- `J` holds at the end.
abbrev pub Settles : (World → Type 0) → {A : Type 0} → Step A → Type 0
Settles J (done a w) = J w
Settles J (wait c w k) = (ans : Answer) → Settles J (k ans w)

pub Settles-bind :
    (I J : World → Type 0) {A B : Type 0} (m : Step A) (f : A → Co B)
    → Settles I m
    → ((a : A) (w : World) → I w → Settles J (f a w))
    → Settles J (bind m f)
Settles-bind I J (done a w) f i g = g a w i
Settles-bind I J (wait c w k) f i g = λ ans. Settles-bind I J (k ans w) f (i ans) g

Settles-if :
    (J : World → Type 0) {A : Type 0} (b : Bool) (m n : Step A)
    → (b ≡ true → Settles J m)
    → (b ≡ false → Settles J n)
    → Settles J (if b then m else n)
Settles-if J true m n p q = p refl
Settles-if J false m n p q = q refl

-- After a teardown to the state `s`, which made it the transition `t`.
abbrev TornDown : ClientState → ℕ → World → Type 0
TornDown s t w = (w.state ≡ s) × (w.transition ≡ t) × Idle w

announce_moved-TornDown :
    {s : ClientState} {t : ℕ} (moved : List (ℕ × ℕ)) (w : World)
    → TornDown s t w
    → Settles (TornDown s t) (announce_moved moved w)
unfolding announce_moved
announce_moved-TornDown [] w d = d
announce_moved-TornDown {s} {t} ((i, attempt) ∷ moved) w d =
    Settles-bind (TornDown s t) (TornDown s t) _ _
      (Settles-if (TornDown s t) ((w.sub i).attempt == attempt && is_subscribing (w.sub i).state) _
        _ (λ _ ans. d) (λ _. d))
      (λ _ w' d'. announce_moved-TornDown moved w' d')

announce_server-TornDown :
    {s : ClientState} {t : ℕ} (transition : ℕ) (channels : List Channel) (w : World)
    → TornDown s t w
    → Settles (TornDown s t) (announce_server transition channels w)
unfolding announce_server
announce_server-TornDown transition [] w d = d
announce_server-TornDown {s} {t} transition (channel ∷ channels) w d =
    Settles-if (TornDown s t) (w.transition == transition) _ _
      (λ _ ans. announce_server-TornDown transition channels _ d) (λ _. d)

enter_all-TornDown :
    {s : ClientState} {t : ℕ} (is : List ℕ) (w : World)
    → TornDown s t w
    → TornDown s t ((enter_all is w).0)
unfolding enter_all modify_sub
enter_all-TornDown [] w d = d
enter_all-TornDown (i ∷ is) w d = enter_all-TornDown is (modify_sub i enter_subscribing w) d

clear_connected_state-TornDown :
    {s : ClientState} {t : ℕ} (transition : ℕ) (w : World)
    → TornDown s t w
    → Settles (TornDown s t) (clear_connected_state transition w)
unfolding clear_connected_state
clear_connected_state-TornDown {s} {t} transition w d =
    let moved = enter_all (values w.subs) (record w { subs_by_id = [] }) in
    Settles-bind (TornDown s t) (TornDown s t) _ _
      (announce_moved-TornDown moved.1 moved.0
        (enter_all-TornDown (values w.subs) (record w { subs_by_id = [] }) d))
      (λ _ w' d'. announce_server-TornDown transition (keys w'.server_subs) w' d')

emit_teardown_event-TornDown :
    {s : ClientState} {t : ℕ} (code : ℕ) (reason : Reason) (reconnect : Bool)
    (previous : ClientState) (w : World)
    → TornDown s t w
    → Settles (TornDown s t) (emit_teardown_event code reason reconnect previous w)
unfolding emit_teardown_event
emit_teardown_event-TornDown code reason false previous w d = λ ans. d
emit_teardown_event-TornDown code reason true connected w d = λ ans. d
emit_teardown_event-TornDown code reason true connecting w d = d
emit_teardown_event-TornDown code reason true disconnected w d = d

same : (t n : ℕ) → t ≡ n → (t == n) ≡ true
same t n e = ground (arith, e)

clash : (b : Bool) → b ≡ true → b ≡ false → ⊥
clash b e f = ground (arith, e, f)

and_false : (b : Bool) → (b && false) ≡ false
and_false b = ground arith

-- `_disconnect` from its teardown on, up to the reconnect.
torn :
    {s : ClientState} (code : ℕ) (reconnect : Bool) (w : World)
    → (tear_down code reconnect w).state ≡ s
    → Sound w
    → TornDown s (tear_down code reconnect w).transition (tear_down code reconnect w)
torn code reconnect w e sound = (e, refl, (tear_down-Idle code reconnect w sound).0)

cleared :
    {s : ClientState} (b : Bool) (t : ℕ) (w : World)
    → TornDown s t w
    → Settles (TornDown s t) ((if b then clear_connected_state t else pass) w)
cleared true t w d = clear_connected_state-TornDown t w d
cleared false t w d = d

-- The client waits for its next attempt to connect.
abbrev pub Reconnecting : World → Type 0
Reconnecting w =
    (w.state ≡ connecting)
    × (w.conn ≡ none)
    × (w.inflight_commands ≡ [])
    × ((n : ℕ) × (w.reconnect_timer ≡ some (backoff n)))

schedule_reconnect-Reconnecting :
    {t : ℕ} (w : World) → TornDown connecting t w → Reconnecting (schedule_reconnect w)
unfolding schedule_reconnect
schedule_reconnect-Reconnecting w (e, t, (c, o, f, r, i)) =
    rw (ap is_connecting e, schedule_reconnect) (e, c, i, (w.reconnect_attempts, refl))

scheduled :
    (t : ℕ) (w : World)
    → TornDown connecting t w
    → Settles Reconnecting (when (λ v. v.transition == t && true) (update schedule_reconnect) w)
scheduled t w d = rw (same w.transition t d.1) (schedule_reconnect-Reconnecting w d)

-- `_disconnect` of a client that is not disconnected, with what it comes to after its handlers.
do_disconnect-Settles :
    (J : World → Type 0) {s : ClientState} (code : ℕ) (reason : Reason) (reconnect : Bool)
    (w : World)
    → (tear_down code reconnect w).state ≡ s
    → ((w' : World)
        → TornDown s (tear_down code reconnect w).transition w'
        → Settles J (
            when
              (λ v. v.transition == (tear_down code reconnect w).transition && reconnect)
              (update schedule_reconnect)
              w'))
    → Sound w
    → is_disconnected w.state ≡ false
    → Settles J (do_disconnect code reason reconnect w)
unfolding do_disconnect
do_disconnect-Settles J {s} code reason reconnect w at_end finish sound e =
    let t = (tear_down code reconnect w).transition in
    rw (e, do_disconnect)
      (Settles-bind (TornDown s t) J _ _
        (cleared (is_connected w.state) t (tear_down code reconnect w)
          (torn code reconnect w at_end sound))
        (λ _ w' d'.
          Settles-if J (w'.transition == t) _ _
            (λ _.
              Settles-bind (TornDown s t) J _ _
                (emit_teardown_event-TornDown code reason reconnect w.state w' d') (λ _. finish))
            (λ f. elim (clash (w'.transition == t) (same w'.transition t d'.1) f) [ ])))

-- A client in a sound state that is not disconnected and drops its connection, with no other code between
-- the steps and handlers that return and change nothing, ends connecting, without a transport or a command
-- in flight, and with a timer that starts the next attempt.
pub do_disconnect-Reconnecting :
    (code : ℕ) (reason : Reason) (w : World)
    → Sound w
    → is_disconnected w.state ≡ false
    → Settles Reconnecting (do_disconnect code reason true w)
unfolding tear_down
do_disconnect-Reconnecting code reason w =
    do_disconnect-Settles Reconnecting code reason true w refl
      (scheduled (tear_down code true w).transition)

-- The client has stopped: it has no transport, no timer and no command in flight.
abbrev pub Stopped : World → Type 0
Stopped w = (w.state ≡ disconnected) × Idle w

unscheduled :
    (t : ℕ) (w : World)
    → TornDown disconnected t w
    → Settles Stopped (when (λ v. v.transition == t && false) (update schedule_reconnect) w)
unscheduled t w (e, _, d) = rw (and_false (w.transition == t)) (e, d)

pub do_disconnect-Stopped :
    (code : ℕ) (reason : Reason) (w : World)
    → Sound w
    → is_disconnected w.state ≡ false
    → Settles Stopped (do_disconnect code reason false w)
unfolding tear_down
do_disconnect-Stopped code reason w =
    do_disconnect-Settles Stopped code reason false w refl
      (unscheduled (tear_down code false w).transition)

-- The current attempt of a client in a sound state whose connect command raises, whatever the error is,
-- ends, with no other code between the steps and handlers that return and change nothing, connecting,
-- without a transport or a command in flight, and with a timer that starts the next attempt.
pub connect_answered-Reconnecting :
    (attempt : ℕ) (sent_token : Text) (error : Error) (w : World)
    → Sound w
    → attempt_current attempt w ≡ true
    → Settles Reconnecting (connect_answered attempt sent_token (raised error) w)
unfolding connect_answered fail_connection_attempt
connect_answered-Reconnecting attempt sent_token error w sound e =
    rw (e, connect_answered)
      (λ ans.
        rw (e, fail_connection_attempt)
          (do_disconnect-Reconnecting _ _ _ sound (ground (arith, e))))
