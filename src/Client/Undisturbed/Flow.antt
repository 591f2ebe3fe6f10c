-- ===== src/Client/Undisturbed/Flow.antt =====
-- A subscribe flow that runs to its end with no other code between its steps (centrifuge/client.py).
use centrifuge_python.Client.Undisturbed.{
  Settles-bind, do_disconnect-Reconnecting, Reconnecting, Settles,
}
use centrifuge_python.Client.World.{Subscription, backoff, modify_sub, World, subscribing}
use centrifuge_python.Client.Safety.Sound.{Sound}
use centrifuge_python.Client.Publications.{ApplyDelta}
use centrifuge_python.Events.{Error}
use centrifuge_python.Client.Coroutine.{raised}
use centrifuge_python.Client.Subscribing.{
  subscribe_answered, is_client_disconnected, subscribe_failed, subscribe_current,
}
use centrifuge_python.Client.Subscription.{is_subscribing, schedule_resubscribe}
use centrifuge_python.Client.Moves.{is_timeout}
use centrifuge_python.Client.Teardown.{is_disconnected}
use centrifuge_python.Base.{
  ℕ, ◌≡◌, refl, ◌∙◌, ap, Bool, true, false, not, ◌&&◌, some, ◌==◌, if◌then◌else◌, arith, Bool-cases,
  inl, inr,
}

-- The subscription waits for its next attempt to subscribe.
abbrev pub Resubscribing : ℕ → World → Type 0
Resubscribing i w =
    ((w.sub i).state ≡ subscribing) × ((n : ℕ) × ((w.sub i).resubscribe_timer ≡ some (backoff n)))

flow_subscribing :
    (i attempt connection : ℕ) (w : World)
    → subscribe_current i attempt connection w ≡ true
    → (w.sub i).state ≡ subscribing
flow_subscribing i attempt connection w e = ground (arith, e)

flow_connected :
    (i attempt connection : ℕ) (w : World)
    → subscribe_current i attempt connection w ≡ true
    → is_disconnected w.state ≡ false
flow_connected i attempt connection w e = ground (arith, e)

itself : (i : ℕ) → (i == i) ≡ true
itself i = ground arith

sub-modify_sub :
    (i : ℕ) (f : Subscription → Subscription) (w : World) → (modify_sub i f w).sub i ≡ f (w.sub i)
unfolding modify_sub
sub-modify_sub i f w = rw (itself i) refl

state-schedule_resubscribe :
    (s : Subscription) → s.state ≡ subscribing → (schedule_resubscribe s).state ≡ subscribing
unfolding schedule_resubscribe
state-schedule_resubscribe s e = rw (ap is_subscribing e, schedule_resubscribe) e

timer-schedule_resubscribe :
    (s : Subscription)
    → s.state ≡ subscribing
    → (schedule_resubscribe s).resubscribe_timer ≡ some (backoff s.resubscribe_attempts)
unfolding schedule_resubscribe
timer-schedule_resubscribe s e = rw (ap is_subscribing e, schedule_resubscribe) refl

schedule_resubscribe-Resubscribing :
    (i : ℕ) (w : World)
    → (w.sub i).state ≡ subscribing
    → Resubscribing i (modify_sub i schedule_resubscribe w)
schedule_resubscribe-Resubscribing i w e =
    let same_sub = sub-modify_sub i schedule_resubscribe w in
    (
      ap (λ s. s.state) same_sub ∙ state-schedule_resubscribe (w.sub i) e,
      (
        (w.sub i).resubscribe_attempts,
        ap (λ s. s.resubscribe_timer) same_sub ∙ timer-schedule_resubscribe (w.sub i) e,
      ),
    )

current_and : (b c : Bool) → b ≡ false → c ≡ true → (not b && c) ≡ true
current_and b c e f = ground (arith, e, f)

-- The subscribe flow of the current attempt, in a sound state, whose command raises an error other than
-- the disconnect of the client ends, with no other code between the steps and handlers that return and
-- change nothing, with a timer for the next attempt: after a timeout the client drops the connection and waits to connect, after any other error
-- the subscription waits to subscribe.
pub subscribe_answered-retries :
    (apply_delta : ApplyDelta) (i attempt connection : ℕ) (error : Error) (w : World)
    → Sound w
    → subscribe_current i attempt connection w ≡ true
    → is_client_disconnected error ≡ false
    → Settles
        (if is_timeout error then Reconnecting else Resubscribing i)
        (subscribe_answered apply_delta i attempt connection (raised error) w)
unfolding subscribe_answered subscribe_failed
subscribe_answered-retries apply_delta i attempt connection error w sound e d =
    elim (Bool-cases (is_timeout error)) [
      | inl t ↦
          rw (current_and _ _ d e, subscribe_answered, subscribe_failed)
            (rw t (λ ans. rw e (
              Settles-bind Reconnecting Reconnecting _ _
                (do_disconnect-Reconnecting _ _ _ sound (flow_connected i attempt connection w e))
                (λ _ w' d'. d'))))
      | inr t ↦
          rw (current_and _ _ d e, subscribe_answered, subscribe_failed)
            (rw t (λ ans.
              schedule_resubscribe-Resubscribing i _ (flow_subscribing i attempt connection w e)))
    ]
