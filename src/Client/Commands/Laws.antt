-- ===== src/Client/Commands/Laws.antt =====
-- The life of a command (centrifuge/client.py): it is registered once and ends once.
use centrifuge_python.Client.Safety.Dicts.{get-put, get-delete, delete-missing}
use centrifuge_python.Client.Coroutine.{done}
use centrifuge_python.Events.{Error}
use centrifuge_python.Client.Safety.Ending.{settled, complete-settles}
use centrifuge_python.Client.Requests.{command_timeout}
use centrifuge_python.Client.Commands.{
  cancel_future, register_future, complete, future_success, future_error,
}
use centrifuge_python.Client.World.{World, Dict, delete, excepted, put, get, Outcome, Callback}
use mathlib.Core.Path.{sym}
use centrifuge_python.Base.{
  ℕ, ◌≡◌, refl, ◌∙◌, ap, ◌&&◌, Option-cases, inl, inr, Bool, false, true, none, some, [], ◌∷◌,
  arith,
}

get-delete_same : (k : ℕ) (d : Dict Callback) → get k (delete k d) ≡ none
get-delete_same k d = ground (arith, get-delete k k d)

-- A command that ended is not in flight.
get-complete : (k : ℕ) (o : Outcome) (w : World) → get k (complete k o w).inflight_commands ≡ none
get-complete k o w =
    ap (λ v. get k v.inflight_commands) (complete-settles k o w)
    ∙ get-delete_same k w.inflight_commands

complete-missing :
    (k : ℕ) (o : Outcome) (w : World) → get k w.inflight_commands ≡ none → complete k o w ≡ w
unfolding complete
complete-missing k o w e = rw (e, complete) refl

future_success-missing :
    (k : ℕ) (w : World) → get k w.inflight_commands ≡ none → future_success k w ≡ done tt w
unfolding future_success complete
future_success-missing k w e = rw (e, future_success, complete) refl

command_timeout-missing :
    (k : ℕ) (w : World) → get k w.inflight_commands ≡ none → command_timeout k w ≡ w
unfolding command_timeout
command_timeout-missing k w e = rw (e, command_timeout) refl

-- A command ends once: after its reply, its error or its timeout, a late reply, a second error and the
-- timer of its timeout change nothing.
pub complete-final :
    (k : ℕ) (o : Outcome) (e : Error) (w : World)
    → (future_success k (complete k o w) ≡ done tt (complete k o w))
      × (future_error k e (complete k o w) ≡ complete k o w)
      × (command_timeout k (complete k o w) ≡ complete k o w)
unfolding future_error
complete-final k o e w = (
  future_success-missing k (complete k o w) (get-complete k o w),
  complete-missing k (excepted e) (complete k o w) (get-complete k o w),
  command_timeout-missing k (complete k o w) (get-complete k o w),
)

get-put_same : (k : ℕ) (v : Callback) (d : Dict Callback) → get k (put k v d) ≡ some v
get-put_same k v d = ground (arith, get-put k k v d)

delete-put : (k : ℕ) (v : Callback) (d : Dict Callback) → delete k (put k v d) ≡ delete k d
unfolding delete put
delete-put k v [] = ground arith
delete-put k v ((i, x) ∷ d) = ground (arith, delete-put k v d)

-- A command that is registered and then ends is recorded with its outcome, and the commands in flight
-- are those of before, without an older one of the same id.
pub complete-register :
    (with_done timeout : Bool) (k : ℕ) (o : Outcome) (w : World)
    → complete k o (register_future with_done timeout k w)
      ≡ settled w (delete k w.inflight_commands) ((k, o) ∷ w.completed)
unfolding complete register_future
complete-register with_done timeout k o w =
    let cb : Callback = record { future_done = false; done = with_done; timeout = timeout } in
    rw (get-put_same k cb w.inflight_commands, complete)
      (ap (λ d. settled w d ((k, o) ∷ w.completed)) (delete-put k cb w.inflight_commands))

and_false : (b : Bool) → (b && false) ≡ false
and_false b = ground arith

-- What is left of a command that is cancelled and then ends.
complete-cancelled :
    (k : ℕ) (o : Outcome) (w : World)
    → complete k o (cancel_future k w) ≡ settled w (delete k w.inflight_commands) w.completed
unfolding complete cancel_future
complete-cancelled k o w = elim (Option-cases (get k w.inflight_commands)) [
  | inl e ↦
      rw (e, cancel_future)
        (rw (e, complete)
          (ap (λ d. settled w d w.completed) (sym (delete-missing k w.inflight_commands e))))
  | inr (cb, e) ↦
      let cb' : Callback = record cb { future_done = true } in
      rw (e, cancel_future)
        (rw (get-put_same k cb' w.inflight_commands, complete)
          (ap (λ d. settled w d w.completed) (delete-put k cb' w.inflight_commands)))
]

command_timeout-cancelled :
    (k : ℕ) (w : World) → command_timeout k (cancel_future k w) ≡ cancel_future k w
unfolding command_timeout cancel_future
command_timeout-cancelled k w = elim (Option-cases (get k w.inflight_commands)) [
  | inl e ↦ rw (e, cancel_future) (rw (e, command_timeout) refl)
  | inr (cb, e) ↦
      let cb' : Callback = record cb { future_done = true } in
      rw (e, cancel_future)
        (rw (get-put_same k cb' w.inflight_commands, command_timeout)
          (rw (and_false cb.timeout) refl))
]

-- A command whose awaiting coroutine was cancelled is not ended again: its reply or its error only takes
-- it from the commands in flight, which are then those of before without it, and the timer of its timeout
-- changes nothing, so that the command stays in flight until one of them or the end of the connection.
pub cancel_future-final :
    (k : ℕ) (o : Outcome) (w : World)
    → (complete k o (cancel_future k w) ≡ settled w (delete k w.inflight_commands) w.completed)
      × (command_timeout k (cancel_future k w) ≡ cancel_future k w)
cancel_future-final k o w = (complete-cancelled k o w, command_timeout-cancelled k w)
