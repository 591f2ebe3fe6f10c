-- ===== src/Client/Safety/Calls.antt =====
-- The invariant where a command is registered and sent, through the requests of the app and through
-- the timeout of a command (centrifuge/client.py).
use centrifuge_python.Client.Safety.Sound.{Idle, Sound-issue, Sound}
use centrifuge_python.Client.Commands.{
  cancel_future, register_future, future_error, next_command_id,
}
use centrifuge_python.Base.{
  Option-cases, ℕ, ◌+◌, Bool, true, false, not, ◌≡◌, sym, Option, none, some, [], ◌==◌,
  if◌then◌else◌, ◌&&◌, Bool-cases, inl, inr, arith, ap, ◌∙◌, ◌≤◌,
}
use centrifuge_python.Client.Safety.Subscriptions.{Issued-put, Sound-register}
use centrifuge_python.Client.Safety.Ending.{Issued-delete, Sound-if, complete-settles}
use mathlib.Core.Path.{subst}
use centrifuge_python.Client.World.{excepted, World, Command, Callback, get, put, delete}
use centrifuge_python.Events.{Error}
use centrifuge_python.Client.Coroutine.{Safe, ends, waits}
use centrifuge_python.Client.Teardown.{is_disconnected, send_commands, send_over}
use centrifuge_python.Client.Requests.{
  Response, gives, raises, ready, request_ready, request, send_request, command_timeout,
}
use centrifuge_python.Client.Safety.Rules.{Keeps, Safe-bind, Safe-if}
use centrifuge_python.Client.Safety.Disconnect.{send_commands-Keeps, Sound-future_error}

delete-put_nil : (k : ℕ) (cb : Callback) → delete k (put k cb []) ≡ []
unfolding delete put
delete-put_nil k cb = ground arith

-- A command that is registered while the client is disconnected is refused at once.
Sound-refused :
    (with_done timeout : Bool) (k : ℕ) (e : Error) (w : World)
    → Sound w
    → k ≤ w.command_id
    → is_disconnected w.state ≡ true
    → Sound (future_error k e (register_future with_done timeout k w))
unfolding future_error register_future
Sound-refused with_done timeout k e w (q, r) b d =
    let cb : Callback = record { future_done = false; done = with_done; timeout = timeout } in
    let w' = register_future with_done timeout k w in
    let (c, t, f, n, i) = q d in
    subst (λ v. Sound v) (sym (complete-settles k (excepted e) w'))
      (
        (λ _. (c, t, f, n, ap (λ l. delete k (put k cb l)) i ∙ delete-put_nil k cb)),
        (r.0, Issued-delete k w' (Issued-put k cb w b r.1)),
      )

positive : (n : ℕ) → not (n + 1 == 0) ≡ true
positive n = ground arith

-- A command with the next id is registered and sent.
pub submit-Keeps :
    (with_done timeout : Bool) (command : Command) (w : World)
    → Sound w
    → Safe Sound (
        send_commands (w.command_id + 1) command (
          register_future with_done timeout
            (w.command_id + 1)
            (record w { command_id = w.command_id + 1 })))
unfolding send_commands send_over register_future
submit-Keeps with_done timeout command w s =
    let n = w.command_id + 1 in
    let w' = record w { command_id = n } in
    elim (Bool-cases (is_disconnected w.state)) [
      | inl e ↦
          subst (λ c. Safe Sound (send_over c n command (register_future with_done timeout n w')))
            (sym (s.0 e).0)
            (rw (positive w.command_id) (
              ends (
                Sound-refused with_done timeout n Error.client_disconnected w' (Sound-issue w s)
                  (omega arith) e)))
      | inr e ↦
          send_commands-Keeps _ command _
            (Sound-register with_done timeout n w' e (omega arith) (Sound-issue w s))
    ]

request_ready-Keeps :
    (make : ℕ → Option Command) (waiting : Response (Unit {0}))
    → Keeps Sound (request_ready make waiting)
unfolding request_ready next_command_id send_request
request_ready-Keeps make (raises error) w s = ends s
request_ready-Keeps make (gives _) w s =
    elim (make (w.command_id + 1))
      as (λ c.
        Safe Sound
          (send_request (w.command_id + 1) c (record w { command_id = w.command_id + 1 }))) [
            | none ↦ ends {w = record w { command_id = w.command_id + 1 }} (Sound-issue w s)
            | some command ↦
                Safe-bind _ (submit-Keeps false w.timeout command w s)
                  (λ _ w' s'. waits s' (λ ans w₂ s₂. ends s₂))
          ]

pub request-Keeps : (make : ℕ → Option Command) → Keeps Sound (request make)
unfolding request ready
request-Keeps make w s =
    Safe-bind _ (Safe-if (is_disconnected w.state) (λ _. ends s) (waits s (λ ans w' s'. ends s')))
      (λ waiting. request_ready-Keeps make waiting)

pub Sound-command_timeout : (cmd_id : ℕ) (w : World) → Sound w → Sound (command_timeout cmd_id w)
unfolding command_timeout
Sound-command_timeout cmd_id w s =
    elim (get cmd_id w.inflight_commands)
      as (λ o. Sound (elim o [
        | none ↦ w
        | some cb ↦
            if cb.timeout && not cb.future_done
            then future_error cmd_id Error.operation_timeout w
            else w
      ])) [
        | none ↦ s
        | some cb ↦
            Sound-if (cb.timeout && not cb.future_done) _ w (Sound-future_error cmd_id _ w s) s
      ]

none_in_flight :
    (cmd_id : ℕ) (cb : Callback) (w : World) → Idle w → get cmd_id w.inflight_commands ≡ some cb → ⊥
unfolding get
none_in_flight cmd_id cb w (c, t, f, n, e) g = ground (arith, ap (get cmd_id) e, g)

-- A command that is in flight stays so, and a client that is disconnected has none.
pub Sound-cancel_future : (cmd_id : ℕ) (w : World) → Sound w → Sound (cancel_future cmd_id w)
unfolding cancel_future
Sound-cancel_future cmd_id w (q, (r, n)) = elim (Option-cases (get cmd_id w.inflight_commands)) [
  | inl e ↦ rw (e, cancel_future) (q, (r, n))
  | inr (cb, e) ↦
      rw (e, cancel_future)
        (
          (λ d. elim (none_in_flight cmd_id cb w (q d) e) [ ]),
          (r, Issued-put cmd_id (record cb { future_done = true }) w (n cmd_id cb e) n),
        )
]
