-- ===== src/Client/Safety/Ending.antt =====
-- The invariant through the teardown of `_disconnect` (centrifuge/client.py).
use centrifuge_python.Client.Safety.Sound.{Issued, Idle, Consistent, Sound, Sound-invalidate_subs}
use centrifuge_python.Client.Safety.Dicts.{get-delete, delete-missing, delete_all-keys}
use mathlib.Core.Path.{subst, sym}
use centrifuge_python.Base.{
  ℕ, Bool, true, false, ◌≡◌, refl, ap, ◌∙◌, none, List, [], ◌∷◌, ◌==◌, if◌then◌else◌, Option-cases,
  inl, inr, sym, ◌+◌, arith, some,
}
use centrifuge_python.Codes.{disconnected_state_invalidated}
use centrifuge_python.Events.{Error, empty_text}
use centrifuge_python.Client.World.{World, Dict, get, delete, Outcome, excepted, Callback}
use centrifuge_python.Client.Commands.{
  complete, future_error, fail_all, clear_outgoing_futures, keys,
}
use centrifuge_python.Client.ServerSubs.{delete_all}
use centrifuge_python.Client.Teardown.{
  close_transport, stop_transport_tasks, invalidate_connection_state, commit_server_pending,
  tear_down, values,
}

delete_nil : (k : ℕ) → delete {V = Callback} k [] ≡ []
unfolding delete
delete_nil k = refl

-- A world with other commands in flight.
abbrev pub settled : World → Dict Callback → List (ℕ × Outcome) → World
settled w commands outcomes = record w { inflight_commands = commands; completed = outcomes }

pub complete-settles :
    (k : ℕ) (o : Outcome) (w : World)
    → complete k o w ≡ settled w (delete k w.inflight_commands) (complete k o w).completed
unfolding complete
complete-settles k o w = elim (Option-cases (get k w.inflight_commands)) [
  | inl e ↦
      rw (e, complete)
        (ap (λ d. settled w d w.completed) (sym (delete-missing k w.inflight_commands e)))
  | inr (cb, e) ↦ rw (e, complete)
]

pub Issued-delete :
    (k : ℕ) (w : World)
    → Issued w
    → Issued (record w { inflight_commands = delete k w.inflight_commands })
Issued-delete k w n j cb g = ground (arith, get-delete j k w.inflight_commands, n j cb, g)

get-nothing : (k : ℕ) (d : Dict Callback) (cb : Callback) → d ≡ [] → get k d ≡ some cb → ⊥
unfolding get
get-nothing k d cb e g = ground (arith, ap (get k) e, g)

pub Sound-complete : (k : ℕ) (o : Outcome) (w : World) → Sound w → Sound (complete k o w)
Sound-complete k o w (q, r) =
    subst (λ v. Sound v) (sym (complete-settles k o w))
      (
        λ d. (let (c, t, f, n, e) = q d in (c, t, f, n, ap (delete k) e ∙ delete_nil k)),
        (r.0, Issued-delete k w r.1),
      )

pub fail_all-settles :
    (ids : List ℕ) (w : World)
    → (cs : List (ℕ × Outcome)) × (fail_all ids w
        ≡ settled w (delete_all ids w.inflight_commands) cs)
unfolding fail_all future_error delete_all
fail_all-settles [] w = (w.completed, refl)
fail_all-settles (k ∷ ids) w =
    let outcome = excepted Error.client_disconnected in
    let cs₁ = (complete k outcome w).completed in
    let (cs, e) = fail_all-settles ids (settled w (delete k w.inflight_commands) cs₁) in
    (cs, ap (fail_all ids) (complete-settles k outcome w) ∙ e)

-- What the teardown leaves: the old transport and its commands are gone.
pub Sound-clear :
    (w : World)
    → Consistent w
    → w.conn ≡ none
    → w.open_task ≡ none
    → w.refresh_timer ≡ none
    → w.reconnect_timer ≡ none
    → Idle (clear_outgoing_futures w) × Consistent (clear_outgoing_futures w)
unfolding clear_outgoing_futures
Sound-clear w r c o f t =
    let (cs, e) = fail_all-settles (keys w.inflight_commands) w in
    rw e (
      (c, o, f, t, delete_all-keys w.inflight_commands),
      (r.0, λ k cb g. elim (get-nothing k _ cb (delete_all-keys w.inflight_commands) g) [ ]),
    )

closed : (w : World) → ((close_transport w).conn ≡ none) × ((close_transport w).open_task ≡ none)
unfolding close_transport
closed w = elim (Option-cases w.conn) [
  | inl e ↦ rw (e, close_transport) (refl, refl)
  | inr (c, e) ↦ rw (e, close_transport) (refl, refl)
]

pub close_transport-rest :
    (w : World)
    → close_transport w
      ≡ record w { conn = none; open_task = none; spawned = (close_transport w).spawned }
unfolding close_transport
close_transport-rest w = elim (Option-cases w.conn) [
  | inl e ↦ rw (e, close_transport)
  | inr (c, e) ↦ rw (e, close_transport)
]

-- The state from which the old transport is closed.
abbrev pub stopped : World → World
stopped w = record w {
  server_subs = commit_server_pending w.transport_id w.server_pending w.server_subs;
  server_pending = [];
  transport_id = w.transport_id + 1;
  transition = w.transition + 1;
  ping_timer = none;
  refresh_timer = none;
  reconnect_timer = none;
  listen_task = false;
  process_messages_task = false;
}

ended :
    (w : World)
    → Consistent w
    → Idle (clear_outgoing_futures (close_transport (stopped w)))
      × Consistent (clear_outgoing_futures (close_transport (stopped w)))
ended w r =
    let w' = record (stopped w) {
      conn = none;
      open_task = none;
      spawned = (close_transport (stopped w)).spawned;
    } in
    subst (λ v. Idle (clear_outgoing_futures v) × Consistent (clear_outgoing_futures v))
      (sym (close_transport-rest (stopped w))) (Sound-clear w' r refl refl refl refl)

pub Sound-if : (b : Bool) (v w : World) → Sound v → Sound w → Sound (if b then v else w)
Sound-if true v w s t = s
Sound-if false v w s t = t

Sound-invalidate : (w : World) → Sound w → Sound (invalidate_connection_state w)
unfolding invalidate_connection_state
Sound-invalidate w s =
    let w' = record w { token = empty_text; refresh_required = true } in
    let w₁ = if w.has_get_token then w' else w in
    Sound-invalidate_subs (values w₁.subs) w₁ (Sound-if w.has_get_token w' w s s)

-- The state that the teardown starts from.
abbrev pub invalidated : ℕ → World → World
invalidated code w =
    if code == disconnected_state_invalidated then invalidate_connection_state w else w

Sound-invalidated : (code : ℕ) (w : World) → Sound w → Sound (invalidated code w)
Sound-invalidated code w s =
    Sound-if (code == disconnected_state_invalidated) (invalidate_connection_state w) w
      (Sound-invalidate w s) s

-- From a sound state the teardown leaves no transport, no handshake, no refresh or reconnect timer and no
-- command in flight, whatever its code and whether it reconnects, and keeps the push IDs and the
-- commands in flight consistent.
pub tear_down-Idle :
    (code : ℕ) (reconnect : Bool) (w : World)
    → Sound w
    → Idle (tear_down code reconnect w) × Consistent (tear_down code reconnect w)
unfolding tear_down stop_transport_tasks
tear_down-Idle code true w s = ended (invalidated code w) (Sound-invalidated code w s).1
tear_down-Idle code false w s = ended (invalidated code w) (Sound-invalidated code w s).1
