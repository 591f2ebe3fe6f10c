-- ===== src/Client/Interleaving/Invariant.antt =====
-- The invariant over the interleavings of the client's methods (centrifuge/client.py).
use centrifuge_python.Client.Safety.Calls.{
  Sound-cancel_future, Sound-command_timeout, request-Keeps,
}
use centrifuge_python.Client.Safety.Subscriptions.{
  Sound-resubscribe, subscribe-Keeps, move_unsubscribed-Keeps,
}
use centrifuge_python.Client.Interleaving.{
  command_of, is_free, after_registry, filtered, Entry, enter, Suspended, left, held, Reaches,
  starts, enters, resumes,
}
use centrifuge_python.Client.Teardown.{is_connecting, disconnect, connection_current}
use centrifuge_python.Client.Connecting.{reconnect, set_token}
use centrifuge_python.Client.World.{modify_sub, get, Subscription, World}
use centrifuge_python.Client.Registry.{
  initialize, new_subscription, get_subscription, initial, Options, remove_subscription,
  is_registered, set_tags_filter, is_some,
}
use centrifuge_python.Client.Safety.Sound.{Issued, Sound-modify_sub, Sound}
use centrifuge_python.Base.{
  ◌∙◌, ◌+◌, Option-cases, refl, Bool-cases, ℕ, ◌<◌, ◌≡◌, some, List, [], ◌∷◌, ◌++◌, arith, ◌&&◌,
  true, false, not, Option, inl, inr, ◌≤◌, none,
}
use centrifuge_python.Client.Commands.{next_command_id}
use centrifuge_python.Client.Guarded.{
  on_handler_raised, other_handler, server_publication_failed, guarded, publication_handler,
  not_delivered, server_publication_handler, Raised,
}
use centrifuge_python.Events.{Payload, Channel}
use centrifuge_python.Client.Safety.SubRefreshes.{refresh_subscription-Keeps}
use centrifuge_python.Client.Coroutine.{
  Step, Answer, Safe, ends, waits, returned, raised, cancelled, connection_closed, protocol_error,
  token_of, position_of, opened, replied,
}
use centrifuge_python.Client.Safety.SubReplies.{Sound-schedule_resubscribe}
use centrifuge_python.Client.Safety.Refreshes.{refresh-Keeps}
use centrifuge_python.Client.Subscription.{is_unsubscribed, publication_failed}
use centrifuge_python.Client.Safety.Flows.{subscribe_channel-Keeps, resubscribe_fired-Keeps}
use centrifuge_python.Client.Publications.{ApplyDelta}
use centrifuge_python.Client.Messages.{sub_for_push, no_ping}
use centrifuge_python.Client.Interleaving
use centrifuge_python.Client.Safety.Rules.{Keeps, Safe-bind, Safe-if}
use centrifuge_python.Client.Moves.{
  unsubscribe, unsubscribe_result, unsubscribe_answered, is_timeout, has_error,
}
use centrifuge_python.Client.Safety.Disconnect.{do_disconnect-Keeps}
use centrifuge_python.Client.Safety.Pushes.{process_message-Keeps, connection_lost-Keeps}
use centrifuge_python.Client.Safety.Opening.{connect-Keeps, connection_attempt-Keeps}

unsubscribe_answered-Keeps :
    (connection : ℕ) (answer : Answer) → Keeps Sound (unsubscribe_answered connection answer)
unfolding unsubscribe_answered
unsubscribe_answered-Keeps connection (raised error) w s =
    Safe-if (is_timeout error && connection_current connection w)
      (λ _. do_disconnect-Keeps _ _ true w s) (ends s)
unsubscribe_answered-Keeps connection (replied reply) w s =
    Safe-if (connection_current connection w && has_error reply)
      (λ _. do_disconnect-Keeps _ _ true w s) (ends s)
unsubscribe_answered-Keeps connection returned w s = ends s
unsubscribe_answered-Keeps connection cancelled w s = ends s
unsubscribe_answered-Keeps connection connection_closed w s = ends s
unsubscribe_answered-Keeps connection protocol_error w s = ends s
unsubscribe_answered-Keeps connection (token_of token) w s = ends s
unsubscribe_answered-Keeps connection (position_of position) w s = ends s
unsubscribe_answered-Keeps connection (opened conn) w s = ends s

Sound-not_delivered : (handler : Raised) (w : World) → Sound w → Sound (not_delivered handler w)
unfolding not_delivered publication_failed server_publication_failed
Sound-not_delivered (publication_handler i) w s =
    Sound-modify_sub i publication_failed w (λ _. refl) s
Sound-not_delivered (server_publication_handler channel) w s = s
Sound-not_delivered other_handler w s = s

-- A new subscription has no push ID, as the object whose place it takes.
push_id-initialize :
    (channel : Channel) (options : Options) (s : Subscription)
    → initialize channel options ≡ some s
    → s.push_id ≡ 0
unfolding initialize initial
push_id-initialize channel options s e = ground (arith, e)

push_id-placed :
    (i : ℕ) (s : Subscription) (w : World)
    → (w.sub i).push_id ≡ 0
    → s.push_id ≡ 0
    → (j : ℕ) → ((modify_sub i (λ _. s) w).sub j).push_id ≡ (w.sub j).push_id
unfolding modify_sub
push_id-placed i s w e e' j = ground (arith, e, e')

Sound-placed :
    (i : ℕ) (s : Subscription) (w : World)
    → (w.sub i).push_id ≡ 0
    → s.push_id ≡ 0
    → Sound w
    → Sound (modify_sub i (λ _. s) w)
unfolding modify_sub
Sound-placed i s w e e' (q, (r, n)) =
    (q, ((λ id j g. ((r id j g).0, push_id-placed i s w e e' j ∙ (r id j g).1)), n))

Sound-new_subscription :
    (i : ℕ) (channel : Channel) (options : Options) (w : World)
    → (w.sub i).push_id ≡ 0
    → Sound w
    → Sound (after_registry (new_subscription i channel options w) w)
unfolding new_subscription
Sound-new_subscription i channel options w p s =
    elim (Bool-cases (is_some (get_subscription channel w))) [
      | inl e ↦ rw e s
      | inr e ↦ elim (Option-cases (initialize channel options)) [
        | inl e' ↦ rw (e, e') s
        | inr (t, e') ↦
            rw (e, e') (Sound-placed i t w p (push_id-initialize channel options t e') s)
      ]
    ]

-- A removed subscription keeps its push ID.
Sound-removed_subscription :
    (i : ℕ) (w : World) → Sound w → Sound (after_registry (remove_subscription i w) w)
unfolding remove_subscription
Sound-removed_subscription i w s = elim (Bool-cases (not (is_registered i w))) [
  | inl e ↦ rw e s
  | inr e ↦ elim (Bool-cases (not (is_unsubscribed (w.sub i).state))) [
    | inl e' ↦ rw e (rw e' s)
    | inr e' ↦ rw e (rw e' (Sound-modify_sub i (λ t. record t { client = false }) w (λ _. refl) s))
  ]
]

push_id-filtered :
    (tags_filter : Option Payload) (s : Subscription) → (filtered tags_filter s).push_id ≡ s.push_id
unfolding set_tags_filter
push_id-filtered tags_filter s = elim (Bool-cases (is_some tags_filter && s.delta)) [
  | inl e ↦ rw (e, filtered) refl
  | inr e ↦ rw (e, filtered) refl
]

enter-Keeps : (apply_delta : ApplyDelta) (e : Entry) → Keeps Sound (enter apply_delta e)
unfolding enter reconnect disconnect no_ping unsubscribe unsubscribe_result set_token guarded
    on_handler_raised
enter-Keeps apply_delta Interleaving.connect_called w s = connect-Keeps w s
enter-Keeps apply_delta Interleaving.disconnect_called w s = do_disconnect-Keeps _ _ false w s
enter-Keeps apply_delta Interleaving.attempt_started w s = connection_attempt-Keeps w s
enter-Keeps apply_delta Interleaving.reconnect_fired w s =
    Safe-if (is_connecting w.state) (λ _. connection_attempt-Keeps w s) (ends s)
enter-Keeps apply_delta Interleaving.ping_missed w s = do_disconnect-Keeps _ _ true w s
enter-Keeps apply_delta (Interleaving.set_token_called token) w s = ends s
enter-Keeps apply_delta (Interleaving.subscribe_called i) w s =
    Safe-bind _ (subscribe-Keeps i w s) (λ _ w' s'. ends s')
enter-Keeps apply_delta (Interleaving.unsubscribe_called i) w s =
    move_unsubscribed-Keeps i _ _ true w s
enter-Keeps apply_delta (Interleaving.message_read message attempt error) w s =
    process_message-Keeps apply_delta message attempt error w s
enter-Keeps apply_delta (Interleaving.transport_closed ws_code ws_reason attempt) w s =
    connection_lost-Keeps ws_code ws_reason attempt w s
enter-Keeps apply_delta (Interleaving.unsubscribe_sent cmd_id connection) w s =
    waits s (λ answer. unsubscribe_answered-Keeps connection answer)
enter-Keeps apply_delta (Interleaving.handler_raised handler message) w s =
    do_disconnect-Keeps _ _ false _ (Sound-not_delivered handler w s)
enter-Keeps apply_delta (Interleaving.new_subscription_called i channel options) w s =
    Safe-if (is_free i w)
      (λ e. ends (Sound-new_subscription i channel options w (ground (arith, e)) s)) (ends s)
enter-Keeps apply_delta (Interleaving.remove_called i) w s = ends (Sound-removed_subscription i w s)
enter-Keeps apply_delta (Interleaving.tags_filter_called i tags_filter) w s =
    ends (Sound-modify_sub i (filtered tags_filter) w (push_id-filtered tags_filter) s)
enter-Keeps apply_delta (Interleaving.request_called r) w s =
    Safe-bind _ (request-Keeps (command_of r) w s) (λ _ w' s'. ends s')
enter-Keeps apply_delta (Interleaving.command_timer_fired cmd_id) w s =
    ends (Sound-command_timeout cmd_id w s)
enter-Keeps apply_delta (Interleaving.command_cancelled cmd_id) w s =
    ends (Sound-cancel_future cmd_id w s)
enter-Keeps apply_delta (Interleaving.refresh_timer_fired connection) w s =
    refresh-Keeps connection w s
enter-Keeps apply_delta (Interleaving.sub_refresh_timer_fired i session) w s =
    refresh_subscription-Keeps i session w s
enter-Keeps apply_delta (Interleaving.resubscribe_started i) w s = ends (Sound-resubscribe i w s)
enter-Keeps apply_delta (Interleaving.resubscribe_timer_fired i) w s = resubscribe_fired-Keeps i w s
enter-Keeps apply_delta (Interleaving.resubscribe_scheduled i) w s =
    ends (Sound-schedule_resubscribe i w s)
enter-Keeps apply_delta (Interleaving.subscribe_started channel message) w s =
    subscribe_channel-Keeps apply_delta channel message w s

-- A method that waits leaves sound states when it goes on.
abbrev Resumable : Suspended → Type 0
Resumable k = (answer : Answer) (w : World) → Sound w → Safe Sound (k answer w)

abbrev AllResumable : List Suspended → Type 0
AllResumable [] = Unit {0}
AllResumable (k ∷ pool) = Resumable k × AllResumable pool

taken :
    (before : List Suspended) (k : Suspended) (after : List Suspended)
    → AllResumable (before ++ k ∷ after)
    → Resumable k × AllResumable (before ++ after)
taken [] k after (r, rs) = (r, rs)
taken (b ∷ before) k after (r, rs) = let (rk, rs') = taken before k after rs in (rk, (r, rs'))

Safe-left :
    {s : Step (Unit {0})} (pool : List Suspended)
    → Safe Sound s
    → AllResumable pool
    → Sound (left s) × AllResumable (held s pool)
Safe-left pool (ends i) rs = (i, rs)
Safe-left pool (waits i k) rs = (i, (k, rs))

module _ {apply_delta : ApplyDelta} {w₀ : World} where
  reaches_lem :
      {w : World} {pool : List Suspended}
      → Sound w₀
      → Reaches apply_delta w₀ w pool
      → Sound w × AllResumable pool
  reaches_lem s starts = (s, tt)
  reaches_lem s (enters {w} {pool} e r) =
      let (i, rs) = reaches_lem s r in Safe-left pool (enter-Keeps apply_delta e w i) rs
  reaches_lem s (resumes {w} before k after answer r) =
      let (i, rs) = reaches_lem s r in
      let (rk, rs') = taken before k after rs in Safe-left (before ++ after) (rk answer w i) rs'

-- From a state in which a disconnected client is idle, the registered push IDs are those of their
-- subscriptions and the commands in flight have ids that were given out, every interleaving of the methods
-- in `Entry`, with any answers where they wait, reaches only such states.
pub Reaches-Sound :
    (apply_delta : ApplyDelta) (w₀ w : World) (pool : List Suspended)
    → Sound w₀
    → Reaches apply_delta w₀ w pool
    → Sound w
Reaches-Sound apply_delta w₀ w pool s r = (reaches_lem s r).0

-- In a state reached from a sound one, a push with a positive ID that the client routes to a
-- subscription goes to one that holds this ID.
pub sub_for_push-routed :
    (apply_delta : ApplyDelta) (w₀ w : World) (pool : List Suspended)
    → Sound w₀
    → Reaches apply_delta w₀ w pool
    → (channel : Channel) (push_id i : ℕ) → 0 < push_id
    → sub_for_push channel push_id w ≡ some i
    → (w.sub i).push_id ≡ push_id
unfolding sub_for_push
sub_for_push-routed apply_delta w₀ w pool s r channel push_id i p e =
    let routed = (Reaches-Sound apply_delta w₀ w pool s r).1.0 push_id i in
    ground (arith, routed, e, p)

not_given : (k c : ℕ) → c < k → k ≤ c → ⊥
not_given k c l m = omega (arith, l, m)

absent : (k : ℕ) (w : World) → Issued w → w.command_id < k → get k w.inflight_commands ≡ none
absent k w n l = elim (Option-cases (get k w.inflight_commands)) [
  | inl e ↦ e
  | inr (cb, e) ↦ elim (not_given k w.command_id l (n k cb e)) [ ]
]

-- In a state reached from a sound one, the next command id is the id of no command in flight: a new
-- command takes the place of none.
pub next_command_id-fresh :
    (apply_delta : ApplyDelta) (w₀ w : World) (pool : List Suspended)
    → Sound w₀
    → Reaches apply_delta w₀ w pool
    → get (next_command_id w).command_id w.inflight_commands ≡ none
unfolding next_command_id
next_command_id-fresh apply_delta w₀ w pool s r =
    absent (w.command_id + 1) w (Reaches-Sound apply_delta w₀ w pool s r).1.1 (omega arith)
