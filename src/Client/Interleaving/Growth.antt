-- ===== src/Client/Interleaving/Growth.antt =====
-- The growth of the numbers over the interleavings of the client's methods (centrifuge/client.py).
use centrifuge_python.Client.Growth.Subscriptions.{
  Later-resubscribe, Forward-schedule_resubscribe, Forward-filtered,
}
use centrifuge_python.Client.Commands.{cancel_future, future_error}
use centrifuge_python.Client.Connecting.{reconnect, set_token}
use centrifuge_python.Client.Registry.{
  is_some, get_subscription, initialize, Options, new_subscription, is_registered,
  remove_subscription, initial,
}
use centrifuge_python.Events.{Channel, operation_timeout}
use centrifuge_python.Client.Interleaving.{
  is_free, left, Entry, Suspended, Follows, held, Reaches, after_registry, enter, enters, resumes,
  starts, modify_sub, Subscription,
}
use centrifuge_python.Client.Growth.Numbers.{Later-future_error, Later-modify_sub}
use centrifuge_python.Client.Growth.{
  Later-if, grows, Later, mark, Later-trans, Mark, grown, Later-refl, Grows, growth,
}
use centrifuge_python.Base.{
  Option-cases, Bool-cases, ℕ, List, [], ◌∷◌, ◌++◌, arith, ◌&&◌, false, not, inl, inr, ◌≡◌, some,
}
use centrifuge_python.Client.World.{get, World, modify_sub}
use centrifuge_python.Client.Growth.Refreshing.{refresh_subscription-Grows, refresh-Grows}
use centrifuge_python.Client.Messages.{no_ping}
use centrifuge_python.Client.Growth.Teardown.{do_disconnect-Grows}
use centrifuge_python.Client.Publications.{ApplyDelta}
use centrifuge_python.Client.Subscription.{is_unsubscribed}
use centrifuge_python.Client.Teardown.{disconnect}
use centrifuge_python.Client.Growth.Subscribing.{subscribe_channel-Grows, resubscribe_fired-Grows}
use centrifuge_python.Client.Coroutine.{Step, Answer}
use centrifuge_python.Client.Growth.Requests.{request-Grows, guarded-Grows}
use centrifuge_python.Client.Requests.{command_timeout}
use centrifuge_python.Client.Growth.Messages.{connection_lost-Grows, process_message-Grows}
use centrifuge_python.Client.Moves.{unsubscribe_result, unsubscribe}
use centrifuge_python.Client.Growth.Connecting.{connection_attempt-Grows, connect-Grows}
use centrifuge_python.Client.Growth.Moves.{
  unsubscribe_answered-Grows, move_unsubscribed-Grows, subscribe-Grows,
}
use centrifuge_python.Client.Interleaving

attempt-initialize :
    (channel : Channel) (options : Options) (s : Subscription)
    → initialize channel options ≡ some s
    → s.attempt ≡ 0
unfolding initialize initial
attempt-initialize channel options s e = ground (arith, e)

Later-placed :
    (i : ℕ) (s : Subscription) {m : Mark} (w : World)
    → (w.sub i).attempt ≡ 0
    → Later m (mark w)
    → Later m (mark (modify_sub i (λ _. s) w))
unfolding modify_sub
Later-placed i s {m} w e l = record {
  connections = l.connections;
  transitions = l.transitions;
  commands = l.commands;
  failures = l.failures;
  attempts = λ j. ground (arith, l.attempts j, l.attempts i, e);
}

-- A new subscription takes the place of an object with which no attempt was made.
Later-new_subscription :
    (i : ℕ) (channel : Channel) (options : Options) {m : Mark} (w : World)
    → (w.sub i).attempt ≡ 0
    → Later m (mark w)
    → Later m (mark (after_registry (new_subscription i channel options w) w))
unfolding new_subscription
Later-new_subscription i channel options {m} w p l =
    elim (Bool-cases (is_some (get_subscription channel w))) [
      | inl e ↦ rw e l
      | inr e ↦ elim (Option-cases (initialize channel options)) [
        | inl e' ↦ rw (e, e') l
        | inr (t, e') ↦ rw (e, e') (Later-placed i t w p l)
      ]
    ]

Later-removed_subscription :
    (i : ℕ) {m : Mark} (w : World)
    → Later m (mark w)
    → Later m (mark (after_registry (remove_subscription i w) w))
unfolding remove_subscription
Later-removed_subscription i {m} w l = elim (Bool-cases (not (is_registered i w))) [
  | inl e ↦ rw e l
  | inr e ↦ elim (Bool-cases (not (is_unsubscribed (w.sub i).state))) [
    | inl e' ↦ rw e (rw e' l)
    | inr e' ↦
        rw e (rw e' (Later-modify_sub i (λ s. record s { client = false }) w (λ s. omega arith) l))
  ]
]

Later-command_timeout :
    (cmd_id : ℕ) {m : Mark} (w : World)
    → Later m (mark w)
    → Later m (mark (command_timeout cmd_id w))
unfolding command_timeout
Later-command_timeout cmd_id {m} w l = elim (Option-cases (get cmd_id w.inflight_commands)) [
  | inl e ↦ rw (e, command_timeout) l
  | inr (cb, e) ↦
      rw (e, command_timeout)
        (Later-if (cb.timeout && not cb.future_done) (future_error cmd_id operation_timeout w) w
          (Later-future_error cmd_id operation_timeout w l) l)
]

Later-cancel_future :
    (cmd_id : ℕ) {m : Mark} (w : World) → Later m (mark w) → Later m (mark (cancel_future cmd_id w))
unfolding cancel_future
Later-cancel_future cmd_id w l = elim (Option-cases (get cmd_id w.inflight_commands)) [
  | inl e ↦ rw (e, cancel_future) l
  | inr (cb, e) ↦ rw (e, cancel_future) l
]

enter-Grows :
    (apply_delta : ApplyDelta) (e : Entry) (m : Mark) (w : World)
    → Later m (mark w)
    → Grows m (enter apply_delta e w)
unfolding enter reconnect disconnect no_ping unsubscribe unsubscribe_result set_token
enter-Grows apply_delta Interleaving.connect_called m w l = search (growth, connect-Grows)
enter-Grows apply_delta Interleaving.disconnect_called m w l = search (growth, do_disconnect-Grows)
enter-Grows apply_delta Interleaving.attempt_started m w l =
    search (growth, connection_attempt-Grows)
enter-Grows apply_delta Interleaving.reconnect_fired m w l =
    search (growth, connection_attempt-Grows)
enter-Grows apply_delta Interleaving.ping_missed m w l = search (growth, do_disconnect-Grows)
enter-Grows apply_delta (Interleaving.set_token_called token) m w l = grown l
enter-Grows apply_delta (Interleaving.subscribe_called i) m w l = search (growth, subscribe-Grows)
enter-Grows apply_delta (Interleaving.unsubscribe_called i) m w l =
    search (growth, move_unsubscribed-Grows)
enter-Grows apply_delta (Interleaving.new_subscription_called i channel options) m w l =
    elim (Bool-cases (is_free i w)) [
      | inl e ↦ rw e (grown (Later-new_subscription i channel options w (ground (arith, e)) l))
      | inr e ↦ rw e (grown l)
    ]
enter-Grows apply_delta (Interleaving.remove_called i) m w l =
    search (growth, Later-removed_subscription)
enter-Grows apply_delta (Interleaving.tags_filter_called i tags_filter) m w l =
    search (growth, Later-modify_sub, Forward-filtered)
enter-Grows apply_delta (Interleaving.request_called r) m w l = search (growth, request-Grows)
enter-Grows apply_delta (Interleaving.message_read message attempt error) m w l =
    search (growth, process_message-Grows)
enter-Grows apply_delta (Interleaving.transport_closed ws_code ws_reason attempt) m w l =
    search (growth, connection_lost-Grows)
enter-Grows apply_delta (Interleaving.unsubscribe_sent cmd_id connection) m w l =
    search (growth, unsubscribe_answered-Grows)
enter-Grows apply_delta (Interleaving.handler_raised handler message) m w l =
    search (growth, guarded-Grows)
enter-Grows apply_delta (Interleaving.command_timer_fired cmd_id) m w l =
    search (growth, Later-command_timeout)
enter-Grows apply_delta (Interleaving.command_cancelled cmd_id) m w l =
    search (growth, Later-cancel_future)
enter-Grows apply_delta (Interleaving.refresh_timer_fired connection) m w l =
    search (growth, refresh-Grows)
enter-Grows apply_delta (Interleaving.sub_refresh_timer_fired i session) m w l =
    search (growth, refresh_subscription-Grows)
enter-Grows apply_delta (Interleaving.resubscribe_started i) m w l =
    search (growth, Later-resubscribe)
enter-Grows apply_delta (Interleaving.resubscribe_timer_fired i) m w l =
    search (growth, resubscribe_fired-Grows)
enter-Grows apply_delta (Interleaving.resubscribe_scheduled i) m w l =
    search (growth, Later-modify_sub, Forward-schedule_resubscribe)
enter-Grows apply_delta (Interleaving.subscribe_started channel message) m w l =
    search (growth, subscribe_channel-Grows)

-- A method that waits leaves later numbers when it goes on.
abbrev pub Growing : Suspended → Type 0
Growing k = (answer : Answer) (w : World) → Grows (mark w) (k answer w)

abbrev pub AllGrowing : List Suspended → Type 0
AllGrowing [] = Unit {0}
AllGrowing (k ∷ pool) = Growing k × AllGrowing pool

picked :
    (before : List Suspended) (k : Suspended) (after : List Suspended)
    → AllGrowing (before ++ k ∷ after)
    → Growing k × AllGrowing (before ++ after)
picked [] k after (g, gs) = (g, gs)
picked (b ∷ before) k after (g, gs) = let (gk, gs') = picked before k after gs in (gk, (g, gs'))

pub Grows-left :
    {m : Mark} {s : Step (Unit {0})} (pool : List Suspended)
    → Grows m s
    → AllGrowing pool
    → Later m (mark (left s)) × AllGrowing (held s pool)
Grows-left pool (grown l) gs = (l, gs)
Grows-left pool (grows l k) gs = (l, (k, gs))

module _ {apply_delta : ApplyDelta} {w₀ : World} {pool₀ : List Suspended} where
  pub follows_lem :
      {w : World} {pool : List Suspended}
      → AllGrowing pool₀
      → Follows apply_delta w₀ pool₀ w pool
      → Later (mark w₀) (mark w) × AllGrowing pool
  follows_lem gs starts = (Later-refl (mark w₀), gs)
  follows_lem gs (enters {w} {pool} e r) =
      let (l, gs') = follows_lem gs r in
      Grows-left pool (enter-Grows apply_delta e (mark w₀) w l) gs'
  follows_lem gs (resumes {w} before k after answer r) =
      let (l, gs') = follows_lem gs r in
      let (gk, gs₂) = picked before k after gs' in
      let (l', gs₃) = Grows-left (before ++ after) (gk answer w) gs₂ in (Later-trans l l', gs₃)

-- From every state that is reached from one in which no method waits, along every further interleaving of
-- the methods in `Entry`, with any answers where they wait, the number of the
-- connection attempt, of the transition, of the last command, of the handlers that raised and of the
-- attempt of each subscription never becomes smaller.
pub Follows-Later :
    (apply_delta : ApplyDelta) (w₀ w w' : World) (pool pool' : List Suspended)
    → Reaches apply_delta w₀ w pool
    → Follows apply_delta w pool w' pool'
    → Later (mark w) (mark w')
Follows-Later apply_delta w₀ w w' pool pool' r f = (follows_lem ((follows_lem tt r).1) f).0
