-- ===== src/Client/Safety/Refreshes.antt =====
-- The invariant through the refresh of the connection token and of a subscription token
-- (centrifuge/client.py).
use centrifuge_python.Base.{
  Bool-cases, ℕ, true, false, not, ◌≡◌, Option, none, some, ◌&&◌, arith, inl, ◌==◌, inr,
}
use centrifuge_python.Client.Coroutine.{
  connection_closed, raised, position_of, opened, token_of, ends, protocol_error, cancelled,
  replied, waits, Safe, Answer, returned,
}
use centrifuge_python.Client.Connecting.{is_unauthorized}
use centrifuge_python.Events.{Error, empty_text, Text}
use centrifuge_python.Client.Commands.{next_command_id}
use centrifuge_python.Client.Refreshing.{
  refresh_answered, refresh_token_failed, refresh_accepted, refresh_token_answered, refresh_replied,
  schedule_refresh_retry, send_refresh, refresh,
}
use centrifuge_python.Client.World.{World, RefreshResult, Timer, ReplyError}
use centrifuge_python.Client.Teardown.{is_connected, connection_current}
use centrifuge_python.Client.Safety.Rules.{Keeps, Safe-bind, Safe-if}
use centrifuge_python.Client.Safety.Sound.{Sound}
use centrifuge_python.Client.Safety.Ending.{Sound-if}
use centrifuge_python.Client.Safety.Disconnect.{do_disconnect-Keeps}
use centrifuge_python.Client.Safety.Subscriptions.{contradiction, not_disconnected}
use centrifuge_python.Client.Safety.Calls.{submit-Keeps}

-- A connected client may have a refresh timer.
Sound-refresh_timer :
    (timer : Option Timer) (w : World)
    → is_connected w.state ≡ true
    → Sound w
    → Sound (record w { refresh_timer = timer })
Sound-refresh_timer timer w c (q, r) =
    (λ d. elim (contradiction w.state d (not_disconnected w.state c)) [ ], r)

connected_now :
    (connection : ℕ) (w : World)
    → connection_current connection w ≡ true
    → is_connected w.state ≡ true
connected_now connection w e = ground (arith, e)

Sound-schedule_refresh_retry :
    (connection : ℕ) (w : World) → Sound w → Sound (schedule_refresh_retry connection w)
unfolding schedule_refresh_retry
Sound-schedule_refresh_retry connection w s =
    elim (Bool-cases (connection_current connection w && w.has_get_token)) [
      | inl e ↦ rw e (Sound-refresh_timer _ w (ground (arith, e)) s)
      | inr e ↦ rw e s
    ]

refresh_token_failed-Keeps :
    (connection : ℕ) (error : Error) → Keeps Sound (refresh_token_failed connection error)
unfolding refresh_token_failed
refresh_token_failed-Keeps connection error w s =
    Safe-if (connection_current connection w)
      (λ _.
        Safe-if (is_unauthorized error) (λ _. do_disconnect-Keeps _ _ false w s)
          (waits s (λ ans w' s'. ends (Sound-schedule_refresh_retry connection w' s'))))
      (ends s)

Sound-refresh_accepted :
    (result : Option RefreshResult) (w : World)
    → is_connected w.state ≡ true
    → Sound w
    → Sound (refresh_accepted result w)
unfolding refresh_accepted
Sound-refresh_accepted none w c s = s
Sound-refresh_accepted (some result) w c s =
    Sound-if result.expires _ w (Sound-refresh_timer _ w c s) s

refresh_replied-Keeps :
    (connection : ℕ) (error : Option ReplyError) (result : Option RefreshResult) (w : World)
    → is_connected w.state ≡ true
    → Sound w
    → Safe Sound (refresh_replied connection error result w)
unfolding refresh_replied
refresh_replied-Keeps connection none result w c s = ends (Sound-refresh_accepted result w c s)
refresh_replied-Keeps connection (some error) result w c s =
    Safe-if (not error.temporary) (λ _. do_disconnect-Keeps _ _ false w s)
      (waits s (λ ans w' s'. ends (Sound-schedule_refresh_retry connection w' s')))

refresh_answered-Keeps :
    (connection : ℕ) (answer : Answer) → Keeps Sound (refresh_answered connection answer)
unfolding refresh_answered
refresh_answered-Keeps connection (raised error) w s =
    Safe-if (connection_current connection w)
      (λ _. waits s (λ ans w' s'. ends (Sound-schedule_refresh_retry connection w' s'))) (ends s)
refresh_answered-Keeps connection (replied reply) w s =
    Safe-if (connection_current connection w)
      (λ e.
        refresh_replied-Keeps connection reply.error reply.refresh w (connected_now connection w e)
          s)
      (ends s)
refresh_answered-Keeps connection returned w s = ends s
refresh_answered-Keeps connection cancelled w s = ends s
refresh_answered-Keeps connection connection_closed w s = ends s
refresh_answered-Keeps connection protocol_error w s = ends s
refresh_answered-Keeps connection (token_of token) w s = ends s
refresh_answered-Keeps connection (position_of position) w s = ends s
refresh_answered-Keeps connection (opened conn) w s = ends s

send_refresh-Keeps : (connection : ℕ) (token : Text) → Keeps Sound (send_refresh connection token)
unfolding send_refresh next_command_id
send_refresh-Keeps connection token w s =
    Safe-bind _ (submit-Keeps false w.timeout _ (record w { token = token }) s)
      (λ _ w' s'. waits s' (λ answer. refresh_answered-Keeps connection answer))

refresh_token_answered-Keeps :
    (connection : ℕ) (answer : Answer) → Keeps Sound (refresh_token_answered connection answer)
unfolding refresh_token_answered
refresh_token_answered-Keeps connection (token_of token) w s =
    Safe-if (connection_current connection w)
      (λ _.
        Safe-if (token == empty_text) (λ _. do_disconnect-Keeps _ _ false w s)
          (send_refresh-Keeps connection token w s))
      (ends s)
refresh_token_answered-Keeps connection (raised error) w s =
    refresh_token_failed-Keeps connection error w s
refresh_token_answered-Keeps connection returned w s = refresh_token_failed-Keeps connection _ w s
refresh_token_answered-Keeps connection cancelled w s = refresh_token_failed-Keeps connection _ w s
refresh_token_answered-Keeps connection connection_closed w s =
    refresh_token_failed-Keeps connection _ w s
refresh_token_answered-Keeps connection protocol_error w s =
    refresh_token_failed-Keeps connection _ w s
refresh_token_answered-Keeps connection (position_of position) w s =
    refresh_token_failed-Keeps connection _ w s
refresh_token_answered-Keeps connection (opened conn) w s =
    refresh_token_failed-Keeps connection _ w s
refresh_token_answered-Keeps connection (replied reply) w s =
    refresh_token_failed-Keeps connection _ w s

pub refresh-Keeps : (connection : ℕ) → Keeps Sound (refresh connection)
unfolding refresh
refresh-Keeps connection w s =
    Safe-if (connection_current connection w && w.has_get_token)
      (λ _. waits s (λ answer. refresh_token_answered-Keeps connection answer)) (ends s)
