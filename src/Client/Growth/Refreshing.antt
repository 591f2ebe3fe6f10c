-- ===== src/Client/Growth/Refreshing.antt =====
-- The growth of the numbers through the token refreshes (centrifuge/client.py).
use centrifuge_python.Client.Growth.Moves.{move_unsubscribed-Grows}
use centrifuge_python.Client.World.{RefreshResult, ReplyError, World}
use centrifuge_python.Client.Growth.Teardown.{do_disconnect-Grows, send_commands-Grows}
use centrifuge_python.Client.Growth.Numbers.{Later-modify_sub, Forward-same}
use centrifuge_python.Client.Coroutine.{token_of, replied, Answer, raised}
use centrifuge_python.Client.Growth.Subscriptions.{
  Later-next_command_id, Forward-sub_refresh_accepted, Later-register_future,
  Forward-schedule_sub_refresh_retry,
}
use centrifuge_python.Events.{Error, Channel, Text}
use centrifuge_python.Client.Refreshing.{
  refresh_token_answered, refresh_answered, sub_refresh_token_answered, sub_refresh_token_failed,
  sub_refresh, refresh, send_refresh, refresh_subscription, send_sub_refresh, sub_refresh_answered,
  sub_refresh_replied, refresh_token_failed, sub_refresh_of, refresh_replied,
}
use centrifuge_python.Client.Growth.{Mark, Grows, mark, Later, growth}
use centrifuge_python.Client.Growth.Updates.{Later-refresh_accepted, Later-schedule_refresh_retry}
use centrifuge_python.Base.{ℕ, some, none, Option}

refresh_token_failed-Grows :
    (connection : ℕ) (error : Error) (m : Mark) (w : World)
    → Later m (mark w)
    → Grows m (refresh_token_failed connection error w)
unfolding refresh_token_failed
refresh_token_failed-Grows connection error m w l =
    search (growth, do_disconnect-Grows, Later-schedule_refresh_retry) depth 8

refresh_replied-Grows :
    (connection : ℕ) (error : Option ReplyError) (result : Option RefreshResult) (m : Mark)
    (w : World)
    → Later m (mark w)
    → Grows m (refresh_replied connection error result w)
unfolding refresh_replied
refresh_replied-Grows connection none result m w l = search (growth, Later-refresh_accepted)
refresh_replied-Grows connection (some error) result m w l =
    search (growth, do_disconnect-Grows, Later-schedule_refresh_retry)

refresh_answered-Grows :
    (connection : ℕ) (answer : Answer) (m : Mark) (w : World)
    → Later m (mark w)
    → Grows m (refresh_answered connection answer w)
unfolding refresh_answered
refresh_answered-Grows connection (raised error) m w l =
    search (growth, Later-schedule_refresh_retry)
refresh_answered-Grows connection (replied reply) m w l = search (growth, refresh_replied-Grows)
refresh_answered-Grows connection _ m w l = search (growth)

send_refresh-Grows :
    (connection : ℕ) (token : Text) (m : Mark) (w : World)
    → Later m (mark w)
    → Grows m (send_refresh connection token w)
unfolding send_refresh
send_refresh-Grows connection token m w l =
    search
      (
        growth, send_commands-Grows, refresh_answered-Grows, Later-next_command_id,
        Later-register_future,
      )
      depth 8

refresh_token_answered-Grows :
    (connection : ℕ) (answer : Answer) (m : Mark) (w : World)
    → Later m (mark w)
    → Grows m (refresh_token_answered connection answer w)
unfolding refresh_token_answered
refresh_token_answered-Grows connection (token_of token) m w l =
    search (growth, do_disconnect-Grows, send_refresh-Grows)
refresh_token_answered-Grows connection (raised error) m w l =
    search (growth, refresh_token_failed-Grows)
refresh_token_answered-Grows connection _ m w l = search (growth, refresh_token_failed-Grows)

pub refresh-Grows :
    (connection : ℕ) (m : Mark) (w : World) → Later m (mark w) → Grows m (refresh connection w)
unfolding refresh
refresh-Grows connection m w l = search (growth, refresh_token_answered-Grows)

sub_refresh_token_failed-Grows :
    (i : ℕ) (session : ℕ) (connection : ℕ) (error : Error) (m : Mark) (w : World)
    → Later m (mark w)
    → Grows m (sub_refresh_token_failed i session connection error w)
unfolding sub_refresh_token_failed
sub_refresh_token_failed-Grows i session connection error m w l =
    search (growth, move_unsubscribed-Grows, Later-modify_sub, Forward-schedule_sub_refresh_retry)
      depth 8

sub_refresh_replied-Grows :
    (i : ℕ) (session : ℕ) (error : Option ReplyError) (result : Option RefreshResult) (m : Mark)
    (w : World)
    → Later m (mark w)
    → Grows m (sub_refresh_replied i session error result w)
unfolding sub_refresh_replied
sub_refresh_replied-Grows i session none result m w l =
    search (growth, Later-modify_sub, Forward-sub_refresh_accepted)
sub_refresh_replied-Grows i session (some error) result m w l =
    search (growth, move_unsubscribed-Grows, Later-modify_sub, Forward-schedule_sub_refresh_retry)

sub_refresh_answered-Grows :
    (i : ℕ) (session : ℕ) (connection : ℕ) (answer : Answer) (m : Mark) (w : World)
    → Later m (mark w)
    → Grows m (sub_refresh_answered i session connection answer w)
unfolding sub_refresh_answered
sub_refresh_answered-Grows i session connection (raised error) m w l =
    search (growth, Later-modify_sub, Forward-schedule_sub_refresh_retry)
sub_refresh_answered-Grows i session connection (replied reply) m w l =
    search (growth, sub_refresh_replied-Grows)
sub_refresh_answered-Grows i session connection _ m w l = search (growth)

send_sub_refresh-Grows :
    (i : ℕ) (channel : Channel) (session : ℕ) (connection : ℕ) (token : Text) (m : Mark) (w : World)
    → Later m (mark w)
    → Grows m (send_sub_refresh i channel session connection token w)
unfolding send_sub_refresh
send_sub_refresh-Grows i channel session connection token m w l =
    search
      (
        growth, send_commands-Grows, sub_refresh_answered-Grows, Later-modify_sub,
        Later-next_command_id, Later-register_future, Forward-same,
      )
      depth 8

sub_refresh_token_answered-Grows :
    (i : ℕ) (channel : Channel) (session : ℕ) (connection : ℕ) (answer : Answer) (m : Mark)
    (w : World)
    → Later m (mark w)
    → Grows m (sub_refresh_token_answered i channel session connection answer w)
unfolding sub_refresh_token_answered
sub_refresh_token_answered-Grows i channel session connection (token_of token) m w l =
    search (growth, move_unsubscribed-Grows, send_sub_refresh-Grows)
sub_refresh_token_answered-Grows i channel session connection (raised error) m w l =
    search (growth, sub_refresh_token_failed-Grows)
sub_refresh_token_answered-Grows i channel session connection _ m w l =
    search (growth, sub_refresh_token_failed-Grows)

sub_refresh_of-Grows :
    (sub : Option ℕ) (channel : Channel) (session : ℕ) (m : Mark) (w : World)
    → Later m (mark w)
    → Grows m (sub_refresh_of sub channel session w)
unfolding sub_refresh_of
sub_refresh_of-Grows none channel session m w l = search (growth)
sub_refresh_of-Grows (some i) channel session m w l =
    search (growth, sub_refresh_token_answered-Grows)

sub_refresh-Grows :
    (channel : Channel) (session : ℕ) (m : Mark) (w : World)
    → Later m (mark w)
    → Grows m (sub_refresh channel session w)
unfolding sub_refresh
sub_refresh-Grows channel session m w l = search (growth, sub_refresh_of-Grows)

pub refresh_subscription-Grows :
    (i : ℕ) (session : ℕ) (m : Mark) (w : World)
    → Later m (mark w)
    → Grows m (refresh_subscription i session w)
unfolding refresh_subscription
refresh_subscription-Grows i session m w l = search (growth, sub_refresh-Grows)
