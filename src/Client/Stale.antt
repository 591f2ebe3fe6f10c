-- ===== src/Client/Stale.antt =====
-- Steps of an attempt, a connection or a session that is over (centrifuge/client.py).
use centrifuge_python.Client.Publications.{ApplyDelta}
use centrifuge_python.Client.World.{World}
use centrifuge_python.Client.Connecting.{token_answered, connect_token_failed, connect_answered}
use centrifuge_python.Client.Subscribing.{
  subscribe_current, is_client_disconnected, subscribe_token_failed, sub_token_answered,
  subscribe_answered, subscribe_failed,
}
use centrifuge_python.Events.{Channel, Text}
use centrifuge_python.Client.Coroutine.{
  token_of, returned, replied, opened, Answer, raised, protocol_error, connection_closed, done,
  cancelled, position_of,
}
use centrifuge_python.Client.Teardown.{connection_current, attempt_current}
use centrifuge_python.Client.Refreshing.{
  sub_refresh_answered, refresh_token_failed, refresh_token_answered, sub_refresh_current,
  sub_refresh_token_answered, sub_refresh_token_failed, refresh_answered,
}
use centrifuge_python.Base.{ℕ, ◌≡◌, refl, Bool, true, false, not, ◌&&◌, arith}

-- What an attempt to connect that is over does with the answers to its token request and its command:
-- nothing.
pub connect-stale :
    (attempt : ℕ) (sent_token : Text) (answer : Answer) (w : World)
    → attempt_current attempt w ≡ false
    → (token_answered attempt answer w ≡ done tt w)
      × (connect_answered attempt sent_token answer w ≡ done tt w)
unfolding token_answered connect_answered connect_token_failed
connect-stale attempt sent_token (raised error) w e = (rw e refl, rw e refl)
connect-stale attempt sent_token (replied reply) w e = (rw e refl, rw e refl)
connect-stale attempt sent_token (token_of token) w e = (rw e refl, refl)
connect-stale attempt sent_token (position_of position) w e = (rw e refl, refl)
connect-stale attempt sent_token (opened conn) w e = (rw e refl, refl)
connect-stale attempt sent_token returned w e = (rw e refl, refl)
connect-stale attempt sent_token cancelled w e = (rw e refl, refl)
connect-stale attempt sent_token connection_closed w e = (rw e refl, refl)
connect-stale attempt sent_token protocol_error w e = (rw e refl, refl)

second_false : (a b : Bool) → b ≡ false → (a && b) ≡ false
second_false a b e = ground (arith, e)

-- What a subscribe flow that is over does with the answers to its token request and its command: nothing.
pub subscribe-stale :
    (apply_delta : ApplyDelta) (i attempt connection : ℕ) (answer : Answer) (w : World)
    → subscribe_current i attempt connection w ≡ false
    → (sub_token_answered apply_delta i attempt connection answer w ≡ done true w)
      × (subscribe_answered apply_delta i attempt connection answer w ≡ done true w)
unfolding sub_token_answered subscribe_answered subscribe_token_failed subscribe_failed
subscribe-stale apply_delta i attempt connection (raised error) w e =
    (rw e refl, rw (second_false (not (is_client_disconnected error)) _ e) refl)
subscribe-stale apply_delta i attempt connection (replied reply) w e = (rw e refl, rw e refl)
subscribe-stale apply_delta i attempt connection (token_of token) w e = (rw e refl, refl)
subscribe-stale apply_delta i attempt connection (position_of position) w e = (rw e refl, refl)
subscribe-stale apply_delta i attempt connection (opened conn) w e = (rw e refl, refl)
subscribe-stale apply_delta i attempt connection returned w e = (rw e refl, refl)
subscribe-stale apply_delta i attempt connection cancelled w e = (rw e refl, refl)
subscribe-stale apply_delta i attempt connection connection_closed w e = (rw e refl, refl)
subscribe-stale apply_delta i attempt connection protocol_error w e = (rw e refl, refl)

-- What the refresh of the token of a connection that is over does with the answers to its token request
-- and its command: nothing.
pub refresh-stale :
    (connection : ℕ) (answer : Answer) (w : World)
    → connection_current connection w ≡ false
    → (refresh_token_answered connection answer w ≡ done tt w)
      × (refresh_answered connection answer w ≡ done tt w)
unfolding refresh_token_answered refresh_answered refresh_token_failed
refresh-stale connection (raised error) w e = (rw e refl, rw e refl)
refresh-stale connection (replied reply) w e = (rw e refl, rw e refl)
refresh-stale connection (token_of token) w e = (rw e refl, refl)
refresh-stale connection (position_of position) w e = (rw e refl, refl)
refresh-stale connection (opened conn) w e = (rw e refl, refl)
refresh-stale connection returned w e = (rw e refl, refl)
refresh-stale connection cancelled w e = (rw e refl, refl)
refresh-stale connection connection_closed w e = (rw e refl, refl)
refresh-stale connection protocol_error w e = (rw e refl, refl)

-- What the refresh of a subscription's token does with the answers to its token request and its command
-- once the session or the connection is over: nothing.
pub sub_refresh-stale :
    (i : ℕ) (channel : Channel) (session connection : ℕ) (answer : Answer) (w : World)
    → sub_refresh_current i session connection w ≡ false
    → (sub_refresh_token_answered i channel session connection answer w ≡ done tt w)
      × (sub_refresh_answered i session connection answer w ≡ done tt w)
unfolding sub_refresh_token_answered sub_refresh_answered sub_refresh_token_failed
sub_refresh-stale i channel session connection (raised error) w e = (rw e refl, rw e refl)
sub_refresh-stale i channel session connection (replied reply) w e = (rw e refl, rw e refl)
sub_refresh-stale i channel session connection (token_of token) w e = (rw e refl, refl)
sub_refresh-stale i channel session connection (position_of position) w e = (rw e refl, refl)
sub_refresh-stale i channel session connection (opened conn) w e = (rw e refl, refl)
sub_refresh-stale i channel session connection returned w e = (rw e refl, refl)
sub_refresh-stale i channel session connection cancelled w e = (rw e refl, refl)
sub_refresh-stale i channel session connection connection_closed w e = (rw e refl, refl)
sub_refresh-stale i channel session connection protocol_error w e = (rw e refl, refl)
