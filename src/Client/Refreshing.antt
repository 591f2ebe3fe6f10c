-- ===== src/Client/Refreshing.antt =====
-- The refresh of the connection token and of a subscription token (centrifuge/client.py): `_refresh`,
-- `_sub_refresh` and what they call.
use centrifuge_python.Base.{
  ℕ, Bool, true, false, not, ◌&&◌, Option, none, some, ◌==◌, if◌then◌else◌,
}
use centrifuge_python.Codes.{DisconnectedCode, UnsubscribedCode, ErrorCode, unsubscribed_number}
use centrifuge_python.Events.{
  Text, empty_text, Channel, Error, of_unsubscribed, of_text, Event, on_subscription_error,
}
use centrifuge_python.Client.World.{
  World, Subscription, RefreshResult, ReplyError, after_ttl, refresh_retry, refresh_command,
  sub_refresh_command, modify_sub, get,
}
use centrifuge_python.Client.Coroutine.{
  Co, Answer, get_token, sub_get_token, reply_of, raised, replied, token_of, pass, read, update,
  branch, when, await, emit, ◌>>=◌, ◌>>◌,
}
use centrifuge_python.Client.Subscription.{session_current}
use centrifuge_python.Client.Commands.{next_command_id, register_future}
use centrifuge_python.Client.Teardown.{connection_current, do_disconnect, stop_with, send_commands}
use centrifuge_python.Client.Moves.{move_unsubscribed}
use centrifuge_python.Client.Connecting.{on_error_code, is_unauthorized}

-- `_schedule_refresh_retry`
unfoldable pub schedule_refresh_retry : ℕ → World → World
schedule_refresh_retry connection w =
    if connection_current connection w && w.has_get_token
    then record w { refresh_timer = some refresh_retry }
    else w

-- `_refresh_token_failed`
unfoldable pub refresh_token_failed : ℕ → Error → Co (Unit {0})
refresh_token_failed connection error = when (connection_current connection) (
    branch (λ _. is_unauthorized error) (stop_with DisconnectedCode.unauthorized)
      (emit (on_error_code ErrorCode.client_refresh_token error)
        >> update (schedule_refresh_retry connection)))

-- The result of a refresh command that has no error. A reply without a result is a `KeyError`, which
-- ends the task.
unfoldable pub refresh_accepted : Option RefreshResult → World → World
refresh_accepted none w = w
refresh_accepted (some result) w =
    if result.expires then record w { refresh_timer = some (after_ttl result.ttl) } else w

unfoldable pub refresh_replied : ℕ → Option ReplyError → Option RefreshResult → Co (Unit {0})
refresh_replied connection none result = update (refresh_accepted result)
refresh_replied connection (some error) result =
    branch (λ _. not error.temporary) (do_disconnect error.code (of_text error.message) false)
      (emit (
          on_error_code ErrorCode.client_refresh_token
            (Error.reply_error error.code error.message error.temporary))
        >> update (schedule_refresh_retry connection))

-- `_refresh` with the answer to its command.
unfoldable pub refresh_answered : ℕ → Answer → Co (Unit {0})
refresh_answered connection (raised error) = when (connection_current connection) (
    emit (on_error_code ErrorCode.client_refresh_token error)
    >> update (schedule_refresh_retry connection))
refresh_answered connection (replied reply) =
    when (connection_current connection) (refresh_replied connection reply.error reply.refresh)
refresh_answered connection _ = pass

-- `_refresh` with a token, from its command on.
unfoldable pub send_refresh : ℕ → Text → Co (Unit {0})
send_refresh connection token = do
  update (λ w. record w { token = token })
  update next_command_id
  cmd_id ← read (λ w. w.command_id)
  update (λ w. register_future false w.timeout cmd_id w)
  send_commands cmd_id (refresh_command cmd_id token)
  answer ← await (reply_of cmd_id)
  refresh_answered connection answer

-- `_refresh` with the answer of the app.
unfoldable pub refresh_token_answered : ℕ → Answer → Co (Unit {0})
refresh_token_answered connection (token_of token) = when (connection_current connection) (
    branch (λ _. token == empty_text) (stop_with DisconnectedCode.unauthorized)
      (send_refresh connection token))
refresh_token_answered connection (raised error) = refresh_token_failed connection error
refresh_token_answered connection _ = refresh_token_failed connection Error.other_error

-- `_refresh`
unfoldable pub refresh : ℕ → Co (Unit {0})
refresh connection =
    when (λ w. connection_current connection w && w.has_get_token)
      (do answer ← await get_token; refresh_token_answered connection answer)

-- The test `current` of `_sub_refresh` for the subscription `i`.
abbrev pub sub_refresh_current : ℕ → ℕ → ℕ → World → Bool
sub_refresh_current i session connection w =
    session_current session (w.sub i) && connection_current connection w

abbrev pub on_sub_error : ℕ → ErrorCode → Error → Event
on_sub_error i code error = on_subscription_error i (record { code = code; error = error })

-- `_schedule_sub_refresh_retry`
unfoldable pub schedule_sub_refresh_retry : ℕ → Subscription → Subscription
schedule_sub_refresh_retry session s =
    if session_current session s && s.has_get_token
    then record s { refresh_timer = some refresh_retry }
    else s

abbrev pub unsubscribe_unauthorized : ℕ → Bool → Co (Unit {0})
unsubscribe_unauthorized i send =
    move_unsubscribed i (unsubscribed_number UnsubscribedCode.unauthorized)
      (of_unsubscribed UnsubscribedCode.unauthorized) send

-- `_sub_refresh_token_failed`
unfoldable pub sub_refresh_token_failed : ℕ → ℕ → ℕ → Error → Co (Unit {0})
sub_refresh_token_failed i session connection error =
    when (sub_refresh_current i session connection) (
      branch (λ _. is_unauthorized error) (unsubscribe_unauthorized i true)
        (emit (on_sub_error i ErrorCode.subscription_refresh_token error)
          >> update (modify_sub i (schedule_sub_refresh_retry session))))

unfoldable pub sub_refresh_accepted : Option RefreshResult → Subscription → Subscription
sub_refresh_accepted none s = s
sub_refresh_accepted (some result) s =
    if result.expires then record s { refresh_timer = some (after_ttl result.ttl) } else s

unfoldable pub sub_refresh_replied :
    ℕ → ℕ → Option ReplyError → Option RefreshResult → Co (Unit {0})
sub_refresh_replied i session none result = update (modify_sub i (sub_refresh_accepted result))
sub_refresh_replied i session (some error) result =
    branch (λ _. not error.temporary) (move_unsubscribed i error.code (of_text error.message) true)
      (emit (
          on_sub_error i ErrorCode.subscription_refresh_token
            (Error.reply_error error.code error.message error.temporary))
        >> update (modify_sub i (schedule_sub_refresh_retry session)))

-- `_sub_refresh` with the answer to its command.
unfoldable pub sub_refresh_answered : ℕ → ℕ → ℕ → Answer → Co (Unit {0})
sub_refresh_answered i session connection (raised error) =
    when (sub_refresh_current i session connection) (
      emit (on_sub_error i ErrorCode.subscription_refresh_token error)
      >> update (modify_sub i (schedule_sub_refresh_retry session)))
sub_refresh_answered i session connection (replied reply) =
    when (sub_refresh_current i session connection)
      (sub_refresh_replied i session reply.error reply.sub_refresh)
sub_refresh_answered i session connection _ = pass

-- `_sub_refresh` with a token, from its command on.
unfoldable pub send_sub_refresh : ℕ → Channel → ℕ → ℕ → Text → Co (Unit {0})
send_sub_refresh i channel session connection token = do
  update next_command_id
  cmd_id ← read (λ w. w.command_id)
  update (modify_sub i (λ s. record s { token = token }))
  update (λ w. register_future false w.timeout cmd_id w)
  send_commands cmd_id (sub_refresh_command cmd_id channel token)
  answer ← await (reply_of cmd_id)
  sub_refresh_answered i session connection answer

-- `_sub_refresh` with the answer of the app.
unfoldable pub sub_refresh_token_answered : ℕ → Channel → ℕ → ℕ → Answer → Co (Unit {0})
sub_refresh_token_answered i channel session connection (token_of token) =
    when (sub_refresh_current i session connection) (
      branch (λ _. token == empty_text) (unsubscribe_unauthorized i true)
        (send_sub_refresh i channel session connection token))
sub_refresh_token_answered i channel session connection (raised error) =
    sub_refresh_token_failed i session connection error
sub_refresh_token_answered i channel session connection _ =
    sub_refresh_token_failed i session connection Error.other_error

-- `_sub_refresh` for the subscription that the channel has.
unfoldable pub sub_refresh_of : Option ℕ → Channel → ℕ → Co (Unit {0})
sub_refresh_of none channel session = pass
sub_refresh_of (some i) channel session = do
  connection ← read (λ w. w.transport_id)
  when (λ w. sub_refresh_current i session connection w && (w.sub i).has_get_token)
      (do
        answer ← await (sub_get_token i)
        sub_refresh_token_answered i channel session connection answer)

-- `_sub_refresh`
unfoldable pub sub_refresh : Channel → ℕ → Co (Unit {0})
sub_refresh channel session = do
  found ← read (λ w. get channel w.subs)
  sub_refresh_of found channel session

-- `Subscription._refresh`
unfoldable pub refresh_subscription : ℕ → ℕ → Co (Unit {0})
refresh_subscription i session =
    when (λ w. session_current session (w.sub i))
      (do channel ← read (λ w. (w.sub i).channel); sub_refresh channel session)
