-- ===== src/Client/Guarded.antt =====
-- What an exception does that escapes a handler of the app (centrifuge/client.py): `_GuardedEvents` and
-- `_handler_raised`. The text of the reason is a parameter.
use centrifuge_python.Client.Teardown.{do_disconnect}
use centrifuge_python.Client.Subscription.{publication_failed}
use centrifuge_python.Client.World.{modify_sub, delete, World}
use centrifuge_python.Client.Coroutine.{Co, update, ◌>>◌}
use centrifuge_python.Base.{ℕ, ◌+◌, false}
use centrifuge_python.Codes.{DisconnectedCode, disconnected_number}
use centrifuge_python.Events.{Text, Channel, of_text}

-- The handler that raised: `on_publication` of a subscription or of the client, or another one.
pub data Raised : Type 0 where
  publication_handler : ℕ → Raised
  server_publication_handler : Channel → Raised
  other_handler : Raised

-- `_server_publication_failed`
unfoldable pub server_publication_failed : Channel → World → World
server_publication_failed channel w = record w { server_pending = delete channel w.server_pending }

-- `self._publication_failed(args[0])`
unfoldable pub not_delivered : Raised → World → World
unfolding server_publication_failed
not_delivered (publication_handler i) w = modify_sub i publication_failed w
not_delivered (server_publication_handler channel) w = server_publication_failed channel w
not_delivered other_handler w = w

-- `_handler_raised`
unfoldable pub on_handler_raised : Text → Co (Unit {0})
on_handler_raised message =
    update (λ w. record w { handler_failures = w.handler_failures + 1 })
    >> do_disconnect (disconnected_number DisconnectedCode.bad_protocol) (of_text message) false

-- The `except` of `_GuardedEvents`.
unfoldable pub guarded : Raised → Text → Co (Unit {0})
guarded handler message = update (not_delivered handler) >> on_handler_raised message
