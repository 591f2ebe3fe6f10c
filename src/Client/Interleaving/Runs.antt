-- ===== src/Client/Interleaving/Runs.antt =====
-- Runs of the client, and the theorems at concrete inputs.
use centrifuge_python.Client.Connecting.{
  transport_answered, token_answered, connect_answered, connect, set_token,
}
use centrifuge_python.Client.Interleaving.Past.{
  late_handshake, do_disconnect-over, session-over, connection-over,
}
use centrifuge_python.Client.Coroutine.{opened, token_of, Step, done, wait, returned}
use centrifuge_python.Client.Interleaving.Begin.{new_client-Reaches}
use centrifuge_python.Client.Construction.{
  constructed, is_wss, ClientOptions, initial_client, new_client,
}
use centrifuge_python.Proxy.{environment, validate_proxy}
use centrifuge_python.Events.{of_text, Publication}
use centrifuge_python.Client.World.{modify_sub, World, get}
use centrifuge_python.Client.Subscription.{enter_subscribing, session_current}
use centrifuge_python.Client.Teardown.{
  announce_moved, clear_connected_state, enter_all, attempt_current, connection_current,
  emit_teardown_event, disconnect, do_disconnect, tear_down,
}
use centrifuge_python.Client.Messages.{connection_lost, process_message, sub_for_push}
use centrifuge_python.Client.Subscribing.{sub_token_answered, subscribe_answered, state_answered}
use centrifuge_python.Client.Interleaving.Growth.{Follows-Later}
use centrifuge_python.Client.Interleaving.{
  Follows, enter, connect_called, disconnect_called, set_token_called, Suspended, left, held,
  Reaches, starts, enters, resumes,
}
use centrifuge_python.Client.Refreshing.{
  sub_refresh_answered, sub_refresh_token_answered, refresh_token_answered, refresh_answered,
}
use centrifuge_python.Client.Growth.{mark, Later}
use centrifuge_python.Client.Commands.{next_command_id}
use centrifuge_python.Client.Interleaving.Invariant.{
  next_command_id-fresh, Reaches-Sound, sub_for_push-routed,
}
use centrifuge_python.Client.Examples.{
  offline-Sound, online-Sound, whole_payloads, subscription, online, offline,
}
use centrifuge_python.Base.{◌<◌, true, false, ◌≡◌, refl, none, some, [], ◌∷◌, arith, List}
use centrifuge_python.Client.Publications.{deliver}
use centrifuge_python.Client.Safety.Sound.{Sound, Idle, Consistent}
use centrifuge_python.Client.Safety.Ending.{tear_down-Idle}
use centrifuge_python.Client.Interleaving.Delivery.{resume, deliver-offset}

abbrev continuation : Step (Unit {0}) → Suspended
continuation (done a w) answer w' = done a w'
continuation (wait c w k) answer w' = k answer w'

abbrev connecting_step : Step (Unit {0})
connecting_step = enter whole_payloads connect_called offline

abbrev disconnect_step : Step (Unit {0})
disconnect_step = enter whole_payloads disconnect_called (left connecting_step)

program : Unit {0}
unfolding enter connect disconnect do_disconnect tear_down set_token emit_teardown_event
program = tt

-- The app disconnects while the handler of `on_connecting` runs, which returns then.
disconnected_early :
    Reaches whole_payloads offline
      (left (continuation connecting_step returned (left disconnect_step)))
      (held
        (continuation connecting_step returned (left disconnect_step))
        (continuation disconnect_step ∷ []))
unfolding program
disconnected_early =
    resumes (continuation disconnect_step ∷ []) (continuation connecting_step) [] returned
      (enters disconnect_called (enters connect_called starts))

Reaches-Sound_example : Sound (left (continuation connecting_step returned (left disconnect_step)))
Reaches-Sound_example =
    Reaches-Sound whole_payloads offline
      (left (continuation connecting_step returned (left disconnect_step)))
      (held (continuation connecting_step returned (left disconnect_step))
        (continuation disconnect_step ∷ []))
      offline-Sound disconnected_early

sub_for_push-routed_example : (subscription.push_id) ≡ 4
unfolding program sub_for_push get
sub_for_push-routed_example =
    sub_for_push-routed whole_payloads online (record online { token = 9 }) [] online-Sound
      (enters (set_token_called 9) starts) 0 4 0 (omega arith) refl

tear_down-Idle_example : Idle (tear_down 3014 true online) × Consistent (tear_down 3014 true online)
tear_down-Idle_example = tear_down-Idle 3014 true online online-Sound

abbrev publication : Publication
publication = record { offset = 11; data' = some 6; info = none; tags = none; delta = false }

deliver-offset_example :
    ((left (resume (deliver 0 2 publication online) returned online)).sub 0).offset ≡ 11
unfolding session_current
deliver-offset_example = deliver-offset 0 2 publication returned online online

next_command_id-fresh_example :
    get (next_command_id (record online { token = 9 })).command_id online.inflight_commands ≡ none
unfolding program
next_command_id-fresh_example =
    next_command_id-fresh whole_payloads online (record online { token = 9 }) [] online-Sound
      (enters (set_token_called 9) starts)

-- The app disconnects, and gives a token after that.
abbrev dropped : World
dropped = left (enter whole_payloads disconnect_called online)

abbrev dropped_pool : List Suspended
dropped_pool = held (enter whole_payloads disconnect_called online) []

drops : Reaches whole_payloads online dropped dropped_pool
drops = enters disconnect_called starts

abbrev token_given : World
token_given = left (enter whole_payloads (set_token_called 9) dropped)

gives_token : Follows whole_payloads dropped dropped_pool token_given dropped_pool
unfolding enter set_token
gives_token = enters (set_token_called 9) starts

Follows-Later_example : Later (mark dropped) (mark token_given)
Follows-Later_example =
    Follows-Later whole_payloads online dropped token_given dropped_pool dropped_pool drops
      gives_token

teardown_program : Unit {0}
unfolding program clear_connected_state announce_moved enter_all modify_sub enter_subscribing get
teardown_program = tt

passed_connection : online.transport_id < dropped.transport_id
unfolding teardown_program
passed_connection = omega arith

connection-over_example :
    (token_answered online.transport_id (opened 3) token_given ≡ done tt token_given)
    × (connect_answered online.transport_id 9 (opened 3) token_given ≡ done tt token_given)
    × (transport_answered online.transport_id (opened 3) token_given
        ≡ done tt (late_handshake online.transport_id (opened 3) token_given))
    × (refresh_token_answered online.transport_id (opened 3) token_given ≡ done tt token_given)
    × (refresh_answered online.transport_id (opened 3) token_given ≡ done tt token_given)
    × (process_message whole_payloads none online.transport_id 5 token_given ≡ done tt token_given)
    × (connection_lost 3500 4 online.transport_id token_given ≡ done tt token_given)
connection-over_example =
    connection-over whole_payloads online dropped token_given dropped_pool dropped_pool drops
      gives_token online.transport_id passed_connection 9 4 5 (opened 3) none 3500

passed_session : (online.sub 0).attempt < (dropped.sub 0).attempt
unfolding teardown_program
passed_session = omega arith

session-over_example :
    (state_answered 0 2 1 (token_of 6) token_given ≡ done false token_given)
    × (sub_token_answered whole_payloads 0 2 1 (token_of 6) token_given ≡ done true token_given)
    × (subscribe_answered whole_payloads 0 2 1 (token_of 6) token_given ≡ done true token_given)
    × (sub_refresh_token_answered 0 7 2 1 (token_of 6) token_given ≡ done tt token_given)
    × (sub_refresh_answered 0 2 1 (token_of 6) token_given ≡ done tt token_given)
session-over_example =
    session-over whole_payloads online dropped token_given dropped_pool dropped_pool drops
      gives_token 0 2 passed_session 1 7 (token_of 6)

do_disconnect-over_example :
    (attempt_current 1 (left (do_disconnect 3014 (of_text 5) true online)) ≡ false)
    × (connection_current 1 (left (do_disconnect 3014 (of_text 5) true online)) ≡ false)
do_disconnect-over_example =
    do_disconnect-over whole_payloads online online
      (left (do_disconnect 3014 (of_text 5) true online)) []
      (held (do_disconnect 3014 (of_text 5) true online) []) 3014 (of_text 5) true starts refl
      starts 1 (omega arith)

-- "WSS://h", with TLS options.
abbrev options : ClientOptions
options = record {
  address = 87 ∷ 83 ∷ 83 ∷ 58 ∷ 47 ∷ 47 ∷ 104 ∷ [];
  token = 9;
  has_get_token = true;
  timeout = 5000;
  name = 3;
  version = 0;
  data' = none;
  use_protobuf = false;
  headers = 0;
  ssl_context = some 1;
  proxy = environment;
}

options_accepted : new_client (λ _. none) false options ≡ constructed (initial_client options)
unfolding new_client validate_proxy is_wss
options_accepted = refl

abbrev connected_first : World
connected_first = left (enter whole_payloads connect_called (initial_client options))

new_client-Reaches_example :
    Sound connected_first
    × (get (next_command_id connected_first).command_id connected_first.inflight_commands ≡ none)
new_client-Reaches_example =
    new_client-Reaches (λ _. none) false options (initial_client options) connected_first
      whole_payloads (held (enter whole_payloads connect_called (initial_client options)) [])
      options_accepted (enters connect_called starts)
