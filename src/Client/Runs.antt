-- ===== src/Client/Runs.antt =====
-- The theorems on steps that are over, commands, requests and the registry at concrete states
-- (centrifuge/client.py).
use centrifuge_python.Client.Undisturbed.Refused.{send_connect-Reconnecting}
use centrifuge_python.Client.Connecting.{send_connect, connect_answered}
use centrifuge_python.Client.Commands.Laws.{cancel_future-final, complete-final, complete-register}
use centrifuge_python.Client.Commands.{
  cancel_future, clear_outgoing_futures, future_error, register_future, future_success, complete,
}
use centrifuge_python.Client.Undisturbed.{
  do_disconnect-Reconnecting, connect_answered-Reconnecting, Reconnecting, Settles,
}
use centrifuge_python.Client.Undisturbed.Flow.{subscribe_answered-retries}
use centrifuge_python.Client.Examples.{subscription, online-Sound, online, whole_payloads, offline}
use centrifuge_python.Client.Commands.Refinement.{
  in_flight-refines, insert, remove, in_flight, empty_set,
}
use centrifuge_python.Client.World.{subscribing, connecting, World, succeeded, get, delete, value}
use centrifuge_python.Client.Coroutine.{raised, done}
use centrifuge_python.Client.Safety.Sound.{Sound}
use centrifuge_python.Events.{of_text, Error}
use centrifuge_python.Client.Teardown.{do_disconnect}
use centrifuge_python.Client.Requests.Laws.{requests-disconnected}
use centrifuge_python.Client.Requests.{
  history, rpc, publish, presence, presence_stats, command_timeout, raises,
}
use centrifuge_python.Client.Safety.Ending.{settled}
use centrifuge_python.Client.Subscribing.{subscribe_answered}
use centrifuge_python.Client.Registry.Laws.{
  delta_excludes_filter, remove_subscription-removes, configured, new_subscription-lifecycle,
  registered, without_sub,
}
use centrifuge_python.Client.Registry.{
  set_tags_filter, made, removed, refused, get_subscription, remove_subscription, initialize,
  new_subscription, Options, fossil_delta, initial,
}
use centrifuge_python.Client.Moves.{subscribe}
use centrifuge_python.Base.{◌≡◌, refl, true, false, none, some, [], ◌∷◌, arith}

complete-final_example :
    (future_success 2 (complete 2 succeeded online) ≡ done tt (complete 2 succeeded online))
    × (future_error 2 Error.operation_timeout (complete 2 succeeded online)
        ≡ complete 2 succeeded online)
    × (command_timeout 2 (complete 2 succeeded online) ≡ complete 2 succeeded online)
complete-final_example = complete-final 2 succeeded Error.operation_timeout online

-- A client that waits for the reply to a command.
abbrev waiting_reply : World
waiting_reply = register_future true true 2 online

cancel_future-final_example :
    (complete 2 succeeded (cancel_future 2 waiting_reply)
      ≡ settled waiting_reply (delete 2 waiting_reply.inflight_commands) waiting_reply.completed)
    × (command_timeout 2 (cancel_future 2 waiting_reply) ≡ cancel_future 2 waiting_reply)
cancel_future-final_example = cancel_future-final 2 succeeded waiting_reply

complete-register_example :
    complete 3 succeeded (register_future false true 3 online)
    ≡ settled online (delete 3 online.inflight_commands) ((3, succeeded) ∷ [])
complete-register_example = complete-register false true 3 succeeded online

requests-disconnected_example :
    (publish false (λ b. b) (λ b. b) 7 (value 5) offline
      ≡ done (raises Error.client_disconnected) offline)
    × (rpc false (λ b. b) (λ b. b) 7 (value 5) offline
        ≡ done (raises Error.client_disconnected) offline)
    × (history 7 10 none false offline ≡ done (raises Error.client_disconnected) offline)
    × (presence 7 offline ≡ done (raises Error.client_disconnected) offline)
    × (presence_stats 7 offline ≡ done (raises Error.client_disconnected) offline)
requests-disconnected_example =
    requests-disconnected false (λ b. b) (λ b. b) 7 (value 5) 10 none false offline refl

abbrev options : Options
options = record {
  token = 0;
  has_get_token = false;
  has_get_state = false;
  data' = none;
  positioned = false;
  recoverable = false;
  join_leave = false;
  delta = fossil_delta;
  tags_filter = none;
}

new_subscription-lifecycle_example :
    (new_subscription 1 8 options online ≡ made (registered 1 8 options online))
    × (get_subscription 8 (registered 1 8 options online) ≡ some 1)
    × (new_subscription 2 8 options (registered 1 8 options online)
        ≡ refused Error.duplicate_subscription)
    × (get_subscription 7 (registered 1 8 options online) ≡ get_subscription 7 online)
unfolding get_subscription get initialize
new_subscription-lifecycle_example =
    new_subscription-lifecycle 1 2 8 options options online 7 refl refl (λ e. omega arith)

remove_subscription-removes_example :
    (remove_subscription 0 offline ≡ removed (without_sub 0 offline))
    × (get_subscription 7 (without_sub 0 offline) ≡ none)
    × (subscribe 0 (without_sub 0 offline) ≡ done false (without_sub 0 offline))
    × (get_subscription 8 (without_sub 0 offline) ≡ get_subscription 8 offline)
unfolding get
remove_subscription-removes_example =
    remove_subscription-removes 0 offline 8 refl refl (λ e. omega arith)

delta_excludes_filter_example : (configured (some 5 ∷ []) (initial 8 options)).tags_filter ≡ none
unfolding initialize initial set_tags_filter
delta_excludes_filter_example = delta_excludes_filter 8 options (some 5 ∷ []) refl refl

do_disconnect-Reconnecting_example : Settles Reconnecting (do_disconnect 5 (of_text 0) true online)
do_disconnect-Reconnecting_example =
    do_disconnect-Reconnecting 5 (of_text 0) online online-Sound refl

-- A client that connects for the first time.
abbrev starting : World
starting = record offline { state = connecting }

starting-Sound : Sound starting
unfolding get
starting-Sound =
    (λ d. ground (arith, d), ((λ id i e. ground (arith, e)), λ k cb e. ground (arith, e)))

connect_answered-Reconnecting_example :
    Settles Reconnecting (connect_answered 1 0 (raised Error.operation_timeout) starting)
connect_answered-Reconnecting_example =
    connect_answered-Reconnecting 1 0 Error.operation_timeout starting starting-Sound refl

-- A client that connects with data that is refused.
abbrev refused_data : World
refused_data = record starting { data' = some none }

refused_data-Sound : Sound refused_data
refused_data-Sound = starting-Sound

send_connect-Reconnecting_example : Settles Reconnecting (send_connect 1 4 refused_data)
send_connect-Reconnecting_example =
    send_connect-Reconnecting 1 4 refused_data refused_data-Sound refl refl

in_flight-refines_example :
    (in_flight (register_future false true 3 online) 2 ≡ insert 3 (in_flight online) 2)
    × (in_flight (complete 3 succeeded online) 2 ≡ remove 3 (in_flight online) 2)
    × (in_flight (clear_outgoing_futures online) 2 ≡ empty_set 2)
in_flight-refines_example = in_flight-refines false true 3 succeeded online 2

-- A client with a subscription that is being subscribed.
abbrev awaiting : World
awaiting = record online { sub = λ _. record subscription { state = subscribing } }

awaiting-Sound : Sound awaiting
unfolding get
awaiting-Sound =
    ((λ d. ground (arith, d)), ((λ id i e. ground (arith, e)), λ k cb e. ground (arith, e)))

subscribe_answered-retries_example :
    Settles Reconnecting
      (subscribe_answered whole_payloads 0 2 1 (raised Error.operation_timeout) awaiting)
subscribe_answered-retries_example =
    subscribe_answered-retries whole_payloads 0 2 1 Error.operation_timeout awaiting awaiting-Sound
      refl refl
