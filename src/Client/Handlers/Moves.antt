-- ===== src/Client/Handlers/Moves.antt =====
-- The handlers and commands that the transitions of a subscription lead to (centrifuge/client.py).
use centrifuge_python.Client.Publications.{ApplyDelta}
use centrifuge_python.Client.Teardown.{is_connected}
use centrifuge_python.Client.Coroutine.{Answer, replied, raised}
use centrifuge_python.Client.Handlers.Publications.{sub_process_publication-Polite}
use centrifuge_python.Client.Subscription.{
  set_push_id, enter_subscribing, is_subscribing, update_subscription_push_id, renewed,
  is_subscribed,
}
use centrifuge_python.Client.Handlers.Teardown.{send_commands-Polite, do_disconnect-Polite}
use centrifuge_python.Client.Handlers.{
  fits, Polite-bind, Polite-if, command_fits, Polite, polite_end, call_fits, polite,
}
use centrifuge_python.Events.{Reason, Publication}
use centrifuge_python.Client.Commands.{next_command_id, register_future}
use centrifuge_python.Client.World.{World, modify_sub, SubscribeResult, Subscription, subscribing}
use centrifuge_python.Client.Moves.{
  move_subscribed, move_unsubscribed, send_unsubscribe, move_subscribing, start_subscribing,
  unsubscribe_answered, deliver_recovered, accept_subscribed, subscribe,
}
use centrifuge_python.Base.{ℕ, ◌∷◌, [], List, ◌≡◌, true, arith, Bool}

send_unsubscribe-Polite : (i : ℕ) (w : World) → Polite (send_unsubscribe i w)
unfolding send_unsubscribe call_fits command_fits next_command_id register_future
send_unsubscribe-Polite i w =
    Polite-if (is_connected w.state)
      (λ e. Polite-bind _ (send_commands-Polite _ _ _ e) (λ _ w'. polite_end)) polite_end

pub unsubscribe_answered-Polite :
    (connection : ℕ) (answer : Answer) (w : World)
    → Polite (unsubscribe_answered connection answer w)
unfolding unsubscribe_answered call_fits fits
unsubscribe_answered-Polite connection (raised error) w = search (polite, do_disconnect-Polite)
unsubscribe_answered-Polite connection (replied reply) w = search (polite, do_disconnect-Polite)
unsubscribe_answered-Polite connection _ w = search (polite)

pub move_unsubscribed-Polite :
    (i : ℕ) (code : ℕ) (reason : Reason) (send_unsubscribe_command : Bool) (w : World)
    → Polite (move_unsubscribed i code reason send_unsubscribe_command w)
unfolding move_unsubscribed call_fits fits
move_unsubscribed-Polite i code reason send_unsubscribe_command w =
    search (polite, send_unsubscribe-Polite) depth 8

subscribing-start_subscribing :
    (i : ℕ) (w : World) → is_subscribing ((modify_sub i start_subscribing w).sub i).state ≡ true
unfolding modify_sub start_subscribing enter_subscribing
subscribing-start_subscribing i w = ground arith

pub move_subscribing-Polite :
    (i code : ℕ) (reason : Reason) (skip_schedule_resubscribe : Bool) (w : World)
    → Polite (move_subscribing i code reason skip_schedule_resubscribe w)
unfolding move_subscribing call_fits fits
move_subscribing-Polite i code reason skip_schedule_resubscribe w =
    search (polite, subscribing-start_subscribing) depth 8

abbrev called : Subscription → Subscription
called s = record s { state = subscribing; subscribed_future = renewed s.subscribed_future }

subscribing-called :
    (i : ℕ) (w : World) → is_subscribing ((modify_sub i called w).sub i).state ≡ true
unfolding modify_sub
subscribing-called i w = ground arith

pub subscribe-Polite : (i : ℕ) (w : World) → Polite (subscribe i w)
unfolding subscribe call_fits fits
subscribe-Polite i w = search (polite, subscribing-called) depth 10

deliver_recovered-Polite :
    (apply_delta : ApplyDelta) (i : ℕ) (session : ℕ) (publications : List Publication) (w : World)
    → Polite (deliver_recovered apply_delta i session publications w)
unfolding deliver_recovered call_fits fits
deliver_recovered-Polite apply_delta i session [] w = search (polite)
deliver_recovered-Polite apply_delta i session (publication ∷ publications) w = search (
  polite,
  sub_process_publication-Polite,
  deliver_recovered-Polite apply_delta i session publications,
)

subscribed-set_push_id :
    (i p : ℕ) (w : World)
    → is_subscribed (w.sub i).state ≡ true
    → is_subscribed ((set_push_id i p w).sub i).state ≡ true
unfolding set_push_id update_subscription_push_id modify_sub
subscribed-set_push_id i p w e = ground (arith, e)

subscribed-accept_subscribed :
    (i : ℕ) (result : SubscribeResult) (w : World)
    → is_subscribed ((modify_sub i (accept_subscribed result) w).sub i).state ≡ true
unfolding modify_sub accept_subscribed
subscribed-accept_subscribed i result w = ground arith

pub move_subscribed-Polite :
    (apply_delta : ApplyDelta) (i : ℕ) (result : SubscribeResult) (w : World)
    → Polite (move_subscribed apply_delta i result w)
unfolding move_subscribed call_fits fits
move_subscribed-Polite apply_delta i result w =
    search (polite, deliver_recovered-Polite, subscribed-set_push_id, subscribed-accept_subscribed)
      depth 10
