-- ===== src/Client/Handlers/ServerSubs.antt =====
-- The handlers and commands that the server-side subscriptions of a connect reply lead to
-- (centrifuge/client.py).
use centrifuge_python.Client.Handlers.{
  second_true, Polite-bind, right_or, Polite, polite_call, polite_end, Polite-if, fits, call_fits,
  polite,
}
use centrifuge_python.Client.Handlers.Publications.{process_server_publication-Polite}
use centrifuge_python.Client.Moves.{subscribe}
use centrifuge_python.Client.World.{get, Dict, World, ServerSubscribe}
use centrifuge_python.Client.Handlers.Messages.{has-put}
use centrifuge_python.Client.Teardown.{connection_current, is_connected}
use centrifuge_python.Events.{Channel, Publication}
use centrifuge_python.Client.Messages.{server_subscription}
use centrifuge_python.Client.ServerSubs.{
  add_server_subs, recover_channels, process_server_subs, announce_deleted, recover_channel,
}
use centrifuge_python.Client.Registry.{is_some}
use centrifuge_python.Base.{◌==◌, ℕ, ◌∷◌, [], List}

add_server_subs-Polite :
    (attempt : ℕ) (subs : Dict ServerSubscribe) (w : World)
    → Polite (add_server_subs attempt subs w)
unfolding add_server_subs call_fits fits
add_server_subs-Polite attempt [] w = polite_end
add_server_subs-Polite attempt ((channel, s) ∷ subs) w =
    Polite-if (connection_current attempt w)
      (λ _.
        polite_call (has-put channel (server_subscription s) w.server_subs)
          (λ _ w'. add_server_subs-Polite attempt subs w'))
      polite_end

recover_channel-Polite :
    (attempt : ℕ) (channel : Channel) (publications : List Publication) (w : World)
    → Polite (recover_channel attempt channel publications w)
unfolding recover_channel call_fits fits
recover_channel-Polite attempt channel [] w = search (polite)
recover_channel-Polite attempt channel (publication ∷ publications) w =
    Polite-if (connection_current attempt w)
      (λ c.
        Polite-bind _
          (process_server_publication-Polite channel publication w (
            right_or (is_some (get channel w.server_subs)) (is_connected w.state)
              (second_true (w.transport_id == attempt) (is_connected w.state) c)))
          (λ _ w'. recover_channel-Polite attempt channel publications w'))
      polite_end

recover_channels-Polite :
    (attempt : ℕ) (subs : Dict ServerSubscribe) (w : World)
    → Polite (recover_channels attempt subs w)
unfolding recover_channels call_fits fits
recover_channels-Polite attempt [] w = search (polite)
recover_channels-Polite attempt ((channel, subscribe) ∷ subs) w =
    search (polite, recover_channel-Polite, recover_channels-Polite attempt subs)

announce_deleted-Polite :
    (attempt : ℕ) (channels : List Channel) (w : World)
    → Polite (announce_deleted attempt channels w)
unfolding announce_deleted call_fits fits
announce_deleted-Polite attempt [] w = search (polite)
announce_deleted-Polite attempt (channel ∷ channels) w =
    search (polite, announce_deleted-Polite attempt channels)

pub process_server_subs-Polite :
    (subs : Dict ServerSubscribe) (attempt : ℕ) (w : World)
    → Polite (process_server_subs subs attempt w)
unfolding process_server_subs call_fits fits
process_server_subs-Polite subs attempt w =
    search (polite, add_server_subs-Polite, recover_channels-Polite, announce_deleted-Polite)
