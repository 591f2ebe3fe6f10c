-- ===== src/Client/Growth/ServerSubs.antt =====
-- The growth of the numbers through the server-side subscriptions of a connect reply
-- (centrifuge/client.py).
use centrifuge_python.Client.Moves.{subscribe}
use centrifuge_python.Events.{Publication, Channel}
use centrifuge_python.Client.ServerSubs.{
  add_server_subs, announce_deleted, process_server_subs, recover_channels, recover_channel,
}
use centrifuge_python.Client.World.{World, ServerSubscribe, Dict}
use centrifuge_python.Client.Growth.Publications.{process_server_publication-Grows}
use centrifuge_python.Client.Growth.{mark, Later, Grows, Mark, growth}
use centrifuge_python.Base.{ℕ, ◌∷◌, [], List}

add_server_subs-Grows :
    (attempt : ℕ) (subs : Dict ServerSubscribe) (m : Mark) (w : World)
    → Later m (mark w)
    → Grows m (add_server_subs attempt subs w)
unfolding add_server_subs
add_server_subs-Grows attempt [] m w l = search (growth)
add_server_subs-Grows attempt ((channel, subscribe) ∷ subs) m w l =
    search (growth, add_server_subs-Grows attempt subs)

recover_channel-Grows :
    (attempt : ℕ) (channel : Channel) (publications : List Publication) (m : Mark) (w : World)
    → Later m (mark w)
    → Grows m (recover_channel attempt channel publications w)
unfolding recover_channel
recover_channel-Grows attempt channel [] m w l = search (growth)
recover_channel-Grows attempt channel (publication ∷ publications) m w l =
    search
      (growth, process_server_publication-Grows, recover_channel-Grows attempt channel publications)

recover_channels-Grows :
    (attempt : ℕ) (subs : Dict ServerSubscribe) (m : Mark) (w : World)
    → Later m (mark w)
    → Grows m (recover_channels attempt subs w)
unfolding recover_channels
recover_channels-Grows attempt [] m w l = search (growth)
recover_channels-Grows attempt ((channel, subscribe) ∷ subs) m w l =
    search (growth, recover_channel-Grows, recover_channels-Grows attempt subs)

announce_deleted-Grows :
    (attempt : ℕ) (channels : List Channel) (m : Mark) (w : World)
    → Later m (mark w)
    → Grows m (announce_deleted attempt channels w)
unfolding announce_deleted
announce_deleted-Grows attempt [] m w l = search (growth)
announce_deleted-Grows attempt (channel ∷ channels) m w l =
    search (growth, announce_deleted-Grows attempt channels)

pub process_server_subs-Grows :
    (subs : Dict ServerSubscribe) (attempt : ℕ) (m : Mark) (w : World)
    → Later m (mark w)
    → Grows m (process_server_subs subs attempt w)
unfolding process_server_subs
process_server_subs-Grows subs attempt m w l =
    search (growth, add_server_subs-Grows, recover_channels-Grows, announce_deleted-Grows)
