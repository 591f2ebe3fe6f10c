-- ===== src/Client/Safety/Recovered.antt =====
-- The invariant through `_process_server_subs` (centrifuge/client.py).
use centrifuge_python.Base.{ℕ, List, [], ◌∷◌}
use centrifuge_python.Client.World.{ServerSubscribe, Dict}
use centrifuge_python.Events.{Publication, Channel}
use centrifuge_python.Client.Coroutine.{ends, waits}
use centrifuge_python.Client.Teardown.{connection_current}
use centrifuge_python.Client.ServerSubs.{
  add_server_subs, recover_channel, recover_channels, announce_deleted, process_server_subs,
}
use centrifuge_python.Client.Safety.Rules.{Keeps, Safe-bind, Safe-if, Keeps-if}
use centrifuge_python.Client.Safety.Sound.{Sound}
use centrifuge_python.Client.Safety.Pushes.{process_server_publication-Keeps}

add_server_subs-Keeps :
    (attempt : ℕ) (subs : Dict ServerSubscribe) → Keeps Sound (add_server_subs attempt subs)
unfolding add_server_subs
add_server_subs-Keeps attempt [] w s = ends s
add_server_subs-Keeps attempt ((channel, subscribe) ∷ subs) w s =
    Safe-if (connection_current attempt w)
      (λ _. waits s (λ ans. add_server_subs-Keeps attempt subs)) (ends s)

recover_channel-Keeps :
    (attempt : ℕ) (channel : Channel) (publications : List Publication)
    → Keeps Sound (recover_channel attempt channel publications)
unfolding recover_channel
recover_channel-Keeps attempt channel [] w s = ends s
recover_channel-Keeps attempt channel (publication ∷ publications) w s =
    Safe-if (connection_current attempt w)
      (λ _.
        Safe-bind _ (process_server_publication-Keeps channel publication w s)
          (λ _. recover_channel-Keeps attempt channel publications))
      (ends s)

recover_channels-Keeps :
    (attempt : ℕ) (subs : Dict ServerSubscribe) → Keeps Sound (recover_channels attempt subs)
unfolding recover_channels
recover_channels-Keeps attempt [] w s = ends s
recover_channels-Keeps attempt ((channel, subscribe) ∷ subs) w s =
    Safe-if subscribe.recovered
      (λ _.
        Safe-bind _ (recover_channel-Keeps attempt channel subscribe.publications w s)
          (λ current w' s'.
            Keeps-if current _ _ w' (recover_channels-Keeps attempt subs w' s') (ends s')))
      (recover_channels-Keeps attempt subs w s)

announce_deleted-Keeps :
    (attempt : ℕ) (channels : List Channel) → Keeps Sound (announce_deleted attempt channels)
unfolding announce_deleted
announce_deleted-Keeps attempt [] w s = ends s
announce_deleted-Keeps attempt (channel ∷ channels) w s =
    Safe-if (connection_current attempt w)
      (λ _. waits s (λ ans. announce_deleted-Keeps attempt channels)) (ends s)

pub process_server_subs-Keeps :
    (subs : Dict ServerSubscribe) (attempt : ℕ) → Keeps Sound (process_server_subs subs attempt)
unfolding process_server_subs
process_server_subs-Keeps subs attempt w s =
    Safe-bind _ (add_server_subs-Keeps attempt subs w s) (λ added w' s'.
      Safe-if added
        (λ _. Safe-bind _ (recover_channels-Keeps attempt subs w' s') (λ recovered w₂ s₂.
          Safe-if recovered (λ _. announce_deleted-Keeps attempt _ _ s₂) (ends s₂)))
        (ends s'))
