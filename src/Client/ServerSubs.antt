-- ===== src/Client/ServerSubs.antt =====
-- The server-side subscriptions of a connect reply (centrifuge/client.py): `_process_server_subs`.
use centrifuge_python.Base.{ℕ, Bool, true, false, none, some, List, [], ◌∷◌, if◌then◌else◌}
use centrifuge_python.Events.{Channel, Publication, on_server_subscribed, on_server_unsubscribed}
use centrifuge_python.Client.World.{ServerSubscription, ServerSubscribe, Dict, get, put, delete}
use centrifuge_python.Client.Coroutine.{
  Co, pass, ret, read, update, branch, when, emit, ◌>>=◌, ◌>>◌,
}
use centrifuge_python.Client.Teardown.{connection_current}
use centrifuge_python.Client.Publications.{process_server_publication}
use centrifuge_python.Client.Moves.{position}
use centrifuge_python.Client.Messages.{server_subscription}

-- The first loop of `_process_server_subs`. `false` where the connection is over.
unfoldable pub add_server_subs : ℕ → Dict ServerSubscribe → Co Bool
add_server_subs attempt [] = ret true
add_server_subs attempt ((channel, subscribe) ∷ subs) =
    branch (connection_current attempt)
      (do
        update (λ w. record w {
          server_subs = put channel (server_subscription subscribe) w.server_subs;
        })
        emit (
            on_server_subscribed (record {
              channel = channel;
              recoverable = subscribe.recoverable;
              positioned = subscribe.positioned;
              stream_position =
                  position subscribe.positioned subscribe.recoverable subscribe.offset
                    subscribe.epoch;
              was_recovering = subscribe.was_recovering;
              recovered = subscribe.recovered;
              data' = subscribe.data';
            }))
        add_server_subs attempt subs)
      (ret false)

-- The second loop, over the recovered publications of the channels.
unfoldable pub recover_channel : ℕ → Channel → List Publication → Co Bool
recover_channel attempt channel [] = ret true
recover_channel attempt channel (publication ∷ publications) =
    branch (connection_current attempt)
      (process_server_publication channel publication
        >> recover_channel attempt channel publications)
      (ret false)

unfoldable pub recover_channels : ℕ → Dict ServerSubscribe → Co Bool
recover_channels attempt [] = ret true
recover_channels attempt ((channel, subscribe) ∷ subs) =
    branch (λ _. subscribe.recovered)
      (do
        current ← recover_channel attempt channel subscribe.publications
        if current then recover_channels attempt subs else ret false)
      (recover_channels attempt subs)

-- The channels of `server_subs` that `subs` does not have, and their deletion.
unfoldable pub missing : Dict ServerSubscribe → Dict ServerSubscription → List Channel
missing subs [] = []
missing subs ((channel, _) ∷ server_subs) = elim (get channel subs) [
  | none ↦ channel ∷ missing subs server_subs
  | some _ ↦ missing subs server_subs
]

unfoldable pub delete_all : {V : Type 0} → List ℕ → Dict V → Dict V
delete_all [] d = d
delete_all (k ∷ ks) d = delete_all ks (delete k d)

-- The last loop of `_process_server_subs`.
unfoldable pub announce_deleted : ℕ → List Channel → Co (Unit {0})
announce_deleted attempt [] = pass
announce_deleted attempt (channel ∷ channels) =
    when (connection_current attempt)
      (emit (on_server_unsubscribed channel) >> announce_deleted attempt channels)

-- `_process_server_subs`
unfoldable pub process_server_subs : Dict ServerSubscribe → ℕ → Co (Unit {0})
process_server_subs subs attempt = do
  added ← add_server_subs attempt subs
  when (λ _. added)
      (do
        recovered ← recover_channels attempt subs
        when (λ _. recovered)
            (do
              channels ← read (λ w. missing subs w.server_subs)
              update (λ w. record w { server_subs = delete_all channels w.server_subs })
              announce_deleted attempt channels))
