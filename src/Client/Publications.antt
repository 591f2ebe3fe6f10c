-- ===== src/Client/Publications.antt =====
-- How publications reach the app and move the stream positions (centrifuge/client.py):
-- `Subscription._process_publication` and `Client._process_server_publication`.
use centrifuge_python.Base.{
  ℕ, Bool, true, false, not, ◌&&◌, Option, none, some, ◌==◌, ltb, if◌then◌else◌,
}
use centrifuge_python.Events.{Payload, Channel, Publication, on_publication, on_server_publication}
use centrifuge_python.Client.World.{World, Subscription, get, put, delete, modify_sub}
use centrifuge_python.Client.Coroutine.{
  Co, pass, ret, read, update, branch, when, emit, ◌>>=◌, ◌>>◌,
}
use centrifuge_python.Client.Subscription.{is_subscribed, session_current}

abbrev pub set_pending : ℕ → ℕ → Subscription → Subscription
set_pending session offset s = record s { pending' = some (session, offset) }

-- The `finally` of `_process_publication`.
unfoldable pub end_pending : ℕ → Subscription → Subscription
end_pending session s = elim s.pending' [
  | none ↦ s
  | some (pending_session, _) ↦
      if pending_session == session then record s { pending' = none } else s
]

abbrev pub set_offset : ℕ → Subscription → Subscription
set_offset offset s = record s { offset = offset }

-- `_process_publication` from where the publication has its data. `session` is the attempt read at the
-- beginning.
unfoldable pub deliver : ℕ → ℕ → Publication → Co (Unit {0})
deliver i session publication = do
  when (λ _. ltb 0 publication.offset)
      (update (modify_sub i (set_pending session publication.offset)))
  has_client ← read (λ w. (w.sub i).client)
  failures ← read (λ w. if (w.sub i).client then w.handler_failures else 0)
  emit (on_publication i publication)
  update (modify_sub i (end_pending session))
  branch (λ w. has_client && not (w.handler_failures == failures)) pass
      (when (λ w. ltb 0 publication.offset && session_current session (w.sub i))
        (update (modify_sub i (set_offset publication.offset))))

-- `codec.apply_delta_if_needed` on payloads that the client does not look into: the new data and the
-- next base, or `none` where it raises a `ValueError`.
abbrev pub ApplyDelta : Type 0
ApplyDelta = Option Payload → Publication → Option (Option Payload × Option Payload)

-- `_process_publication` with what the codec answers.
unfoldable pub deliver_decoded :
    ℕ → ℕ → Publication → Option (Option Payload × Option Payload) → Co Bool
deliver_decoded i session publication none = ret false
deliver_decoded i session publication (some (new_data, prev_data)) =
    update (modify_sub i (λ s. record s { prev_data = prev_data }))
    >> deliver i session (record publication { data' = new_data })
    >> ret true

-- `_process_publication`. `false` is the `ValueError` of the codec.
unfoldable pub sub_process_publication : ApplyDelta → ℕ → Publication → Co Bool
sub_process_publication apply_delta i publication =
    branch (λ w. is_subscribed (w.sub i).state)
      (do
        s ← read (λ w. w.sub i)
        branch (λ _. s.delta && s.delta_negotiated)
            (deliver_decoded i s.attempt publication (apply_delta s.prev_data publication))
            (deliver i s.attempt publication >> ret true))
      (ret true)

-- The `finally` of `_process_server_publication`.
unfoldable pub end_server_pending : Channel → ℕ → World → World
end_server_pending channel connection w = elim (get channel w.server_pending) [
  | none ↦ w
  | some (pending_connection, _) ↦
      if pending_connection == connection
      then record w { server_pending = delete channel w.server_pending }
      else w
]

unfoldable pub set_server_offset : Channel → ℕ → World → World
set_server_offset channel offset w = elim (get channel w.server_subs) [
  | none ↦ w
  | some s ↦ record w { server_subs = put channel (record s { offset = offset }) w.server_subs }
]

-- `_process_server_publication`
unfoldable pub process_server_publication : Channel → Publication → Co (Unit {0})
process_server_publication channel publication = do
  connection ← read (λ w. w.transport_id)
  when (λ _. ltb 0 publication.offset)
      (update (λ w. record w {
        server_pending = put channel (connection, publication.offset) w.server_pending;
      }))
  failures ← read (λ w. w.handler_failures)
  emit (on_server_publication channel publication)
  update (end_server_pending channel connection)
  branch (λ w. not (w.handler_failures == failures)) pass
      (when (λ w. ltb 0 publication.offset && w.transport_id == connection)
        (update (set_server_offset channel publication.offset)))
