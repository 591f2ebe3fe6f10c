-- ===== src/Client/Requests/Laws.antt =====
-- Requests of the app (centrifuge/client.py): what the app sees of a connection that is not there.
use centrifuge_python.Client.World.{RecoverPosition, AppData, Command, World}
use centrifuge_python.Events.{Channel, Error, Payload}
use centrifuge_python.Client.Requests.{
  result_of, history, map_response, publish, presence, rpc, presence_stats, raises, request_ready,
  decode_data, request, ready,
}
use centrifuge_python.Client.Coroutine.{bind, ret, done}
use centrifuge_python.Client.Teardown.{is_disconnected}
use centrifuge_python.Base.{ℕ, ◌≡◌, refl, ap, Bool, true, Option}

request-disconnected :
    (make : ℕ → Option Command) (w : World)
    → is_disconnected w.state ≡ true
    → request make w ≡ done (raises Error.client_disconnected) w
unfolding request ready request_ready
request-disconnected make w d = rw d refl

-- Every request of a disconnected client raises at once and changes nothing: it takes no command id,
-- registers no command and sends nothing.
pub requests-disconnected :
    (use_protobuf : Bool) (b64encode b64decode : Payload → Payload) (channel : Channel)
    (payload : AppData) (limit : ℕ) (since : Option RecoverPosition) (reverse : Bool) (w : World)
    → is_disconnected w.state ≡ true
    → (publish use_protobuf b64encode b64decode channel payload w
        ≡ done (raises Error.client_disconnected) w)
      × (rpc use_protobuf b64encode b64decode channel payload w
          ≡ done (raises Error.client_disconnected) w)
      × (history channel limit since reverse w ≡ done (raises Error.client_disconnected) w)
      × (presence channel w ≡ done (raises Error.client_disconnected) w)
      × (presence_stats channel w ≡ done (raises Error.client_disconnected) w)
unfolding publish rpc history presence presence_stats
requests-disconnected use_protobuf b64encode b64decode channel payload limit since reverse w d =
    let refusal : (make : ℕ → Option Command)
        → request make w ≡ done (raises Error.client_disconnected) w =
      λ make. request-disconnected make w d in
    (
      ap (λ r. bind r (λ response. ret (map_response (λ _. tt) response))) (refusal _),
      ap
          (λ r. bind r (λ response. ret (
            map_response (decode_data use_protobuf b64encode b64decode)
              (result_of (λ reply. reply.rpc) response))))
          (refusal _),
      ap (λ r. bind r (λ response. ret (result_of (λ reply. reply.history) response))) (refusal _),
      ap (λ r. bind r (λ response. ret (result_of (λ reply. reply.presence) response))) (refusal _),
      ap (λ r. bind r (λ response. ret (result_of (λ reply. reply.presence_stats) response)))
          (refusal _),
    )
