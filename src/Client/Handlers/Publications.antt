-- ===== src/Client/Handlers/Publications.antt =====
-- The handlers and commands that the handling of publications leads to (centrifuge/client.py).
use centrifuge_python.Client.World.{get, World, modify_sub}
use centrifuge_python.Client.Registry.{is_some}
use centrifuge_python.Client.Teardown.{is_connected}
use centrifuge_python.Base.{
  ◌||◌, ltb, ℕ, some, none, Option, ◌≡◌, true, arith, Bool-cases, inl, inr,
}
use centrifuge_python.Events.{Publication, Channel, Payload}
use centrifuge_python.Client.Subscription.{is_subscribed}
use centrifuge_python.Client.Handlers.{
  Polite, polite_end, polite_call, call_fits, fits, Polite-bind, polite,
}
use centrifuge_python.Client.Publications.{
  deliver_decoded, deliver, process_server_publication, set_pending, sub_process_publication,
  ApplyDelta,
}

state-set_pending :
    (i session n : ℕ) (w : World)
    → ((modify_sub i (set_pending session n) w).sub i).state ≡ (w.sub i).state
unfolding modify_sub
state-set_pending i session n w = ground arith

deliver-Polite :
    (i session : ℕ) (publication : Publication) (w : World)
    → is_subscribed (w.sub i).state ≡ true
    → Polite (deliver i session publication w)
unfolding deliver call_fits fits
deliver-Polite i session publication w e = elim (Bool-cases (ltb 0 publication.offset)) [
  | inl c ↦ rw c (
      polite_call (rw (state-set_pending i session publication.offset w) e)
        (λ _ w'. search polite depth 8))
  | inr c ↦ rw c (polite_call e (λ _ w'. search polite depth 8))
]

deliver_decoded-Polite :
    (i session : ℕ) (publication : Publication) (decoded : Option (Option Payload × Option Payload))
    (w : World)
    → is_subscribed (w.sub i).state ≡ true
    → Polite (deliver_decoded i session publication decoded w)
unfolding deliver_decoded modify_sub
deliver_decoded-Polite i session publication none w e = polite_end
deliver_decoded-Polite i session publication (some (new_data, prev_data)) w e =
    Polite-bind _
      (deliver-Polite i session (record publication { data' = new_data })
        (modify_sub i (λ s. record s { prev_data = prev_data }) w) (ground (arith, e)))
      (λ _ w'. polite_end)

pub sub_process_publication-Polite :
    (apply_delta : ApplyDelta) (i : ℕ) (publication : Publication) (w : World)
    → Polite (sub_process_publication apply_delta i publication w)
unfolding sub_process_publication call_fits fits
sub_process_publication-Polite apply_delta i publication w =
    search (polite, deliver-Polite, deliver_decoded-Polite)

pub process_server_publication-Polite :
    (channel : Channel) (publication : Publication) (w : World)
    → (is_some (get channel w.server_subs) || is_connected w.state) ≡ true
    → Polite (process_server_publication channel publication w)
unfolding process_server_publication call_fits fits
process_server_publication-Polite channel publication w e =
    elim (Bool-cases (ltb 0 publication.offset)) [
      | inl c ↦ rw c (polite_call e (λ _ w'. search polite depth 8))
      | inr c ↦ rw c (polite_call e (λ _ w'. search polite depth 8))
    ]
