-- ===== src/Client/Growth/Publications.antt =====
-- The growth of the numbers through the handling of publications (centrifuge/client.py).
use centrifuge_python.Client.Growth.Numbers.{Later-modify_sub, Forward-same}
use centrifuge_python.Client.Publications.{
  sub_process_publication, deliver_decoded, process_server_publication, deliver, ApplyDelta,
}
use centrifuge_python.Client.Growth.Subscriptions.{
  Later-set_server_offset, Later-end_server_pending, Forward-end_pending,
}
use centrifuge_python.Client.World.{World}
use centrifuge_python.Events.{Publication, Channel, Payload}
use centrifuge_python.Client.Growth.{Later, Mark, Grows, mark, growth}
use centrifuge_python.Base.{ℕ, some, none, Option}

deliver-Grows :
    (i : ℕ) (session : ℕ) (publication : Publication) (m : Mark) (w : World)
    → Later m (mark w)
    → Grows m (deliver i session publication w)
unfolding deliver
deliver-Grows i session publication m w l =
    search (growth, Later-modify_sub, Forward-same, Forward-end_pending) depth 8

deliver_decoded-Grows :
    (i : ℕ) (session : ℕ) (publication : Publication)
    (x3 : Option (Option Payload × Option Payload)) (m : Mark) (w : World)
    → Later m (mark w)
    → Grows m (deliver_decoded i session publication x3 w)
unfolding deliver_decoded
deliver_decoded-Grows i session publication none m w l = search (growth)
deliver_decoded-Grows i session publication (some (new_data, prev_data)) m w l =
    search (growth, deliver-Grows, Later-modify_sub, Forward-same)

pub sub_process_publication-Grows :
    (apply_delta : ApplyDelta) (i : ℕ) (publication : Publication) (m : Mark) (w : World)
    → Later m (mark w)
    → Grows m (sub_process_publication apply_delta i publication w)
unfolding sub_process_publication
sub_process_publication-Grows apply_delta i publication m w l =
    search (growth, deliver-Grows, deliver_decoded-Grows)

pub process_server_publication-Grows :
    (channel : Channel) (publication : Publication) (m : Mark) (w : World)
    → Later m (mark w)
    → Grows m (process_server_publication channel publication w)
unfolding process_server_publication
process_server_publication-Grows channel publication m w l =
    search (growth, Later-end_server_pending, Later-set_server_offset) depth 8
