-- ===== src/Client/Interleaving/Delivery.antt =====
-- When a handled publication moves the stream position (centrifuge/client.py, `_process_publication`).
use centrifuge_python.Base.{ℕ, not, ◌&&◌, ◌==◌, ltb, ◌≡◌, if◌then◌else◌, arith}
use centrifuge_python.Events.{Publication}
use centrifuge_python.Client.World.{World, modify_sub}
use centrifuge_python.Client.Coroutine.{Step, done, wait, Answer}
use centrifuge_python.Client.Subscription.{session_current}
use centrifuge_python.Client.Publications.{deliver, end_pending}
use centrifuge_python.Client.Interleaving.{left}

-- Where a coroutine that waits goes on.
abbrev pub resume : {A : Type 0} → Step A → Answer → World → Step A
resume (done a w) answer w' = done a w
resume (wait c w k) answer w' = k answer w'

-- When the handler of a publication returns, whatever state it leaves, the position becomes the offset of
-- the publication if the offset is positive, the subscription is still in the session in which the
-- publication came and no handler raised meanwhile; otherwise it stays where it is.
pub deliver-offset :
    (i session : ℕ) (publication : Publication) (answer : Answer) (w w' : World)
    → ((left (resume (deliver i session publication w) answer w')).sub i).offset ≡ (
        if ltb 0 publication.offset
          && (session_current session (w'.sub i)
              && not ((w.sub i).client && not (w'.handler_failures == w.handler_failures)))
        then publication.offset
        else (w'.sub i).offset)
unfolding deliver modify_sub end_pending session_current
deliver-offset i session publication answer w w' = ground arith
