-- ===== src/Client/Undisturbed/Ends.antt =====
-- What a close of the transport and a disconnect push lead to (centrifuge/client.py): `_listen` and
-- `_process_disconnect`.
use centrifuge_python.Client.Safety.Sound.{Sound}
use centrifuge_python.Client.World.{World}
use centrifuge_python.Base.{ℕ, ◌≤◌, ◌<◌, ◌⊎◌}

-- The codes after which the server wants no reconnect.
abbrev pub Terminal : ℕ → Type 0
Terminal code = ((3500 ≤ code) × (code < 4000)) ⊎ ((4500 ≤ code) × (code < 5000))
