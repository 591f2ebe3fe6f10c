-- ===== src/Client/Examples.antt =====
-- States of a client (centrifuge/client.py) for the runs.
use centrifuge_python.Base.{refl, true, false, none, some, [], ◌∷◌, arith}
use centrifuge_python.Client.World.{
  get, World, Subscription, unsubscribed, subscribed, disconnected, connected, resolved, ping_wait,
}
use centrifuge_python.Client.Safety.Sound.{Sound}
use centrifuge_python.Client.Publications.{ApplyDelta}

-- A codec that keeps the last payload as the base.
abbrev pub whole_payloads : ApplyDelta
whole_payloads base publication = some (publication.data', publication.data')

abbrev pub subscription : Subscription
subscription = record {
  channel = 7;
  state = subscribed;
  subscribed_future = resolved;
  client = true;
  token = 0;
  has_get_token = false;
  has_get_state = false;
  data' = none;
  positioned = true;
  recoverable = true;
  join_leave = false;
  resubscribe_attempts = 0;
  refresh_timer = none;
  resubscribe_timer = none;
  recover = true;
  offset = 10;
  epoch = 3;
  prev_data = none;
  push_id = 4;
  attempt = 2;
  pending' = none;
  inflight = none;
  delta = false;
  delta_negotiated = false;
  tags_filter = none;
}

abbrev pub online : World
online = record {
  state = connected;
  conn = some 1;
  transport_id = 1;
  transition = 1;
  open_task = none;
  command_id = 2;
  subs = (7, 0) ∷ [];
  sub = λ _. subscription;
  send_pong = true;
  ping_interval = 25;
  ping_timer = some (ping_wait 25);
  refresh_timer = none;
  reconnect_timer = none;
  connected_future = resolved;
  token = 0;
  has_get_token = false;
  handler_failures = 0;
  refresh_required = false;
  timeout = true;
  inflight_commands = (2, record { future_done = false; done = false; timeout = true }) ∷ [];
  reconnect_attempts = 0;
  server_subs = [];
  server_pending = [];
  subs_by_id = (4, 0) ∷ [];
  client_id = 8;
  listen_task = true;
  process_messages_task = true;
  name = 0;
  version = 0;
  data' = none;
  completed = [];
  events = [];
  sent = [];
  spawned = [];
}

abbrev pub offline : World
offline = record online {
  state = disconnected;
  conn = none;
  ping_timer = none;
  inflight_commands = [];
  subs_by_id = [];
  sub = λ _. record subscription { state = unsubscribed };
}

pub online-Sound : Sound online
unfolding get
online-Sound =
    (λ d. ground (arith, d), ((λ id i e. ground (arith, e)), λ k cb e. ground (arith, e)))

pub offline-Sound : Sound offline
unfolding get
offline-Sound = (
  λ _. (refl, refl, refl, refl, refl),
  ((λ id i e. ground (arith, e)), λ k cb e. ground (arith, e)),
)
