-- ===== src/Client/Construction.antt =====
-- The construction of a client (centrifuge/client.py): `Client.__init__` with its checks, and what
-- `_open_transport` makes of its options.
use centrifuge_python.Client.Registry.{is_some, initial, no_delta}
use centrifuge_python.Proxy.{
  ModuleName, Import, load_parse_proxy, requires_socks, validate_proxy, Chars, must_be_url,
  not_valid, Verdict, accepted, ProxyOption,
}
use centrifuge_python.Client.World.{Subscription, World, disconnected, pending}
use centrifuge_python.Events.{Payload, empty_text, Text}
use centrifuge_python.Base.{
  ℕ, ◌+◌, Bool, true, false, not, ◌&&◌, leb, Option, none, [], ◌∷◌, ◌==◌, if◌then◌else◌, List, some,
}

-- The arguments that the client's methods read, and those that the constructor checks. A TLS context is a
-- number, `timeout` the milliseconds.
pub record ClientOptions : Type 0 where
  pub address : Chars
  pub token : Text
  pub has_get_token : Bool
  pub timeout : ℕ
  pub name : Text
  pub version : Text
  pub data' : Option (Option Payload)
  pub use_protobuf : Bool
  pub headers : Payload
  pub ssl_context : Option ℕ
  pub proxy : ProxyOption

-- A letter of ASCII in lower case; that of no other character is part of "wss://".
abbrev pub lower : ℕ → ℕ
lower c = if leb 65 c && leb c 90 then c + 32 else c

-- `address.lower().startswith("wss://")`
unfoldable pub is_wss : Chars → Bool
is_wss (a ∷ b ∷ c ∷ d ∷ e ∷ f ∷ rest) =
    lower a == 119 && lower b == 115 && lower c == 115 && d == 58 && e == 47 && f == 47
is_wss _ = false

-- What the numbers name for which no object was made: nothing that can be used.
abbrev pub unmade : Subscription
unmade =
    record (initial 0 (record {
      token = empty_text;
      has_get_token = false;
      has_get_state = false;
      data' = none;
      positioned = false;
      recoverable = false;
      join_leave = false;
      delta = no_delta;
      tags_filter = none;
    })) { client = false }

-- The fields that `__init__` sets.
unfoldable pub initial_client : ClientOptions → World
initial_client options = record {
  state = disconnected;
  conn = none;
  transport_id = 0;
  transition = 0;
  open_task = none;
  command_id = 0;
  subs = [];
  sub = λ _. unmade;
  send_pong = true;
  ping_interval = 0;
  ping_timer = none;
  refresh_timer = none;
  reconnect_timer = none;
  connected_future = pending;
  token = options.token;
  has_get_token = options.has_get_token;
  handler_failures = 0;
  refresh_required = false;
  timeout = not (options.timeout == 0);
  inflight_commands = [];
  reconnect_attempts = 0;
  server_subs = [];
  server_pending = [];
  subs_by_id = [];
  client_id = empty_text;
  listen_task = false;
  process_messages_task = false;
  name = options.name;
  version = options.version;
  data' = options.data';
  completed = [];
  events = [];
  sent = [];
  spawned = [];
}

-- What the constructor gives, or the `ValueError` that it raises.
pub data Construction : Type 0 where
  constructed : World → Construction
  ssl_refused : Construction
  proxy_refused : Verdict → Construction

abbrev pub after_verdict : Verdict → World → Construction
after_verdict accepted w = constructed w
after_verdict must_be_url w = proxy_refused must_be_url
after_verdict (not_valid proxy message) w = proxy_refused (not_valid proxy message)
after_verdict (requires_socks scheme) w = proxy_refused (requires_socks scheme)

-- `Client.__init__`. The modules of websockets and whether python-socks is installed are parameters.
unfoldable pub new_client : (ModuleName → Import) → Bool → ClientOptions → Construction
unfolding initial_client is_wss
new_client import_module socks_installed options =
    if is_some options.ssl_context && not (is_wss options.address)
    then ssl_refused
    else after_verdict
        (validate_proxy (load_parse_proxy import_module) socks_installed options.proxy)
        (initial_client options)

-- "centrifuge-protobuf"
abbrev pub protobuf_subprotocol : Chars
protobuf_subprotocol =
    99 ∷ 101 ∷ 110 ∷ 116 ∷ 114 ∷ 105 ∷ 102 ∷ 117 ∷ 103 ∷ 101 ∷ 45 ∷ 112 ∷ 114 ∷ 111 ∷ 116 ∷ 111 ∷ 98
    ∷ 117 ∷ 102 ∷ []

-- `_CLOSE_TIMEOUT`
abbrev pub transport_close_timeout : ℕ
transport_close_timeout = 1000

-- The arguments of `websockets.connect`; `none` is a `None` or, for `ssl`, an argument that is not passed.
pub record ConnectArguments : Type 0 where
  pub address : Chars
  pub proxy : ProxyOption
  pub subprotocols : Option (List Chars)
  pub additional_headers : Payload
  pub open_timeout : ℕ
  pub close_timeout : ℕ
  pub max_size : Option ℕ
  pub ssl : Option ℕ

-- `_open_transport`, up to its call of websockets. A time is in milliseconds.
unfoldable pub open_transport_arguments : ClientOptions → ConnectArguments
open_transport_arguments options = record {
  address = options.address;
  proxy = options.proxy;
  subprotocols = if options.use_protobuf then some (protobuf_subprotocol ∷ []) else none;
  additional_headers = options.headers;
  open_timeout = options.timeout;
  close_timeout = transport_close_timeout;
  max_size = none;
  ssl = options.ssl_context;
}
