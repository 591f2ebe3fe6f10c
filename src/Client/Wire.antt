-- ===== src/Client/Wire.antt =====
-- What the client makes of a publication and of a client's info in a reply (centrifuge/client.py):
-- `_publication_from_proto` and `_extract_client_info`. A key that a dict does not have is `none`.
use centrifuge_python.Client.ServerSubs.{missing}
use centrifuge_python.Client.Registry.{is_some}
use centrifuge_python.Client.Requests.{decode_data}
use centrifuge_python.Client.World.{AppData, bytes, text, value}
use centrifuge_python.Events.{Publication, Text, ClientInfo, empty_text, Payload}
use centrifuge_python.Base.{ℕ, Bool, false, ◌||◌, Option, none, some, if◌then◌else◌}

pub record WireInfo : Type 0 where
  pub client : Option Text
  pub user : Option Text
  pub conn_info : Option AppData
  pub chan_info : Option AppData

pub record WirePublication : Type 0 where
  pub offset : Option ℕ
  pub data' : Option AppData
  pub info : Option WireInfo
  pub tags : Option Payload
  pub delta : Option Bool

-- `dict.get(key, default)`
abbrev pub get_or_default : {A : Type 0} → A → Option A → A
get_or_default missing none = missing
get_or_default missing (some a) = a

abbrev pub payload_of : AppData → Payload
payload_of (bytes b) = b
payload_of (text t) = t
payload_of (value v) = v

-- The dict has a key.
abbrev pub is_present : WireInfo → Bool
is_present info =
    is_some info.client || is_some info.user || is_some info.conn_info || is_some info.chan_info

module _ (use_protobuf : Bool) (b64encode b64decode : Payload → Payload) where
  unfoldable pub decoded : Option AppData → Option Payload
  unfolding decode_data
  decoded d = elim (decode_data use_protobuf b64encode b64decode d) [
    | none ↦ none
    | some d' ↦ some (payload_of d')
  ]

  -- `_extract_client_info`
  unfoldable pub extract_client_info : WireInfo → ClientInfo
  unfolding decoded
  extract_client_info info = record {
    client = get_or_default empty_text info.client;
    user = get_or_default empty_text info.user;
    conn_info = decoded info.conn_info;
    chan_info = decoded info.chan_info;
  }

  -- "self._extract_client_info(info) if info else None"
  unfoldable pub client_info_of : Option WireInfo → Option ClientInfo
  unfolding extract_client_info
  client_info_of none = none
  client_info_of (some info) = if is_present info then some (extract_client_info info) else none

  -- `_publication_from_proto`; tags that are `none` are an empty dict.
  unfoldable pub publication_from_proto : WirePublication → Publication
  unfolding client_info_of
  publication_from_proto pub' = record {
    offset = get_or_default 0 pub'.offset;
    data' = decoded pub'.data';
    info = client_info_of pub'.info;
    tags = pub'.tags;
    delta = get_or_default false pub'.delta;
  }
