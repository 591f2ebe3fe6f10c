-- ===== src/Client/Commands.antt =====
-- The commands in flight of a client (centrifuge/client.py) and what they send.
pub mod Laws
pub mod Refinement
use centrifuge_python.Base.{
  ℕ, ◌+◌, Bool, false, true, Option, none, some, List, [], ◌∷◌, ◌==◌, if◌then◌else◌,
}
use centrifuge_python.Client.Coroutine.{
  read, when, ◌>>=◌, Co, done_future, pass, update, await, ◌>>◌,
}
use centrifuge_python.Events.{Payload, Text, empty_text, Error, client_disconnected}
use centrifuge_python.Codes.{
  subscription_flag_channel_compaction, subscription_flag_reject_unrecovered,
}
use centrifuge_python.Client.World.{
  World, Outcome, succeeded, excepted, Dict, get, put, delete, ServerSubscription, RecoverPosition,
  ConnectRequest, SubscribeRequest, Subscription,
}
use Prim.Native.Nat.{bit_or}

-- `_next_command_id`: the new value of `_id` is the id.
unfoldable pub next_command_id : World → World
next_command_id w = record w { command_id = w.command_id + 1 }

-- `_register_future` and `_register_future_with_done`
unfoldable pub register_future : Bool → Bool → ℕ → World → World
register_future with_done timeout cmd_id w = record w {
  inflight_commands =
      put cmd_id (record { future_done = false; done = with_done; timeout = timeout })
        w.inflight_commands;
}

-- The command `cmd_id` leaves the dict, and its future ends, unless it was done already.
unfoldable pub complete : ℕ → Outcome → World → World
complete cmd_id outcome w = elim (get cmd_id w.inflight_commands) [
  | none ↦ w
  | some cb ↦ record w {
    inflight_commands = delete cmd_id w.inflight_commands;
    completed = if cb.future_done then w.completed else (cmd_id, outcome) ∷ w.completed;
  }
]

-- A coroutine that awaits the command is cancelled: its future is done, and the command stays in the dict.
unfoldable pub cancel_future : ℕ → World → World
cancel_future cmd_id w = elim (get cmd_id w.inflight_commands) [
  | none ↦ w
  | some cb ↦ record w {
    inflight_commands = put cmd_id (record cb { future_done = true }) w.inflight_commands;
  }
]

-- `_future_error`
unfoldable pub future_error : ℕ → Error → World → World
unfolding complete
future_error cmd_id exc = complete cmd_id (excepted exc)

-- `_future_success`: where the command waits for its reply to be handled, so does this.
unfoldable pub future_success : ℕ → Co (Unit {0})
future_success cmd_id = do
  waited ← read (λ w. elim (get cmd_id w.inflight_commands) [ none ↦ false | some cb ↦ cb.done ])
  update (complete cmd_id succeeded)
  when (λ _. waited) (await (done_future cmd_id) >> pass)

unfoldable pub fail_all : List ℕ → World → World
unfolding future_error
fail_all [] w = w
fail_all (cmd_id ∷ ids) w = fail_all ids (future_error cmd_id client_disconnected w)

abbrev pub keys : {V : Type 0} → Dict V → List ℕ
keys [] = []
keys ((k, _) ∷ d) = k ∷ keys d

-- `_clear_outgoing_futures`
unfoldable pub clear_outgoing_futures : World → World
unfolding fail_all
clear_outgoing_futures w = fail_all (keys w.inflight_commands) w

-- A text that is sent only if it is not empty.
abbrev pub non_empty : Text → Option Text
non_empty t = if t == empty_text then none else some t

abbrev pub recover_positions : Dict ServerSubscription → Dict RecoverPosition
recover_positions [] = []
recover_positions ((channel, sub) ∷ subs) =
    if sub.recoverable
    then (channel, record { offset = sub.offset; epoch = sub.epoch }) ∷ recover_positions subs
    else recover_positions subs

-- What is made of data that is sent only if there is some. The result `none` is the `CentrifugeError` of
-- `_encode_data`.
abbrev pub with_data : {A : Type 0} → Option (Option Payload) → (Option Payload → A) → Option A
with_data none make = some (make none)
with_data (some none) make = none
with_data (some (some encoded)) make = some (make (some encoded))

-- `_construct_connect_command`
unfoldable pub construct_connect_command : World → Option ConnectRequest
construct_connect_command w = with_data w.data' (λ data'. record {
  token = non_empty w.token;
  data' = data';
  name = non_empty w.name;
  version = non_empty w.version;
  subs = recover_positions w.server_subs;
})

-- `_construct_subscribe_command`
unfoldable pub construct_subscribe_command : Subscription → Option SubscribeRequest
construct_subscribe_command sub = with_data sub.data' (λ data'. record {
  channel = sub.channel;
  token = non_empty sub.token;
  data' = data';
  positioned = sub.positioned;
  recoverable = sub.recoverable;
  join_leave = sub.join_leave;
  recover = if sub.recover then some (record { offset = sub.offset; epoch = sub.epoch }) else none;
  flag =
      if sub.has_get_state
      then bit_or subscription_flag_channel_compaction subscription_flag_reject_unrecovered
      else subscription_flag_channel_compaction;
  delta = sub.delta;
  tf = sub.tags_filter;
})
