-- ===== src/Lib.antt =====
-- The centrifuge-python client: a client of real-time messaging servers over one WebSocket connection.
--
-- The app calls `Client` and `Subscription` (centrifuge/client.py) and passes handlers that they call.
-- A client turns its commands into bytes with a codec (centrifuge/codecs.py), reads the replies and
-- pushes of the server with it, and hands publications to its subscriptions, which apply deltas
-- (centrifuge/fossil.py) and keep the position in the stream that a reconnect recovers from.
--
-- The files:
--   Base: names of the libraries, tests and lists over the native numbers, lemmas on bits.
--   Fossil: centrifuge/fossil.py. A byte array is a list of numbers. `Reader`, `checksum` and
--     `apply_delta` with the loops as functions on fuel: `apply_delta` has a round for each byte of the
--     delta and one more, `checksum` one for each byte of the array, each loop of which takes four or
--     more. An error of Python is a constructor of `Result`. Fossil/Render writes deltas.
--   Codec: centrifuge/codecs.py. The methods of `_ProtobufCodec` and `_JsonCodec` have the prefixes
--     `protobuf_` and `json_`. The generated Protobuf classes and the json module are parameters.
--   Codes: centrifuge/codes.py, and `_is_token_expired` of centrifuge/utils.py.
--   Delay: `_backoff` of centrifuge/utils.py, with the random number as a parameter.
--   Timeout: `_TimeoutTimer` of centrifuge/client.py, over a clock of milliseconds. Timeout/Grace says when
--     the loop may run its handles.
--   Filter: centrifuge/filter.py. Filter/Reading reads a node back.
--   Proxy: `_redact_proxy`, `_load_parse_proxy` and `_validate_proxy` of centrifuge/client.py, on lists of
--     characters.
--   Events: centrifuge/types.py, centrifuge/contexts.py, centrifuge/exceptions.py and the calls of
--     centrifuge/handlers.py.
--   Client: centrifuge/client.py.
--     World: the fields of `Client`, and the store of the `Subscription` objects, which are numbers, so
--       that two names of one object share it. `completed`, `events`, `sent` and `spawned` record what
--       the client does to futures, to the app, to the transport and to the event loop.
--     Coroutine: an async method is a function of the state that ends or waits. Where it waits, the rest
--       of the method is a function of the answer and of any state that other code leaves.
--     Subscription, Publications, Moves: the methods of `Subscription`.
--     Commands, Teardown, Messages, ServerSubs, Connecting: the methods of `Client`, with the name of
--       the method less its underscore; `do_disconnect` is `_disconnect` and `on_connect_reply` is
--       `_connected`, and a part of a method has a name of its own.
--     Refreshing, Subscribing: the token refreshes and the subscribe flow, a function for each part of a
--       method between two points where it waits.
--     Requests: `publish`, `history`, `presence`, `presence_stats` and `rpc`, and the timeout of a command.
--     Registry: `new_subscription`, `get_subscription`, `remove_subscription`, `_initialize` and
--       `set_tags_filter`.
--     Wire: `_publication_from_proto` and `_extract_client_info`; a push of Messages carries their results.
--     Reading: `_listen` and `_process_messages` of one connection with their queue, as steps in any order.
--     Construction: `Client.__init__`, and the arguments of `_open_transport`.
--     Guarded: `_GuardedEvents` and `_handler_raised`.
--     Interleaving: the entries of the event loop, and the states that follow a state.
--     Growth: the numbers of the client that only grow, a file for each file of methods.
--     Handlers: the states in which handlers of the app are called and commands are sent, a file for each
--       file of methods.
--     Safety: lemmas on the invariant. Stale: steps that come too late. Undisturbed: methods that run to
--       their end with nothing between their steps. Examples, Runs: concrete states.
--
-- A text of the client is a number that is compared, a payload one that is passed on; 0 is the empty text
-- and 1 the epoch "_". The codec's `apply_delta_if_needed` is a parameter `ApplyDelta` of the client. The data
-- of the client, of its subscriptions and of the app's requests in Interleaving is what `_encode_data` makes
-- of it, or that it refuses it.
--
-- Not modelled: durations in the client (a timer of it is armed or not, and may fire at any time) and
-- their rounding; an exception of the codec in `_send_commands` (a command holds data that the codec can
-- encode, and `sent` has the command, not its bytes); what websockets does with its arguments; the generated
-- centrifuge/protocol/client_pb2.py; `_wait_for_future`, whose wait ends with one of the answers of the model.
-- A new subscription takes the number of an object that is not registered and was never subscribed.
-- An answer to an awaited handler is not looked at: a handler that raises is the entry `handler_raised`. The
-- coroutine that awaits a command may be cancelled, which is the entry `command_cancelled`.
pub mod Base
pub mod Fossil
pub mod Codec
pub mod Codes
pub mod Events
pub mod Filter
pub mod Delay
pub mod Timeout
pub mod Proxy
pub mod Client
