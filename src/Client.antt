-- ===== src/Client.antt =====
-- centrifuge/client.py: the client and its subscriptions.
pub mod World
pub mod Coroutine
pub mod Subscription
pub mod Commands
pub mod Teardown
pub mod Publications
pub mod Moves
pub mod Messages
pub mod ServerSubs
pub mod Connecting
pub mod Refreshing
pub mod Subscribing
pub mod Requests
pub mod Wire
pub mod Registry
pub mod Reading
pub mod Construction
pub mod Guarded
pub mod Stale
pub mod Undisturbed
pub mod Growth
pub mod Handlers
pub mod Examples
mod Runs
pub mod Safety
pub mod Interleaving
