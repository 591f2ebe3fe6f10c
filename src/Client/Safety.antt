-- ===== src/Client/Safety.antt =====
-- The invariant of the client (centrifuge/client.py), method by method.
pub mod Dicts
pub mod Rules
pub mod Sound
pub mod Ending
pub mod Disconnect
pub mod Subscriptions
pub mod Pushes
pub mod Recovered
pub mod Attempts
pub mod Opening
pub mod Calls
pub mod Refreshes
pub mod SubRefreshes
pub mod SubReplies
pub mod Flows
