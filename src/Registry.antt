-- ===== src/Registry.antt =====
-- console/registry.py: the durable registry of placements, observations, fences and operations.
pub mod State
pub mod Requests
pub mod Payload
pub mod Clock
pub mod Evidence
pub mod Journal
pub mod Session
pub mod Assign
pub mod Publish
pub mod Fence
pub mod Queue
pub mod Views
pub mod Compat
pub mod Keeps
pub mod Returns
pub mod Events
pub mod Grows
pub mod Valid
pub mod Succession
pub mod Receipts
pub mod Replay
pub mod Routing
pub mod QueueBound
pub mod Agreement
pub mod World
mod Tests
