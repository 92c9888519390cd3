-- ===== src/Delivery.antt =====
-- internal/delivery/worker.go: the worker of one target, between the engine's events and the
-- sender. The queue is the channel; one round of the loop of `Run` is `step`.
pub mod Samples
pub mod Slots
pub mod Edges
pub mod Worker
pub mod Rounds
pub mod Startup
pub mod Outcomes
pub mod Lifetime
pub mod Ledger
pub mod Acknowledged
pub mod Bounds
mod Examples
