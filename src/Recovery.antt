-- ===== src/Recovery.antt =====
-- internal/recovery: the grid of slots, the journal's records and the states that fill a slot
-- after an outage.
pub mod Slot
pub mod Journal
pub mod Fill
pub mod Timed
pub mod States
pub mod Window
mod Examples
