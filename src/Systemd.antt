-- ===== src/Systemd.antt =====
-- internal/systemd: what a snapshot is read from, the loop that watches the units, and the life of
-- the connection to D-Bus. What D-Bus answers is an input.
pub mod Snapshot
pub mod Monitor
pub mod Resilient
pub mod Automaton
pub mod Phases
mod Examples
