-- ===== src/Probe.antt =====
-- internal/agw, internal/dns and internal/sip: the packets of the three probes, one round of a
-- probe, and the prober, which the three packages have alike.
pub mod Agw
pub mod Dns
pub mod Sip
pub mod Prober
pub mod Loops
pub mod Rounds
pub mod Spacing
pub mod Answers
mod Examples
