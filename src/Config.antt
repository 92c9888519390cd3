-- ===== src/Config.antt =====
-- internal/config/config.go: the configuration as it is read from the file, with its defaults and
-- its checks. Durations are signed numbers of nanoseconds. Texts are ASCII.
pub mod Target
pub mod Settings
pub mod Load
pub mod Passed
pub mod Ports
pub mod Services
pub mod RemoteWrite
mod Examples
