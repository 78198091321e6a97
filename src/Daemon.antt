-- ===== src/Daemon.antt =====
-- crates/montre-daemon: the daemon that a session of processes shares.
pub mod Protocol
pub mod State
pub mod Couplers
pub mod Interests
pub mod Results
pub mod Command
pub mod Session
