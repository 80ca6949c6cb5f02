-- ===== src/Replay.antt =====
-- src/replay: the captured workload is run against a database.
pub mod Session
pub mod Scaling
