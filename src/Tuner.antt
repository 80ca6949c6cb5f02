-- ===== src/Tuner.antt =====
-- src/tuner: the tuning loop, its advice, what keeps it safe, and what it applies and rolls back.
pub mod Safety
pub mod Apply
pub mod Tuning
