-- ===== src/Capture.antt =====
-- src/capture: what the capture backends share.
pub mod Masking
