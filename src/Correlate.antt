-- ===== src/Correlate.antt =====
-- src/correlate: the ID map, and the substitution of captured values in SQL text.
pub mod Compile
pub mod Map
pub mod Substitute
