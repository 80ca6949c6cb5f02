-- ===== src/Proxy/Binary.antt =====
-- src/proxy/pg_binary.rs: bind parameters in PostgreSQL's binary formats, rendered as SQL literals.
-- Floating-point numbers are their bits; how Rust prints them is the parameter `Floats`.
pub mod Scalars
pub mod Dates
pub mod Numeric
pub mod Network
pub mod Vectors
pub mod Arrays
pub mod Literal
