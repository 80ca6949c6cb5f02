-- ===== src/Proxy.antt =====
-- src/proxy: the PostgreSQL wire proxy.
pub mod Pool
pub mod Protocol
pub mod Collector
pub mod Binary
pub mod Relay
pub mod Staging
pub mod Health
