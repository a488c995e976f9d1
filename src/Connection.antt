-- ===== src/Connection.antt =====
-- internal/connection: one multiplexed connection, and the pool that routes operations over several.
pub mod Conn
pub mod Balancer
pub mod Pool
pub mod Auth
pub mod Tests
