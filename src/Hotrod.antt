-- ===== src/Hotrod.antt =====
-- hotrod: the client's API over the connection pool. A call on the pool or on a remote cache is a
-- parameter: the answer that it comes back with.
pub mod Lru
pub mod Transaction
pub mod Iterator
pub mod NearCache
pub mod Options
pub mod Execute
pub mod Remote
pub mod Bulk
pub mod Tests
