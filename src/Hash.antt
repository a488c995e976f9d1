-- ===== src/Hash.antt =====
-- internal/hash: the hash function shared with the server, the routing table that it
-- indexes, and the bloom filter of a near cache.
pub mod Murmur3
pub mod ConsistentHash
pub mod Bloom
