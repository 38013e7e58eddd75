-- ===== src/Pksync.antt =====
-- pksync: the wait group with a context, and the concurrent map.
pub mod WaitGroup
pub mod Tests
pub mod ConcurrentMap
