-- ===== src/StateSpace.antt =====
-- src/state_space: the cache of the states that blocks have changed, the synchronisation with a
-- batch of logs, and the filters on pools.
pub mod Cache
pub mod Filters
pub mod Sync
