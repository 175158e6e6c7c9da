-- ===== src/Sync.antt =====
-- src/kernel/sync: read-copy-update and futexes.
pub mod Rcu
pub mod Futex
