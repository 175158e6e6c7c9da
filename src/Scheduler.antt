-- ===== src/Scheduler.antt =====
-- src/kernel/scheduler: which thread runs on which processor.
pub mod Dispatch
pub mod RunQueue
