-- ===== src/Scheduler.antt =====
-- include/Scheduler and src/Scheduler: from a graph to a schedule.
pub mod Uniform
pub mod Heft
pub mod Meta
