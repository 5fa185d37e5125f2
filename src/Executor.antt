-- ===== src/Executor.antt =====
-- The task graph and the pool that runs it: include/Executor and src/Executor.
pub mod Graph
pub mod Perf
pub mod Pool
pub mod Run
pub mod Parse
pub mod Workload
pub mod Result
pub mod Timings
