-- ===== src/Tests.antt =====
-- Concrete inputs, and the theorems at them.
mod Numbers
mod Executor
mod Parse
mod Operator
mod Optimizer
mod Scheduler
mod Manager
mod Schedules
mod Kernels
mod Transfer
mod Files
mod Dump
mod Timings
mod Probing
mod Utils
