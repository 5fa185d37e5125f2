-- ===== src/Operator.antt =====
-- The operators: include/Operator and src/Operator.
pub mod Registry
pub mod Pages
pub mod Memory
pub mod Kernels
pub mod Dpu
pub mod Transfer
pub mod Offload
pub mod Samples
pub mod Manager
