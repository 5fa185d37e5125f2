-- ===== src/Optimizer.antt =====
-- include/Optimizer: the metaheuristic optimizers.
pub mod Search
pub mod Explore
