-- ===== src/Utils.antt =====
-- The measurements: include/utils and src/utils.
pub mod Stats
pub mod Report
pub mod Metrics
pub mod Chrono
pub mod Lines
pub mod Csv
