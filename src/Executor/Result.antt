-- ===== src/Executor/Result.antt =====
-- The result of `execWorkload` of src/Executor/HeteroComputePool.cpp in the mimicked mode: the
-- makespan, the energy and the data movement, after any interleaving of the threads.
pub mod Makespan
pub mod Measured
pub mod Moved
use meta_pb.Common.{ℕ, List, Bool}
use meta_pb.Common.Real.{Real, max_num}
use meta_pb.Executor.Graph.{TaskGraph, Schedule}
use meta_pb.Executor.Perf.{PerfStats, PerfModel}
use meta_pb.Executor.Pool.{Worker, Pool}
use meta_pb.Executor.Run.{run}
use meta_pb.Executor.Parse.{mimic_type, start}

module _ {R : Real} where
  abbrev pub makespan : Pool R → R.Num
  makespan p = max_num R p.cpu_mimic_time_ms p.dpu_mimic_time_ms

  unfoldable pub mimic_result : Pool R → PerfStats R
  mimic_result p = record {
    energy_cost_joule = p.total_energy_cost_joule;
    time_cost_second = R.div (makespan p) (R.of_ℕ 1000);
    data_movement_mib = p.total_transfer_mb;
  }

  unfoldable pub exec_workload :
      PerfModel R
      → (heap : ℕ) → TaskGraph R
      → Schedule R
      → (interleaving : List Worker) → (wakeups : List Bool) → PerfStats R
  unfolding mimic_result run start
  exec_workload om heap g sched ws wakeups =
      mimic_result (run om (start R heap g sched mimic_type wakeups) ws).pool
