-- ===== src/Scheduler/Uniform.antt =====
-- `CPUOnlyScheduler`, `DPUOnlyScheduler` and `GreedyScheduler` of include/Scheduler. The order is that
-- of Boost's topological sort, a parameter.
pub mod Parsed
use meta_pb.Common.{
  ℕ, zero, suc, ◌-◌, List, [], ◌∷◌, true, if◌then◌else◌, Bool, false, set, length, replicate,
}
use meta_pb.Common.Real.{Real}
use meta_pb.Operator.Registry.{OperatorType, compute_bound}
use meta_pb.Executor.Graph.{TaskGraph, Schedule, task_at}

abbrev is_compute_bound : OperatorType → Bool
is_compute_bound compute_bound = true
is_compute_bound _ = false

module _ (R : Real) (topo_sort : TaskGraph R → List ℕ) where
  unfoldable pub cpu_only_schedule : TaskGraph R → Schedule R
  cpu_only_schedule g = record {
    is_always_writting_back = true;
    order = topo_sort g;
    offload_ratio = replicate (length (topo_sort g)) R.zero;
  }

  -- The last entry is that of the logical end.
  unfoldable pub dpu_only_schedule : TaskGraph R → Schedule R
  dpu_only_schedule g = record {
    is_always_writting_back = true;
    order = topo_sort g;
    offload_ratio = set (replicate (length (topo_sort g)) R.one) (length (topo_sort g) - 1) R.zero;
  }

  -- The loop of `GreedyScheduler::schedule`, for the vertices from `i` on.
  unfoldable pub greedy_ratios : TaskGraph R → (n i : ℕ) → List R.Num
  greedy_ratios g zero i = []
  greedy_ratios g (suc n) i =
      (if is_compute_bound (task_at R g i).op_type then R.zero else R.one)
      ∷ greedy_ratios g n (suc i)

  unfoldable pub greedy_schedule : TaskGraph R → Schedule R
  unfolding greedy_ratios
  greedy_schedule g = record {
    is_always_writting_back = true;
    order = topo_sort g;
    offload_ratio =
        set (greedy_ratios g (length (topo_sort g)) 0) (length (topo_sort g) - 1) R.zero;
  }
