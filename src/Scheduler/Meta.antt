-- ===== src/Scheduler/Meta.antt =====
-- `MetaScheduler` of include/Scheduler/MetaScheduler.hpp and src/Scheduler/MetaScheduler.cpp. The
-- statistics of a mimicked execution are those of Executor.Result, for any interleaving of each pool.
pub mod Choice
pub mod Searches
use meta_pb.Common.{
  ℕ, zero, suc, ◌-◌, List, [], ◌∷◌, Bool, false, Option, none, some, if◌then◌else◌, get_or, set,
  map, length,
}
use meta_pb.Common.Real.{Real}
use meta_pb.Executor.Graph.{TaskGraph, Schedule, num_vertices}
use meta_pb.Executor.Perf.{PerfModel, PerfStats}
use meta_pb.Executor.Pool.{Worker}
use meta_pb.Executor.Result.{exec_workload}
use meta_pb.Optimizer.Search.{Point, Frame, Search}

module _ (R : Real) where
  open R use {add, mul, div, of_ℕ}

  -- `ratioVecs[i][j] / 200.0f + 0.5f`.
  abbrev pub to_ratio : R.Num → R.Num
  to_ratio a = add (div a (of_ℕ 200)) (div (of_ℕ 1) (of_ℕ 2))

  -- The schedule of a point of the search; the last ratio is that of the logical end.
  unfoldable pub proposed_schedule : (heft_order : List ℕ) → Point R → Schedule R
  proposed_schedule heft_order ratios = record {
    is_always_writting_back = false;
    order = heft_order;
    offload_ratio = set (map to_ratio ratios) (length ratios - 1) R.zero;
  }

  unfoldable pub schedule_eval : (alpha beta : R.Num) → PerfStats R → R.Num
  schedule_eval alpha beta stats =
      add (mul (mul alpha (of_ℕ 200)) stats.time_cost_second) (mul beta stats.energy_cost_joule)

  module _ (om : PerfModel R) (g : TaskGraph R) (heft_order : List ℕ) (alpha beta : R.Num)
      (interleaving : Schedule R → List Worker × List Bool) where
    -- `evalSchedules`, for one point, under an interleaving for each schedule. `execWorkload` joins its
    -- threads: an interleaving that stands for a run lets each of them end.
    unfoldable pub eval_point : Point R → R.Num
    unfolding proposed_schedule schedule_eval exec_workload
    eval_point ratios =
        let sched = proposed_schedule heft_order ratios in
        schedule_eval alpha beta
          (exec_workload om 0 g sched (interleaving sched).0 (interleaving sched).1)

    -- `evalSchedules`.
    unfoldable pub eval_schedules : Frame R → List R.Num
    unfolding eval_point
    eval_schedules ratio_vecs = map eval_point ratio_vecs

  -- The loop for `bestOptimizerIdx`, from index `i` on; `none` is the illegal value -1.
  unfoldable pub best_optimizer : List R.Num → (i : ℕ) → Option ℕ → (best_val : R.Num) → Option ℕ
  best_optimizer [] i best best_val = best
  best_optimizer (v ∷ vs) i best best_val =
      if R.lt v best_val
      then best_optimizer vs (suc i) (some i) v
      else best_optimizer vs (suc i) best best_val

  -- The last loop of `schedule`: each ratio to two decimals, and none for the logical end.
  unfoldable pub actual_ratios : (round : R.Num → R.Num) → Point R → (n i : ℕ) → List R.Num
  actual_ratios round point zero i = []
  actual_ratios round point (suc zero) i = R.zero ∷ []
  actual_ratios round point (suc (suc n)) i =
      mul (round (div (to_ratio (get_or point i R.zero)) (div (of_ℕ 1) (of_ℕ 100))))
        (div (of_ℕ 1) (of_ℕ 100))
      ∷ actual_ratios round point (suc n) (suc i)

  -- The schedule from the optimizer at an index, read out of bounds at -1.
  abbrev pub schedule_at :
      (round : R.Num → R.Num)
      → TaskGraph R
      → (heft_order : List ℕ) → List (Search R)
      → Option ℕ
      → Option (Schedule R)
  schedule_at round g heft_order searches none = none
  schedule_at round g heft_order searches (some i) = some (record {
    is_always_writting_back = false;
    order = heft_order;
    offload_ratio =
        actual_ratios round (get_or (map (λ s. s.g_best_pt) searches) i []) (num_vertices R g) 0;
  })

  -- What `schedule` returns from the searches that the optimizers have ended with; `none` where no
  -- optimizer is below the first `bestVal`.
  unfoldable pub meta_schedule :
      (round : R.Num → R.Num)
      → (first_best : R.Num) → TaskGraph R
      → (heft_order : List ℕ) → List (Search R)
      → Option (Schedule R)
  unfolding best_optimizer
  meta_schedule round first_best g heft_order searches =
      schedule_at round g heft_order searches
        (best_optimizer (map (λ s. s.g_best_val) searches) 0 none first_best)
