-- ===== src/Scheduler/Heft.antt =====
-- `HEFTScheduler` of include/Scheduler/HEFTScheduler.hpp and src/Scheduler/HEFTScheduler.cpp.
-- `schedulingInfo` is a function of the vertex; `std::sort` by falling rank is a parameter. The map of
-- -1 as "not yet calculated" and "not assigned" is `none`.
pub mod Rank
pub mod Assign
pub mod Order
use meta_pb.Common.{
  ℕ, zero, suc, ◌-◌, List, [], ◌∷◌, Bool, true, false, Option, none, some, if◌then◌else◌, ◌==◌, set,
  map,
}
use mathlib.Core.Option
use meta_pb.Common.Real.{Real, max_num}
use meta_pb.Operator.Pages.{u32}
use meta_pb.Operator.Registry.{logic_start, map_op, same_tag}
use meta_pb.Executor.Graph.{TaskGraph, Edge, Schedule, task_at, num_vertices, successors, in_edges}
use meta_pb.Executor.Perf.{PerfModel}

-- `Processor::id` of the two processors.
pub data Processor : Type 0 where
  cpu_processor dpu_processor : Processor

abbrev pub same_processor : Processor → Processor → Bool
same_processor cpu_processor cpu_processor = true
same_processor dpu_processor dpu_processor = true
same_processor _ _ = false

pub record TaskSchedulingInfo (R : Real) : Type 0 where
  pub computation_cost_cpu : R.Num
  pub computation_cost_dpu : R.Num
  pub assigned_processor : Option Processor
  pub start_time : R.Num
  pub end_time : R.Num

pub record Heft (R : Real) : Type 0 where
  pub info : ℕ → TaskSchedulingInfo R
  pub next_available_time : Processor → R.Num

module _ (R : Real) (om : PerfModel R) (g : TaskGraph R) where
  open R use {add, div, mul, lt, of_ℕ, trunc}

  -- A record's constructor and the first loop of `schedule`.
  unfoldable pub first_info : ℕ → TaskSchedulingInfo R
  first_info tn =
      let tp = task_at R g tn in
      record {
        computation_cost_cpu = (om.deduce_cpu tp.op tp.input_size_mib).time_cost_second;
        computation_cost_dpu = (om.deduce_dpu tp.op tp.input_size_mib).time_cost_second;
        assigned_processor = none;
        start_time = R.zero;
        end_time = R.zero;
      }

  abbrev pub max_rank : List R.Num → R.Num → R.Num
  max_rank [] m = m
  max_rank (r ∷ rs) m = max_rank rs (max_num R m r)

  -- `calculateUpwardRank`. A rank is calculated once and kept, so that it is a function of the vertex;
  -- a recursion deeper than there are vertices has run into a cycle, and is `none`.
  abbrev pub all_some : List (Option R.Num) → Option (List R.Num)
  all_some [] = some []
  all_some (none ∷ os) = none
  all_some (some a ∷ os) = Option.map (λ rs. a ∷ rs) (all_some os)

  -- The mean of both costs.
  unfoldable pub average_cost : ℕ → R.Num
  unfolding first_info
  average_cost tn =
      div (add (first_info tn).computation_cost_cpu (first_info tn).computation_cost_dpu) (of_ℕ 2)

  -- The entry node's cost is a constant, so that it comes first.
  abbrev pub rank_cost : ℕ → R.Num
  rank_cost zero = of_ℕ 10
  rank_cost (suc tn) = average_cost (suc tn)

  abbrev pub rank_of : ℕ → Option (List R.Num) → Option R.Num
  rank_of tn none = none
  rank_of tn (some rs) = some (add (rank_cost tn) (max_rank rs R.zero))

  unfoldable pub upward_rank : (fuel tn : ℕ) → Option R.Num
  unfolding first_info
  upward_rank zero tn = none
  upward_rank (suc fuel) tn =
      rank_of tn (all_some (map (λ succ. upward_rank fuel succ) (successors R g tn)))

  -- `transferCost` of an edge; the size in MiB becomes a `uint32_t`.
  unfoldable pub transfer_cost : Edge R → R.Num
  transfer_cost e =
      let tp = task_at R g e.source in
      let size = if same_tag tp.op logic_start then 0 else tp.input_size_mib in
      (om.deduce_cpu map_op
        (u32 (trunc (mul e.props.data_size_ratio (of_ℕ size))))).time_cost_second

  abbrev pub is_on : Option Processor → Processor → Bool
  is_on none p = false
  is_on (some q) p = same_processor q p

  -- `earliestStartTime`, over the edges into the task.
  unfoldable pub earliest_start : Heft R → Processor → List (Edge R) → R.Num → R.Num
  unfolding transfer_cost
  earliest_start h p [] t = t
  earliest_start h p (e ∷ es) t =
      let pred = h.info e.source in
      earliest_start h p es (
        if is_on pred.assigned_processor p
        then t
        else max_num R t (add pred.end_time (transfer_cost e)))

  abbrev pub cost_on : TaskSchedulingInfo R → Processor → R.Num
  cost_on info cpu_processor = info.computation_cost_cpu
  cost_on info dpu_processor = info.computation_cost_dpu

  unfoldable pub finish_time : Heft R → ℕ → Processor → R.Num
  unfolding earliest_start
  finish_time h tn p =
      add (earliest_start h p (in_edges R g tn) (h.next_available_time p)) (cost_on (h.info tn) p)

  -- The loop over the processors: the best one so far, and the earliest finish.
  unfoldable pub best_processor :
      Heft R → ℕ → List Processor → Processor → R.Num → Processor × R.Num
  unfolding finish_time
  best_processor h tn [] best earliest = (best, earliest)
  best_processor h tn (p ∷ ps) best earliest =
      let t = finish_time h tn p in
      if lt t earliest then best_processor h tn ps p t else best_processor h tn ps best earliest

  abbrev put_info : (ℕ → TaskSchedulingInfo R) → ℕ → TaskSchedulingInfo R → ℕ → TaskSchedulingInfo R
  put_info info tn i v = if tn == v then i else info v

  -- `scheduleTask`; `max_val` is the largest `double`.
  unfoldable pub schedule_task : (max_val : R.Num) → Heft R → ℕ → Heft R
  unfolding best_processor
  schedule_task max_val h tn =
      let best = best_processor h tn (cpu_processor ∷ dpu_processor ∷ []) cpu_processor max_val in
      let p = best.0 in
      let old = h.info tn in
      record {
        info = put_info h.info tn (record old {
          assigned_processor = some p;
          start_time = h.next_available_time p;
          end_time = best.1;
        });
        next_available_time = λ q. if same_processor p q then best.1 else h.next_available_time q;
      }

  -- The last loop of `schedule`: the ratios, and what it leaves.
  unfoldable pub assign_tasks : (max_val : R.Num) → Heft R → List ℕ → List R.Num × Heft R
  unfolding schedule_task
  assign_tasks max_val h [] = ([], h)
  assign_tasks max_val h (tn ∷ tns) =
      let h' = schedule_task max_val h tn in
      let rest = assign_tasks max_val h' tns in
      let r = if is_on (h'.info tn).assigned_processor dpu_processor then R.one else R.zero in
      (r ∷ rest.0, rest.1)

  abbrev pub first_heft : Heft R
  first_heft = record { info = first_info; next_available_time = λ p. R.zero }

  -- `schedule`, with the vertices as `std::sort` leaves them.
  unfoldable pub heft_schedule : (max_val : R.Num) → (sorted : List ℕ) → Schedule R
  unfolding assign_tasks first_info
  heft_schedule max_val sorted = record {
    is_always_writting_back = false;
    order = sorted;
    offload_ratio = set (assign_tasks max_val first_heft sorted).0 (num_vertices R g - 1) R.zero;
  }
