-- ===== src/Tests/Scheduler.antt =====
-- Schedulers on the graph of three tasks.
use meta_pb.Common.{
  ℕ, zero, suc, true, All-replicate, ◌-◌, ◌≡◌, ◌<◌, refl, List, [], ◌∷◌, false, Option, some, none,
  In, ◌⊎◌, length, get_or, map, All, arith,
}
use meta_pb.Common.Real.{Le}
use meta_pb.Executor.Graph.{TaskGraph, Schedule, Edge, successors, in_edges}
use meta_pb.Executor.Pool.{map_thread}
use mathlib.Core.List.{flatten}
use meta_pb.Executor.Run.{run}
use meta_pb.Executor.Run.Inv.{done}
use meta_pb.Executor.Run.Fair.{IsRound}
use meta_pb.Executor.Workload.{after}
use meta_pb.Executor.Parse.{start, mimic_type, plan_of, total_page_blk_cnt}
use meta_pb.Executor.Result.{makespan}
use meta_pb.Executor.Result.Makespan.{Costs, makespan-complete_time}
use meta_pb.Optimizer.Search.{Search, first_frame}
use meta_pb.Scheduler.Uniform.{cpu_only_schedule}
use meta_pb.Scheduler.Uniform.Parsed.{UnitLaws, cpu_only_schedule-plan_of}
use meta_pb.Scheduler.Heft.{
  Heft, Processor, upward_rank, first_info, average_cost, first_heft, schedule_task, finish_time,
  heft_schedule, earliest_start, cost_on, is_on,
}
use meta_pb.Scheduler.Heft.Rank.{RankLaws, upward_rank_total}
use meta_pb.Scheduler.Heft.Order.{CostsCount, heft_run_completes}
use meta_pb.Scheduler.Heft.Assign.{arrival, schedule_task-earliest}
use meta_pb.Scheduler.Meta.{meta_schedule, actual_ratios}
use meta_pb.Scheduler.Meta.Choice.{LeastAt, meta_schedule-best}
use meta_pb.Tests.Numbers.{nat_real, nat_order, nat_add}
use meta_pb.Tests.Executor.{chain, half_half, spurious, linear_model, round, rounds, round-IsRound}

nat_costs : Costs nat_order nat_add linear_model
nat_costs w op cnt = ground arith

makespan-complete_time_example :
    let p = (run linear_model (start nat_real 0 chain half_half mimic_type spurious) round).pool in
    Le nat_real (p.complete_time_ms map_thread 1) (makespan p)
makespan-complete_time_example =
    makespan-complete_time nat_order nat_add linear_model nat_costs 0 chain half_half mimic_type
      spurious round map_thread 1

nat_rank : RankLaws nat_real
nat_rank = record { le_add = λ a b h. ground arith }

chain_falls : (u v : ℕ) → In v (successors nat_real chain u) → 2 - v < 2 - u
chain_falls u v m = ground arith

upward_rank_total_example : (r : ℕ) × (upward_rank nat_real linear_model chain 3 0 ≡ some r)
upward_rank_total_example =
    upward_rank_total nat_order linear_model chain (λ u. 2 - u) chain_falls 3 0 (omega arith)

abbrev heft : Heft nat_real
heft = first_heft nat_real linear_model chain

costs_of_task :
    (p : Processor) → Le nat_real 0 (cost_on nat_real linear_model chain (heft.info 1) p)
costs_of_task p = ground arith

schedule_task-earliest_example :
    let h' = schedule_task nat_real linear_model chain 100000 heft 1 in
    let end = (h'.info 1).end_time in
    (p : Processor) × ((h'.info 1).assigned_processor ≡ some p)
    × (end ≡ finish_time nat_real linear_model chain heft 1 p)
    × ((q : Processor) → Le nat_real end (finish_time nat_real linear_model chain heft 1 q))
    × Le nat_real (heft.next_available_time p) end
    × (h'.next_available_time p ≡ end)
    × ((e : Edge nat_real)
        → In e (in_edges nat_real chain 1)
        → is_on nat_real linear_model chain (heft.info e.source).assigned_processor p ≡ false
        → Le nat_real (arrival nat_order nat_add linear_model chain heft e) end)
unfolding finish_time earliest_start first_info
schedule_task-earliest_example =
    schedule_task-earliest nat_order nat_add linear_model chain heft 1 100000 costs_of_task refl

nat_units : UnitLaws nat_real
nat_units = record {
  sub_zero = refl;
  one_mul = λ n h. omega arith;
  zero_mul = λ a. omega arith;
  zero_eq = refl;
}

abbrev topo_sort : TaskGraph nat_real → List ℕ
topo_sort g = 0 ∷ 1 ∷ 2 ∷ []

cpu_only_schedule-plan_of_example :
    let plan = plan_of nat_real 0 chain (cpu_only_schedule nat_real topo_sort chain) 1 1 in
    (plan.cpu_tcb.page_blk_cnt ≡ total_page_blk_cnt nat_real 100)
    × (plan.dpu_tcb.page_cnt ≡ 0)
    × (plan.map_tcb.sg_info.page_blk_cnt ≡ 0)
    × (plan.reduce_tcb.sg_info.page_blk_cnt ≡ 0)
cpu_only_schedule-plan_of_example =
    cpu_only_schedule-plan_of nat_units topo_sort chain 0 1 1 (omega arith)

abbrev searches : List (Search nat_real)
searches =
    record (first_frame nat_real 7 []) { g_best_pt = 40 ∷ 60 ∷ 80 ∷ [] }
    ∷ record (first_frame nat_real 5 []) { g_best_pt = 20 ∷ 30 ∷ 90 ∷ [] }
    ∷ []

abbrev chosen : Option (Schedule nat_real)
chosen = meta_schedule nat_real (λ a. a) 9 chain (0 ∷ 1 ∷ 2 ∷ []) searches

abbrev best_vals : List ℕ
best_vals = 7 ∷ 5 ∷ []

-- Of the tasks with a successor, the entry node costs 10 and the task in the middle 100.
chain_counts : CostsCount nat_order linear_model chain 2
unfolding average_cost first_info
chain_counts zero v rs m e = ground arith
chain_counts (suc zero) v rs m e = ground arith
chain_counts (suc (suc u)) v rs m e = absurd (ground arith)

chain_whole : (v : ℕ) → v < 3 → In v (0 ∷ 1 ∷ 2 ∷ [])
chain_whole v h = ground arith

heft_run_completes_example :
    let s = after linear_model 0 chain half_half mimic_type spurious (flatten rounds) in
    (done s map_thread ≡ 0 ∷ 1 ∷ 2 ∷ [])
    × All (λ x. s.pool.is_completed map_thread x ≡ true) (0 ∷ 1 ∷ 2 ∷ [])
unfolding upward_rank average_cost first_info heft_schedule
heft_run_completes_example =
    heft_run_completes nat_order linear_model chain 2 (λ u. 2 - u) chain_falls (λ u. omega arith)
      (omega arith) chain_counts (0 ∷ 1 ∷ 2 ∷ []) chain_whole
      ((refl, (refl, tt)), ((refl, tt), (tt, tt))) 100000 0 half_half mimic_type spurious rounds
      (omega arith) refl (All-replicate IsRound 72 round round-IsRound) (omega arith) map_thread

meta_schedule-best_example :
    ((chosen ≡ none) × All (λ v. Le nat_real 9 v) best_vals)
    ⊎ ((k : ℕ) × (sched : Schedule nat_real) × (chosen ≡ some sched)
        × LeastAt nat_order best_vals k 9
        × (sched.order ≡ 0 ∷ 1 ∷ 2 ∷ [])
        × (length sched.offload_ratio ≡ 3)
        × (sched.offload_ratio
            ≡ actual_ratios nat_real (λ a. a) (get_or (map (λ s. s.g_best_pt) searches) k []) 3 0))
meta_schedule-best_example = meta_schedule-best nat_order (λ a. a) 9 chain (0 ∷ 1 ∷ 2 ∷ []) searches
