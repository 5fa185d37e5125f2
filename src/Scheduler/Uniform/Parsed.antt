-- ===== src/Scheduler/Uniform/Parsed.antt =====
-- A schedule for the CPU only, parsed.
use meta_pb.Common.{
  ℕ, zero, suc, ◌^◌, ◌≤◌, ◌≡◌, refl, List, [], ◌∷◌, true, false, get_or, length, replicate, arith,
}
use meta_pb.Common.Real.{Real}
use meta_pb.Operator.Pages.{get_nearest_page_blk_cnt}
use meta_pb.Executor.Graph.{TaskGraph, Schedule, successors, task_at}
use meta_pb.Executor.Parse.{
  plan_of, omax, omax_of, ratio_of, reduce_work_mib, map_work_mib, cpu_page_blk_cnt,
  dpu_page_blk_cnt, total_page_blk_cnt, mem_plan,
}
use meta_pb.Scheduler.Uniform.{cpu_only_schedule}

get_or-replicate : {A : Type 0} (n : ℕ) (a : A) (i : ℕ) → get_or (replicate n a) i a ≡ a
get_or-replicate zero a i = refl
get_or-replicate (suc n) a zero = refl
get_or-replicate (suc n) a (suc i) = get_or-replicate n a i

module _ (R : Real) where
  -- Exact where a factor is 0 or 1, and for numbers of page blocks.
  pub record UnitLaws : Type 0 where
    pub sub_zero : R.sub R.one R.zero ≡ R.one
    pub one_mul : (n : ℕ) → n ≤ 2 ^ 24 → R.trunc (R.mul R.one (R.of_ℕ n)) ≡ n
    pub zero_mul : (a : R.Num) → R.trunc (R.mul R.zero a) ≡ 0
    pub zero_eq : R.lt R.zero R.zero ≡ false

module _ {R : Real} (laws : UnitLaws R) (topo_sort : TaskGraph R → List ℕ) (g : TaskGraph R) where
  abbrev sched : Schedule R
  sched = cpu_only_schedule R topo_sort g

  ratio_zero : (i : ℕ) → ratio_of R sched i ≡ R.zero
  unfolding cpu_only_schedule
  ratio_zero i = get_or-replicate (length (topo_sort g)) R.zero i

  omax_of_zero : (vs : List ℕ) → omax_of R sched vs R.zero ≡ R.zero
  omax_of_zero [] = refl
  omax_of_zero (v ∷ vs) = rw (ratio_zero v, laws.zero_eq) (omax_of_zero vs)

  omax_zero : (vs : List ℕ) → omax R sched vs ≡ R.zero
  unfolding omax
  omax_zero [] = refl
  omax_zero (v ∷ vs) = omax_of_zero (v ∷ vs)

  cpu_share : (total : ℕ) → total ≤ 2 ^ 24 → cpu_page_blk_cnt R R.zero total ≡ total
  unfolding cpu_page_blk_cnt
  cpu_share total h = rw (laws.sub_zero, laws.one_mul total h) (omega arith)

  dpu_share : (total : ℕ) → total ≤ 2 ^ 24 → dpu_page_blk_cnt R R.zero total ≡ 0
  unfolding dpu_page_blk_cnt
  dpu_share total h = rw (cpu_share total h) (omega arith)

  map_share :
      (size lo : R.Num) → get_nearest_page_blk_cnt (map_work_mib R true R.zero R.zero lo size) ≡ 0
  unfolding map_work_mib get_nearest_page_blk_cnt
  map_share size lo = rw (laws.zero_mul size) refl

  reduce_share :
      (size hi lo : R.Num) → get_nearest_page_blk_cnt (reduce_work_mib R true R.zero hi lo size) ≡ 0
  unfolding reduce_work_mib get_nearest_page_blk_cnt
  reduce_share size hi lo = rw laws.zero_eq refl

  -- For a task of up to 2 ^ 24 page blocks the CPU's half is the whole task, and the DPUs' half, the
  -- map and the reduce transfer have no page block.
  pub cpu_only_schedule-plan_of :
      (heap i task_id : ℕ)
      → total_page_blk_cnt R (task_at R g task_id).input_size_mib ≤ 2 ^ 24
      → let plan = plan_of R heap g (cpu_only_schedule R topo_sort g) i task_id in
        (plan.cpu_tcb.page_blk_cnt ≡ total_page_blk_cnt R (task_at R g task_id).input_size_mib)
        × (plan.dpu_tcb.page_cnt ≡ 0)
        × (plan.map_tcb.sg_info.page_blk_cnt ≡ 0)
        × (plan.reduce_tcb.sg_info.page_blk_cnt ≡ 0)
  unfolding plan_of mem_plan cpu_only_schedule
  cpu_only_schedule-plan_of heap i task_id h =
      let total = total_page_blk_cnt R (task_at R g task_id).input_size_mib in
      (
        rw (ratio_zero i) (cpu_share total h),
        rw (ratio_zero i) (dpu_share total h),
        rw (omax_zero (successors R g task_id)) (map_share _ R.zero),
        rw (ratio_zero i) (reduce_share _ R.zero R.zero),
      )
