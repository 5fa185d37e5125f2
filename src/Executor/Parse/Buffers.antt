-- ===== src/Executor/Parse/Buffers.antt =====
-- The buffers that `memPlan` lays out.
use meta_pb.Common.{ℕ, ◌+◌, ◌*◌, ◌^◌, ◌≤◌, ◌<◌, ◌≡◌, arith}
use meta_pb.Common.Real.{Real, Le}
use meta_pb.Operator.Pages.{page_blk_size}
use meta_pb.Executor.Parse.{mem_plan, cpu_page_blk_cnt, dpu_page_blk_cnt}

-- Up to 207 page blocks the three buffers of the CPU's half follow one another without overlap, and
-- up to 2 ^ 30 pages so do those of the DPUs' half.
pub mem_plan_disjoint :
    (heap cpu_cnt dpu_cnt map_cnt reduce_cnt : ℕ)
    → cpu_cnt ≤ 207
    → dpu_cnt ≤ 2 ^ 30
    → let plan = mem_plan heap cpu_cnt dpu_cnt map_cnt reduce_cnt in
      let c = plan.cpu_tcb in
      let d = plan.dpu_tcb in
      (c.src1_page_base + cpu_cnt * page_blk_size ≡ c.src2_page_base)
      × (c.src2_page_base + cpu_cnt * page_blk_size ≡ c.dst_page_base)
      × (d.src1_page_idx + dpu_cnt ≡ d.src2_page_idx)
      × (d.src2_page_idx + dpu_cnt ≡ d.dst_page_idx)
unfolding mem_plan
mem_plan_disjoint heap cpu_cnt dpu_cnt map_cnt reduce_cnt h k = omega arith

-- From 208 to 414 page blocks the `uint32_t` offset of the CPU's result has wrapped, and the result
-- is written over the first operand.
pub mem_plan_overlaps :
    (heap cpu_cnt dpu_cnt map_cnt reduce_cnt : ℕ)
    → 208 ≤ cpu_cnt
    → cpu_cnt ≤ 414
    → let c = (mem_plan heap cpu_cnt dpu_cnt map_cnt reduce_cnt).cpu_tcb in
      (c.src1_page_base ≤ c.dst_page_base)
      × (c.dst_page_base < c.src1_page_base + cpu_cnt * page_blk_size)
unfolding mem_plan
mem_plan_overlaps heap cpu_cnt dpu_cnt map_cnt reduce_cnt h k = omega arith

module _ (R : Real) where
  -- A factor between 0 and 1 does not raise a number of page blocks that a `float` holds exactly.
  pub record ShareLaws : Type 0 where
    pub share_le :
        (ratio : R.Num) (n : ℕ)
        → Le R R.zero ratio
        → Le R ratio R.one
        → n ≤ 2 ^ 24
        → R.trunc (R.mul (R.sub R.one ratio) (R.of_ℕ n)) ≤ n

  -- For an offload ratio between 0 and 1, and up to 2 ^ 24 page blocks, the two halves of a task
  -- make up the task.
  pub shares_add :
      (laws : ShareLaws) (ratio : R.Num) (total : ℕ)
      → Le R R.zero ratio
      → Le R ratio R.one
      → total ≤ 2 ^ 24
      → cpu_page_blk_cnt R ratio total + dpu_page_blk_cnt R ratio total ≡ total
  unfolding cpu_page_blk_cnt dpu_page_blk_cnt
  shares_add laws ratio total lo hi h = omega (arith, laws.share_le ratio total lo hi h)
