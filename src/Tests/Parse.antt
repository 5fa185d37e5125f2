-- ===== src/Tests/Parse.antt =====
-- Buffers, shares and queues of concrete sizes.
use meta_pb.Common.{ℕ, zero, suc, ◌+◌, ◌-◌, ◌*◌, ◌≤◌, ◌<◌, ◌≡◌, arith}
use meta_pb.Operator.Pages.{page_blk_size}
use meta_pb.Executor.Parse.{mem_plan}
use meta_pb.Executor.Parse.Buffers.{mem_plan_disjoint, mem_plan_overlaps, ShareLaws}
use meta_pb.Tests.Numbers.{nat_real}

mem_plan_disjoint_example :
    let plan = mem_plan 4096 100 200 0 0 in
    let c = plan.cpu_tcb in
    let d = plan.dpu_tcb in
    (c.src1_page_base + 100 * page_blk_size ≡ c.src2_page_base)
    × (c.src2_page_base + 100 * page_blk_size ≡ c.dst_page_base)
    × (d.src1_page_idx + 200 ≡ d.src2_page_idx)
    × (d.src2_page_idx + 200 ≡ d.dst_page_idx)
mem_plan_disjoint_example = mem_plan_disjoint 4096 100 200 0 0 (omega arith) (omega arith)

mem_plan_overlaps_example :
    let c = (mem_plan 4096 300 0 0 0).cpu_tcb in
    (c.src1_page_base ≤ c.dst_page_base)
    × (c.dst_page_base < c.src1_page_base + 300 * page_blk_size)
mem_plan_overlaps_example = mem_plan_overlaps 4096 300 0 0 0 (omega arith) (omega arith)

share_mul : (a n : ℕ) → a ≤ 1 → a * n ≤ n
share_mul zero n h = omega arith
share_mul (suc zero) n h = omega arith
share_mul (suc (suc a)) n h = absurd (omega arith)

nat_shares : ShareLaws nat_real
nat_shares = record { share_le = λ ratio n lo hi small. share_mul (1 - ratio) n (omega arith) }
