-- ===== src/Executor/Parse/Reduced.antt =====
-- The transfers that `memPlan` lays out, against the pages in which the DPUs' programs leave results.
use meta_pb.Common.{ℕ, ◌+◌, ◌*◌, ◌/◌, ◌%◌, ◌≤◌, ◌<◌, ◌≡◌, refl, inl, arith}
use meta_pb.Operator.Memory.{Memory, word_index}
use meta_pb.Operator.Memory.Writers.{IsFilled-cong, IsFilled-unique}
use meta_pb.Operator.Dpu.{DpuKernel}
use meta_pb.Operator.Dpu.Inv.{HasPages}
use meta_pb.Operator.Dpu.Run.{run_outside}
use meta_pb.Operator.Dpu.Programs.{IsComplete}
use meta_pb.Operator.Transfer.{Mrams, SgXfer, SgLaws, reduce_cpu}
use meta_pb.Operator.Transfer.Blocks.{FitsSg, reduce-IsFilled}
use meta_pb.Operator.Offload.{Launch, launch_all}
use meta_pb.Executor.Parse.{Plan, mem_plan}

-- What the plan of a task reduces does not depend on what the task computes: for up to 5120 pages of
-- the task on each DPU, and up to 414 reduced page blocks that are at most twice as many, REDUCE as
-- planned leaves the host's memory the same whether the program has run on the DPUs or not.
pub mem_plan-reduce_cpu :
    (xfer : SgXfer) (heap cpu_cnt dpu_cnt map_cnt reduce_cnt : ℕ) (kernel : DpuKernel)
    (launch : Launch) (mrams : Mrams) (host : Memory)
    → SgLaws xfer
    → dpu_cnt ≤ 5120
    → reduce_cnt ≤ 414
    → reduce_cnt ≤ 2 * dpu_cnt
    → let plan = mem_plan heap cpu_cnt dpu_cnt map_cnt reduce_cnt in
      ((d : ℕ) → d < 2530 → IsComplete plan.dpu_tcb (launch.ids d))
      → (a : ℕ)
      → reduce_cpu xfer plan.reduce_tcb (launch_all kernel plan.dpu_tcb launch mrams) host a
        ≡ reduce_cpu xfer plan.reduce_tcb mrams host a
unfolding mem_plan launch_all
mem_plan-reduce_cpu xfer heap cpu_cnt dpu_cnt map_cnt reduce_cnt kernel launch mrams host laws h few
      p complete a =
    IsFilled-unique (word_index heap) (2590720 * reduce_cnt) _ host _ _
      (IsFilled-cong _ _ _ host _ refl kept (
        reduce-IsFilled xfer laws plan.reduce_tcb fits (launch_all kernel plan.dpu_tcb launch mrams)
          host))
      (reduce-IsFilled xfer laws plan.reduce_tcb fits mrams host) a
  where
    plan : Plan
    plan = mem_plan heap cpu_cnt dpu_cnt map_cnt reduce_cnt

    fits : FitsSg plan.reduce_tcb.sg_info
    fits = record { few = few; low = omega arith }

    pages : HasPages plan.dpu_tcb
    pages = record {
      few = omega (arith, h);
      src1_apart = omega (arith, h);
      src2_apart = omega (arith, h);
    }

    kept :
        (w : ℕ)
        → w < 2590720 * reduce_cnt
        → launch_all kernel plan.dpu_tcb launch mrams
            (w / 1024 % 2530)
            (1024 * 0 + (1024 * (w / 1024 / 2530) + w % 1024))
          ≡ mrams (w / 1024 % 2530) (1024 * 0 + (1024 * (w / 1024 / 2530) + w % 1024))
    kept w q =
        run_outside kernel (λ _ _ _. 0) (λ _. ⊥) (λ _ _ _ _ _ s. absurd s) plan.dpu_tcb pages
          (mrams (w / 1024 % 2530)) (launch.ids (w / 1024 % 2530)) (launch.caches (w / 1024 % 2530))
          (complete (w / 1024 % 2530) (omega arith)).0 (complete (w / 1024 % 2530) (omega arith)).1
          _ (inl (omega (arith, q, p, h)))
