-- ===== src/Operator/Offload.antt =====
-- A task on the DPUs: MAP of its sources' page blocks, the operator's program on every DPU, and REDUCE
-- of the destination's, as the transfer and compute threads of src/Executor/HeteroComputePool.cpp
-- carry them out one after the other.
pub mod Loaded
pub mod Refine
use meta_pb.Common.{ℕ, List}
use meta_pb.Operator.Pages.{CpuTcb, DpuTcb}
use meta_pb.Operator.Memory.{Memory}
use meta_pb.Operator.Dpu.{DpuCache, DpuKernel, dpu_start, run_tasklets}
use meta_pb.Operator.Transfer.{Mrams, SgXfer, map_cpu, reduce_cpu}

-- A control block for a transfer between any address and pages of the DPUs; the plan of the compute
-- pool itself only transfers to and from the start of the heap and page 0.
abbrev pub sg_task : ℕ → ℕ → ℕ → CpuTcb
sg_task base idx cnt = record {
  src1_page_base = 0;
  src2_page_base = 0;
  dst_page_base = 0;
  page_blk_cnt = 0;
  sg_info = record { cpu_page_blk_base_addr = base; dpu_page_base_idx = idx; page_blk_cnt = cnt };
}

-- What runs on the DPUs: for each the order of its tasklets' steps, and what its caches held.
pub record Launch : Type 0 where
  pub ids : ℕ → List ℕ
  pub caches : ℕ → ℕ → DpuCache

-- `dpu_launch` runs the program on every DPU.
unfoldable pub launch_all : DpuKernel → DpuTcb → Launch → Mrams → Mrams
launch_all kernel dpu_tcb launch mrams d =
    (run_tasklets kernel dpu_tcb (launch.ids d) (dpu_start (mrams d) (launch.caches d))).mram

module _ (xfer : SgXfer) (tcb : CpuTcb) (dpu_tcb : DpuTcb) (host : Memory) (mrams : Mrams) where
  -- Both sources in the DPUs' memories.
  unfoldable pub mapped_sources : Mrams
  mapped_sources =
      map_cpu xfer (sg_task tcb.src2_page_base dpu_tcb.src2_page_idx tcb.page_blk_cnt) host (
        map_cpu xfer (sg_task tcb.src1_page_base dpu_tcb.src1_page_idx tcb.page_blk_cnt) host mrams)

  unfoldable pub offload : DpuKernel → Launch → Memory
  offload kernel launch =
      reduce_cpu xfer (sg_task tcb.dst_page_base dpu_tcb.dst_page_idx tcb.page_blk_cnt)
        (launch_all kernel dpu_tcb launch mapped_sources) host
