-- ===== src/Operator/Manager/Exec/Refine.antt =====
-- A task on the DPUs against the same task on the host, by the operator's tag.
use meta_pb.Common.{ℕ, ◌*◌, ◌<◌, ◌≡◌, refl, List}
use meta_pb.Operator.Dpu.Programs.{IsComplete}
use meta_pb.Operator.Kernels.Host.{HasBuffers}
use meta_pb.Operator.Manager.Exec.{Memories, op_exec_cpu, op_exec_dpu}
use meta_pb.Operator.Memory.{IsSchedule}
use meta_pb.Operator.Offload.{Launch, sg_task, mapped_sources, offload}
use meta_pb.Operator.Offload.Loaded.{IsOffload}
use meta_pb.Operator.Offload.Refine.{offload_refines}
use meta_pb.Operator.Pages.{CpuTcb, DpuTcb}
use meta_pb.Operator.Registry.{OperatorTag, affine, conv_1d, elew_prod, elew_add, map_op, reduce_op}
use meta_pb.Operator.Transfer.{SgXfer, SgLaws}

-- MAP of both sources, the operator on the DPUs, and REDUCE of the result.
abbrev pub offloaded :
    SgXfer → (schedule : ℕ → List ℕ) → Launch → OperatorTag → CpuTcb → DpuTcb → Memories → Memories
offloaded xfer schedule launch op tcb dpu_tcb m =
    op_exec_cpu xfer schedule reduce_op
      (sg_task tcb.dst_page_base dpu_tcb.dst_page_idx tcb.page_blk_cnt)
      (op_exec_dpu launch op dpu_tcb (
        op_exec_cpu xfer schedule map_op
          (sg_task tcb.src2_page_base dpu_tcb.src2_page_idx tcb.page_blk_cnt)
          (op_exec_cpu xfer schedule map_op
            (sg_task tcb.src1_page_base dpu_tcb.src1_page_idx tcb.page_blk_cnt) m)))

-- The operators that give every item from the sources of its own chunk.
abbrev pub Agrees : OperatorTag → Type 0
Agrees affine = Unit
Agrees elew_add = Unit
Agrees elew_prod = Unit
Agrees conv_1d = Unit
Agrees _ = ⊥

-- For AFFINE, ELEW_ADD, ELEW_PROD or CONV_1D, up to 414 page blocks and the destination apart from
-- the sources in both memories, the calls of the operator manager that run the operator on the DPUs
-- refine its call on the host: MAP of the sources, `execDPU` under any interleavings of the tasklets
-- with enough steps and REDUCE of the result leave every word of the host's memory as `execCPU` does,
-- under any order of its iterations; and `execCPU` leaves the memories of the DPUs as they are.
pub offloaded-refines :
    (xfer : SgXfer) (op : OperatorTag) (tcb : CpuTcb) (dpu_tcb : DpuTcb) (m : Memories)
    (launch : Launch) (schedule : ℕ → List ℕ)
    → Agrees op
    → SgLaws xfer
    → IsOffload tcb dpu_tcb
    → ((d : ℕ) → d < 2530 → IsComplete dpu_tcb (launch.ids d))
    → IsSchedule schedule
    → HasBuffers tcb (2590720 * tcb.page_blk_cnt)
    → ((a : ℕ)
        → (offloaded xfer schedule launch op tcb dpu_tcb m).host a
          ≡ (op_exec_cpu xfer schedule op tcb m).host a)
      × ((op_exec_cpu xfer schedule op tcb m).mrams ≡ m.mrams)
unfolding op_exec_cpu op_exec_dpu offload mapped_sources
offloaded-refines xfer affine tcb dpu_tcb m launch schedule agrees laws ok complete order buffers =
    (
      λ a.
          (offload_refines xfer tcb dpu_tcb m.host m.mrams launch schedule laws ok complete order
            buffers a).0,
      refl,
    )
offloaded-refines xfer elew_add tcb dpu_tcb m launch schedule agrees laws ok complete order
      buffers =
    (
      λ a.
          (offload_refines xfer tcb dpu_tcb m.host m.mrams launch schedule laws ok complete order
            buffers a).1,
      refl,
    )
offloaded-refines xfer elew_prod tcb dpu_tcb m launch schedule agrees laws ok complete order
      buffers =
    (
      λ a.
          (offload_refines xfer tcb dpu_tcb m.host m.mrams launch schedule laws ok complete order
            buffers a).2,
      refl,
    )
offloaded-refines xfer conv_1d tcb dpu_tcb m launch schedule agrees laws ok complete order buffers =
    (
      λ a.
          (offload_refines xfer tcb dpu_tcb m.host m.mrams launch schedule laws ok complete order
            buffers a).3,
      refl,
    )
offloaded-refines xfer _ tcb dpu_tcb m launch schedule agrees laws ok complete order buffers =
    absurd agrees
