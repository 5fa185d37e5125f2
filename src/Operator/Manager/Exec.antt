-- ===== src/Operator/Manager/Exec.antt =====
-- `execCPU` and `execDPU` of include/Operator/OperatorManager.hpp: the operator of a tag runs on the
-- memories of the host and of the DPUs. The headers of the operators say which of them do nothing.
pub mod Refine
use meta_pb.Common.{ℕ, List}
use meta_pb.Operator.Dpu.{
  dpu_start, affine_dpu, elew_add_dpu, elew_prod_dpu, conv_1d_dpu, filter_dpu, mac_dpu, lookup_dpu,
}
use meta_pb.Operator.Dpu.Distance.{run_eudist}
use meta_pb.Operator.Kernels.{
  affine_cpu, elew_add_cpu, elew_prod_cpu, conv_1d_cpu, filter_cpu, eudist_cpu, mac_cpu, lookup_cpu,
}
use meta_pb.Operator.Memory.{Memory}
use meta_pb.Operator.Offload.{Launch, launch_all}
use meta_pb.Operator.Pages.{CpuTcb, DpuTcb}
use meta_pb.Operator.Registry.{
  OperatorTag, affine, eudist, conv_1d, lookup, elew_prod, elew_add, logic_start, logic_end, map_op,
  reduce_op, mac, filter_op, undefined,
}
use meta_pb.Operator.Transfer.{Mrams, SgXfer, map_cpu, reduce_cpu}

-- The memory of the host, and those of the DPUs.
pub record Memories : Type 0 where
  pub host : Memory
  pub mrams : Mrams

abbrev pub on_host : (Memory → Memory) → Memories → Memories
on_host f m = record { host = f m.host; mrams = m.mrams }

abbrev pub on_dpus : (Mrams → Mrams) → Memories → Memories
on_dpus f m = record { host = m.host; mrams = f m.mrams }

-- `execCPU`, with the order in which parallel loops run their iterations.
unfoldable pub op_exec_cpu :
    SgXfer → (schedule : ℕ → List ℕ) → OperatorTag → CpuTcb → Memories → Memories
op_exec_cpu xfer schedule affine tcb m = on_host (affine_cpu tcb schedule) m
op_exec_cpu xfer schedule eudist tcb m = on_host (eudist_cpu tcb schedule) m
op_exec_cpu xfer schedule conv_1d tcb m = on_host (conv_1d_cpu tcb schedule) m
op_exec_cpu xfer schedule lookup tcb m = on_host (lookup_cpu tcb schedule) m
op_exec_cpu xfer schedule elew_prod tcb m = on_host (elew_prod_cpu tcb schedule) m
op_exec_cpu xfer schedule elew_add tcb m = on_host (elew_add_cpu tcb schedule) m
op_exec_cpu xfer schedule logic_start tcb m = m
op_exec_cpu xfer schedule logic_end tcb m = m
op_exec_cpu xfer schedule map_op tcb m = on_dpus (map_cpu xfer tcb m.host) m
op_exec_cpu xfer schedule reduce_op tcb m = on_host (reduce_cpu xfer tcb m.mrams) m
op_exec_cpu xfer schedule mac tcb m = on_host (mac_cpu tcb schedule) m
op_exec_cpu xfer schedule filter_op tcb m = on_host (filter_cpu tcb schedule) m
op_exec_cpu xfer schedule undefined tcb m = m

-- EUDIST on every DPU.
unfoldable pub launch_eudist : DpuTcb → Launch → Mrams → Mrams
launch_eudist tcb launch mrams d =
    (run_eudist tcb (launch.ids d) (dpu_start (mrams d) (launch.caches d))).mram

-- `execDPU`
unfoldable pub op_exec_dpu : Launch → OperatorTag → DpuTcb → Memories → Memories
unfolding launch_eudist
op_exec_dpu launch affine tcb m = on_dpus (launch_all affine_dpu tcb launch) m
op_exec_dpu launch eudist tcb m = on_dpus (launch_eudist tcb launch) m
op_exec_dpu launch conv_1d tcb m = on_dpus (launch_all conv_1d_dpu tcb launch) m
op_exec_dpu launch lookup tcb m = on_dpus (launch_all lookup_dpu tcb launch) m
op_exec_dpu launch elew_prod tcb m = on_dpus (launch_all elew_prod_dpu tcb launch) m
op_exec_dpu launch elew_add tcb m = on_dpus (launch_all elew_add_dpu tcb launch) m
op_exec_dpu launch logic_start tcb m = m
op_exec_dpu launch logic_end tcb m = m
op_exec_dpu launch map_op tcb m = m
op_exec_dpu launch reduce_op tcb m = m
op_exec_dpu launch mac tcb m = on_dpus (launch_all mac_dpu tcb launch) m
op_exec_dpu launch filter_op tcb m = on_dpus (launch_all filter_dpu tcb launch) m
op_exec_dpu launch undefined tcb m = m
