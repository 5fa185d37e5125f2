-- ===== src/Executor/Parse.antt =====
-- `parseGraph` of src/Executor/HeteroComputePool.cpp with `cleanStatus`, `genComputeTask`,
-- `genXferTask`, and `memPlan` of its header: from a graph and a schedule to the queues of the four
-- threads.
pub mod Laws
pub mod Buffers
pub mod Reduced
use Prim.Native.String.{String}
use meta_pb.Common.{
  ℕ, zero, suc, ◌+◌, ◌-◌, ◌*◌, ◌/◌, ◌^◌, List, [], ◌∷◌, ◌++◌, Bool, true, false, none,
  if◌then◌else◌, ◌==◌, get_or, ◌&&◌, ◌||◌, not,
}
use meta_pb.Common.Real.{Real, max_num, min_num}
use meta_pb.Operator.Registry.{
  OperatorTag, OperatorType, op_type_to_name, same_tag, logic_start, logic_end, map_op, reduce_op,
}
use meta_pb.Operator.Pages.{
  u32, u64, page_blk_size, SgXferContext, CpuTcb, DpuTcb, get_nearest_page_blk_cnt,
}
use meta_pb.Executor.Graph.{TaskGraph, Schedule, predecessors, successors, task_at}
use meta_pb.Executor.Pool.{
  Worker, cpu_thread, dpu_thread, map_thread, reduce_thread, Action, nothing, compute_cpu,
  compute_dpu, transfer, mimic, Task, Pool,
}
use meta_pb.Executor.Run.{fetch, System}

pub data ExecType : Type 0 where
  mimic_type do_type : ExecType

-- The buffers of a task's two halves, and of its transfers. Offsets are `uint32_t` products.
pub record Plan : Type 0 where
  pub cpu_tcb : CpuTcb
  pub dpu_tcb : DpuTcb
  pub map_tcb : CpuTcb
  pub reduce_tcb : CpuTcb

abbrev pub no_sg : SgXferContext
no_sg = record { cpu_page_blk_base_addr = 0; dpu_page_base_idx = 0; page_blk_cnt = 0 }

abbrev pub sg_tcb : SgXferContext → CpuTcb
sg_tcb sg = record {
  src1_page_base = 0;
  src2_page_base = 0;
  dst_page_base = 0;
  page_blk_cnt = 0;
  sg_info = sg;
}

unfoldable pub mem_plan : (heap cpu_cnt dpu_cnt map_cnt reduce_cnt : ℕ) → Plan
mem_plan heap cpu_cnt dpu_cnt map_cnt reduce_cnt = record {
  cpu_tcb = record {
    src1_page_base = heap;
    src2_page_base = heap + u32 (cpu_cnt * page_blk_size);
    dst_page_base = heap + u32 (2 * cpu_cnt * page_blk_size);
    page_blk_cnt = cpu_cnt;
    sg_info = no_sg;
  };
  dpu_tcb = record {
    src1_page_idx = 0;
    src2_page_idx = u32 (0 + dpu_cnt);
    dst_page_idx = u32 (0 + 2 * dpu_cnt);
    page_cnt = dpu_cnt;
  };
  map_tcb =
      sg_tcb
        (record { cpu_page_blk_base_addr = heap; dpu_page_base_idx = 0; page_blk_cnt = map_cnt });
  reduce_tcb =
      sg_tcb (record {
        cpu_page_blk_base_addr = heap;
        dpu_page_base_idx = 0;
        page_blk_cnt = reduce_cnt;
      });
}

abbrev pub task : Bool → ℕ → Action → String → Task
task related i e name = record { is_dpu_related = related; id = i; execute = e; op_type = name }

unfoldable pub gen_compute_task :
    ℕ → OperatorTag → OperatorType → CpuTcb → DpuTcb → ExecType → Task × Task
unfolding op_type_to_name
gen_compute_task i op op_type cpu_tcb dpu_tcb do_type = (
  task false i (compute_cpu op cpu_tcb) (op_type_to_name op_type),
  task true i (compute_dpu op dpu_tcb) (op_type_to_name op_type),
)
gen_compute_task i op op_type cpu_tcb dpu_tcb mimic_type = (
  task false i (mimic cpu_thread op cpu_tcb.page_blk_cnt) (op_type_to_name op_type),
  task true i (mimic dpu_thread op dpu_tcb.page_cnt) (op_type_to_name op_type),
)

abbrev xfer_action : ExecType → Worker → OperatorTag → CpuTcb → Action
xfer_action do_type w op tcb = transfer op tcb
xfer_action mimic_type w op tcb = mimic w op tcb.sg_info.page_blk_cnt

-- The two ends of a graph transfer nothing.
abbrev pub is_logic : OperatorTag → Bool
is_logic op = same_tag op logic_end || same_tag op logic_start

-- The map task and the reduce task.
unfoldable pub gen_xfer_task : ℕ → OperatorTag → CpuTcb → CpuTcb → ExecType → Task × Task
gen_xfer_task i op map_tcb reduce_tcb e = (
  task true i (if is_logic op then nothing else xfer_action e map_thread map_op map_tcb) "MAP",
  task true i (if is_logic op then nothing else xfer_action e reduce_thread reduce_op reduce_tcb)
      "REDUCE",
)

-- What `genXferTask` adds to `totalTransfer_mb`: a quotient of `uint32_t` values.
unfoldable pub xfer_mib : OperatorTag → CpuTcb → CpuTcb → ℕ
xfer_mib op map_tcb reduce_tcb =
    if is_logic op
    then 0
    else u32 (
        u32 (reduce_tcb.sg_info.page_blk_cnt * page_blk_size)
        + u32 (map_tcb.sg_info.page_blk_cnt * page_blk_size))
      / 2 ^ 20

module _ (R : Real) where
  unfoldable pub clean_status : Pool R
  clean_status = record {
    dependencies = λ _. [];
    is_completed = λ _ _. false;
    complete_time_ms = λ _ _. R.zero;
    last_waker_time_ms = λ _ _. R.zero;
    queue = λ _. [];
    timings = λ _. [];
    cpu_mimic_time_ms = R.zero;
    dpu_mimic_time_ms = R.zero;
    total_energy_cost_joule = R.zero;
    total_transfer_mb = R.zero;
    calls = [];
  }

  abbrev pub ratio_of : Schedule R → ℕ → R.Num
  ratio_of sched i = get_or sched.offload_ratio i R.zero

  -- The largest and the smallest ratio of the successors, read at their vertex index.
  abbrev pub omax_of : Schedule R → List ℕ → R.Num → R.Num
  omax_of sched [] m = m
  omax_of sched (succ ∷ succs) m = omax_of sched succs (max_num R m (ratio_of sched succ))

  abbrev omin_of : Schedule R → List ℕ → R.Num → R.Num
  omin_of sched [] m = m
  omin_of sched (succ ∷ succs) m = omin_of sched succs (min_num R m (ratio_of sched succ))

  unfoldable pub omax : Schedule R → List ℕ → R.Num
  omax sched [] = R.zero
  omax sched (s ∷ ss) = omax_of sched (s ∷ ss) R.zero

  unfoldable pub omin : Schedule R → List ℕ → R.Num
  omin sched [] = R.zero
  omin sched (s ∷ ss) = omin_of sched (s ∷ ss) R.one

  abbrev eq_num : R.Num → R.Num → Bool
  eq_num a b = not (R.lt a b) && not (R.lt b a)

  -- The MiB that go back from the DPUs after the task, and those that go to them.
  unfoldable pub reduce_work_mib : Bool → (ratio omax omin size : R.Num) → ℕ
  reduce_work_mib true ratio omax omin size = if eq_num ratio R.zero then 0 else R.trunc size
  reduce_work_mib false ratio omax omin size =
      if R.lt omax ratio
      then R.trunc (R.mul (R.sub ratio omin) size)
      else if R.lt omin ratio && R.lt ratio omax
      then R.trunc (R.mul (R.sub ratio omin) size)
      else 0

  unfoldable pub map_work_mib : Bool → (ratio omax omin size : R.Num) → ℕ
  map_work_mib true ratio omax omin size = R.trunc (R.mul omax size)
  map_work_mib false ratio omax omin size =
      if R.lt omax ratio then 0 else R.trunc (R.mul (R.sub omax ratio) size)

  -- The page blocks of the CPU's half of a task.
  unfoldable pub cpu_page_blk_cnt : R.Num → ℕ → ℕ
  cpu_page_blk_cnt ratio total = u32 (R.trunc (R.mul (R.sub R.one ratio) (R.of_ℕ total)))

  abbrev pub total_page_blk_cnt : ℕ → ℕ
  total_page_blk_cnt size = u32 (u64 (size * 2 ^ 20 + page_blk_size - 1) / page_blk_size)

  unfoldable pub dpu_page_blk_cnt : R.Num → ℕ → ℕ
  unfolding cpu_page_blk_cnt
  dpu_page_blk_cnt ratio total = u32 (total + 2 ^ 32 - cpu_page_blk_cnt ratio total)

  -- The buffers of the task at position `i` of the schedule.
  unfoldable pub plan_of : ℕ → TaskGraph R → Schedule R → ℕ → ℕ → Plan
  unfolding omax omin reduce_work_mib map_work_mib cpu_page_blk_cnt dpu_page_blk_cnt mem_plan
      get_nearest_page_blk_cnt
  plan_of heap g sched i task_id =
      let tp = task_at R g task_id in
      let total = total_page_blk_cnt tp.input_size_mib in
      let ratio = ratio_of sched i in
      let succs = successors R g task_id in
      let hi = omax sched succs in
      let lo = omin sched succs in
      let size = R.of_ℕ tp.input_size_mib in
      let back = sched.is_always_writting_back in
      mem_plan heap (cpu_page_blk_cnt ratio total) (dpu_page_blk_cnt ratio total)
        (get_nearest_page_blk_cnt (map_work_mib back ratio hi lo size))
        (get_nearest_page_blk_cnt (reduce_work_mib back ratio hi lo size))

  abbrev pub four : Task × Task → Task × Task → Worker → Task
  four compute xfer cpu_thread = compute.0
  four compute xfer dpu_thread = compute.1
  four compute xfer map_thread = xfer.0
  four compute xfer reduce_thread = xfer.1

  unfoldable pub tasks_of : ℕ → TaskGraph R → Schedule R → ExecType → ℕ → ℕ → Worker → Task
  unfolding plan_of gen_compute_task gen_xfer_task
  tasks_of heap g sched e i task_id =
      let tp = task_at R g task_id in
      let plan = plan_of heap g sched i task_id in
      four (gen_compute_task task_id tp.op tp.op_type plan.cpu_tcb plan.dpu_tcb e)
        (gen_xfer_task task_id tp.op plan.map_tcb plan.reduce_tcb e)

  -- One round of the loop of `parseGraph`.
  unfoldable pub parse_task : ℕ → TaskGraph R → Schedule R → ExecType → Pool R → ℕ → ℕ → Pool R
  unfolding tasks_of plan_of xfer_mib
  parse_task heap g sched e p i task_id =
      let plan = plan_of heap g sched i task_id in
      record p {
        dependencies = λ v.
            if task_id == v then p.dependencies v ++ predecessors R g task_id else p.dependencies v;
        queue = λ w. p.queue w ++ tasks_of heap g sched e i task_id w ∷ [];
        total_transfer_mb =
            R.add p.total_transfer_mb
              (R.of_ℕ (xfer_mib (task_at R g task_id).op plan.map_tcb plan.reduce_tcb));
      }

  unfoldable pub parse_from : ℕ → TaskGraph R → Schedule R → ExecType → Pool R → ℕ → List ℕ → Pool R
  unfolding parse_task
  parse_from heap g sched e p i [] = p
  parse_from heap g sched e p i (task_id ∷ order) =
      parse_from heap g sched e (parse_task heap g sched e p i task_id) (suc i) order

  unfoldable pub parse_graph : ℕ → TaskGraph R → Schedule R → ExecType → Pool R
  unfolding parse_from clean_status
  parse_graph heap g sched e = parse_from heap g sched e clean_status 0 sched.order

  -- The threads start on the parsed queues.
  unfoldable pub start : ℕ → TaskGraph R → Schedule R → ExecType → (wakeups : List Bool) → System R
  unfolding parse_graph
  start heap g sched e wakeups = record {
    pool = parse_graph heap g sched e;
    pc = λ _. fetch;
    dpu_mutex = none;
    asleep = λ _. false;
    wakeups = wakeups;
  }
