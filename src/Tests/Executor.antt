-- ===== src/Tests/Executor.antt =====
-- The pool on a graph of three tasks, and its theorems at it.
use meta_pb.Common.{
  ℕ, zero, suc, ◌≡◌, ◌≤◌, refl, List, [], ◌∷◌, Bool, true, false, arith, replicate, inl, inr, All,
  All-replicate,
}
use mathlib.Core.List.{flatten}
use meta_pb.Operator.Registry.{
  map_op, OperatorTag, OperatorType, logic_start, logic_end, mac, logical, memory_bound,
}
use meta_pb.Executor.Graph.{
  TaskGraph, TaskProperties, Edge, TransferProperties, Schedule, default_task,
}
use meta_pb.Executor.Perf.{PerfModel}
use meta_pb.Executor.Pool.{
  Worker, cpu_thread, dpu_thread, map_thread, reduce_thread, Task, same, mimic,
  all_dependencies_met,
}
use meta_pb.Executor.Run.{System, run}
use meta_pb.Executor.Run.Inv.{done}
use meta_pb.Executor.Run.Fair.{IsRound, moves}
use meta_pb.Executor.Parse.{mimic_type, start, task}
use meta_pb.Executor.Workload.{
  after, work_bounded, dpu_exclusive, xfer_after_compute, inputs_ready, fair_run_completes,
}
use meta_pb.Tests.Numbers.{nat_real}

abbrev pub plain : TransferProperties nat_real
plain = record {
  data_size_ratio = 1;
  is_need_transfer = false;
  prev_dram_ratio = 1;
  next_dram_ratio = 1;
}

abbrev pub node : OperatorTag → OperatorType → ℕ → TaskProperties nat_real
node op op_type size = record (default_task nat_real) {
  op = op;
  op_type = op_type;
  input_size_mib = size;
}

abbrev pub edge : ℕ → ℕ → Edge nat_real
edge a b = record { source = a; target = b; props = plain }

abbrev pub chain : TaskGraph nat_real
chain = record {
  vertices = node logic_start logical 0 ∷ node mac memory_bound 100 ∷ node logic_end logical 0 ∷ [];
  edges = edge 0 1 ∷ edge 1 2 ∷ [];
  name = "chain";
}

abbrev pub half_half : Schedule nat_real
half_half = record {
  is_always_writting_back = true;
  order = 0 ∷ 1 ∷ 2 ∷ [];
  offload_ratio = 0 ∷ 1 ∷ 0 ∷ [];
}

-- A page block costs a second and a joule.
abbrev pub linear_model : PerfModel nat_real
linear_model = record {
  deduce_cpu =
      λ op cnt. record { energy_cost_joule = cnt; time_cost_second = cnt; data_movement_mib = 0 };
  deduce_dpu =
      λ op cnt. record { energy_cost_joule = cnt; time_cost_second = cnt; data_movement_mib = 0 };
}

-- One spurious wake-up, of the second thread that could have one.
abbrev pub spurious : List Bool
spurious = false ∷ true ∷ []

abbrev pub round : List Worker
round = reduce_thread ∷ map_thread ∷ dpu_thread ∷ cpu_thread ∷ []

abbrev pub rounds : List (List Worker)
rounds = replicate 72 round

pub round-IsRound : IsRound round
round-IsRound = (inr (inr (inr (inl refl))), inr (inr (inl refl)), inr (inl refl), inl refl)

abbrev turns : ℕ → List Worker
turns zero = []
turns (suc n) = reduce_thread ∷ map_thread ∷ dpu_thread ∷ cpu_thread ∷ turns n

abbrev after_rounds : ℕ → System nat_real
after_rounds n = after linear_model 0 chain half_half mimic_type spurious (turns n)

fair_run_completes_example :
    (done (after linear_model 0 chain half_half mimic_type spurious (flatten rounds)) map_thread
      ≡ 0 ∷ 1 ∷ 2 ∷ [])
    × All
        (λ x.
          (after linear_model 0 chain half_half mimic_type spurious
              (flatten rounds)).pool.is_completed
            map_thread x
          ≡ true)
        (0 ∷ 1 ∷ 2 ∷ [])
fair_run_completes_example =
    fair_run_completes linear_model 0 chain half_half mimic_type spurious (omega arith)
      (omega arith) rounds (All-replicate IsRound 72 round round-IsRound) (omega arith) map_thread

work_bounded_example :
    moves linear_model
      (start nat_real 0 chain half_half mimic_type spurious)
      (cpu_thread ∷ cpu_thread ∷ [])
    ≤ 72
work_bounded_example =
    work_bounded linear_model 0 chain half_half mimic_type spurious (cpu_thread ∷ cpu_thread ∷ [])

abbrev map_task : Task
map_task = task true 1 (mimic map_thread map_op 0) "MAP"

abbrev dpu_task : Task
dpu_task = task true 1 (mimic dpu_thread mac 11) "MemoryBound"

-- After 14 turns the DPU executes task 1, after 17 the map thread does.
xfer_after_compute_example : (after_rounds 17).pool.is_completed cpu_thread 1 ≡ true
unfolding run start all_dependencies_met
xfer_after_compute_example =
    (xfer_after_compute linear_model 0 chain half_half mimic_type spurious (turns 17) map_task).0
      refl

dpu_exclusive_example : same dpu_thread dpu_thread ≡ true
unfolding run start all_dependencies_met
dpu_exclusive_example =
    dpu_exclusive linear_model 0 chain half_half mimic_type spurious (turns 14) dpu_thread
      dpu_thread dpu_task dpu_task refl refl refl refl

inputs_ready_example :
    ((after_rounds 14).pool.is_completed cpu_thread 0 ≡ true)
    × ((after_rounds 14).pool.is_completed dpu_thread 0 ≡ true)
    × ((after_rounds 14).pool.is_completed map_thread 0 ≡ true)
unfolding run start all_dependencies_met
inputs_ready_example =
    (inputs_ready linear_model 0 chain half_half mimic_type spurious (omega arith) (omega arith)
        (turns 14) dpu_task 0 (inl refl)).1
      refl
