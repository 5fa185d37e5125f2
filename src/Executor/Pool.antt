-- ===== src/Executor/Pool.antt =====
-- src/Executor/HeteroComputePool.cpp and its header: the state of the pool, its tasks, and the test
-- on which a worker waits. A vector indexed by task is a function of the index.
use Prim.Native.String.{String}
use meta_pb.Common.{ℕ, List, [], ◌∷◌, Bool, true, false, if◌then◌else◌, ◌==◌}
use meta_pb.Common.Real.{Real, max_num}
use meta_pb.Operator.Registry.{OperatorTag}
use meta_pb.Operator.Pages.{CpuTcb, DpuTcb}

-- The four threads of `execWorkload`.
pub data Worker : Type 0 where
  cpu_thread dpu_thread map_thread reduce_thread : Worker

abbrev pub same : Worker → Worker → Bool
same cpu_thread cpu_thread = true
same dpu_thread dpu_thread = true
same map_thread map_thread = true
same reduce_thread reduce_thread = true
same _ _ = false

abbrev pub put {ℓ} : {A : Type ℓ} → (Worker → A) → Worker → A → Worker → A
put f w a v = if same w v then a else f v

abbrev pub put_at {ℓ} : {A : Type ℓ} → (Worker → ℕ → A) → Worker → ℕ → A → Worker → ℕ → A
put_at f w i a v j = if same w v then (if i == j then a else f v j) else f v j

-- `Task::execute`: the lambda that `genComputeTask` or `genXferTask` made.
pub data Action : Type 0 where
  nothing : Action
  compute_cpu : OperatorTag → CpuTcb → Action
  compute_dpu : OperatorTag → DpuTcb → Action
  transfer : OperatorTag → CpuTcb → Action
  mimic : Worker → OperatorTag → ℕ → Action

pub record Task : Type 0 where
  pub is_dpu_related : Bool
  pub id : ℕ
  pub execute : Action
  pub op_type : String

-- A call into the operators.
pub data Call : Type 0 where
  exec_cpu : OperatorTag → CpuTcb → Call
  exec_dpu : OperatorTag → DpuTcb → Call

pub record Pool (R : Real) : Type 0 where
  pub dependencies : ℕ → List ℕ
  pub is_completed : Worker → ℕ → Bool
  pub complete_time_ms : Worker → ℕ → R.Num
  pub last_waker_time_ms : Worker → ℕ → R.Num
  pub queue : Worker → List Task
  -- The tasks whose timings a worker has recorded, oldest first, with their type.
  pub timings : Worker → List (ℕ × String)
  pub cpu_mimic_time_ms : R.Num
  pub dpu_mimic_time_ms : R.Num
  pub total_energy_cost_joule : R.Num
  pub total_transfer_mb : R.Num
  -- The calls that the tasks have made.
  pub calls : List Call

-- The thread whose completions a thread waits for, and the tasks that have to be complete there.
abbrev pub waker : Worker → Worker
waker cpu_thread = reduce_thread
waker dpu_thread = map_thread
waker map_thread = cpu_thread
waker reduce_thread = dpu_thread

abbrev pub waits_for : (ℕ → List ℕ) → Worker → ℕ → List ℕ
waits_for deps cpu_thread i = deps i
waits_for deps dpu_thread i = deps i
waits_for deps map_thread i = i ∷ []
waits_for deps reduce_thread i = i ∷ []

module _ (R : Real) where
  -- `allDependenciesMet`: the answer, and the new `lastWakerTime_ms`, which is also written where
  -- the answer is no.
  unfoldable pub all_dependencies_met : (ℕ → Bool) → (ℕ → R.Num) → List ℕ → R.Num → Bool × R.Num
  all_dependencies_met completed times [] last = (true, last)
  all_dependencies_met completed times (dep ∷ deps) last =
      if completed dep
      then all_dependencies_met completed times deps (max_num R last (times dep))
      else (false, last)

  -- The `dependencyCheck` that `execWorkload` hands to a thread.
  unfoldable pub dependency_check : Pool R → Worker → ℕ → Bool × R.Num
  unfolding all_dependencies_met
  dependency_check p w i =
      all_dependencies_met (p.is_completed (waker w)) (p.complete_time_ms (waker w))
        (waits_for p.dependencies w i) (p.last_waker_time_ms w i)
