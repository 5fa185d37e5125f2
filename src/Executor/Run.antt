-- ===== src/Executor/Run.antt =====
-- `processTasks` of src/Executor/HeteroComputePool.cpp: four threads, a step at a time. A step ends
-- where another thread may run; what stands under `mutex_` is within one step. Any interleaving is
-- a list of threads. A thread whose test in `cv_.wait` has failed sleeps until a `notify_all` or a
-- spurious wake-up; a step of a sleeping thread takes the next of the given wake-ups, if there is one.
pub mod Frame
pub mod Inv
pub mod Measure
pub mod Progress
pub mod Fair
pub mod Sleep
use meta_pb.Common.{
  ℕ, List, [], ◌∷◌, ◌++◌, Bool, true, false, not, Option, none, some, if◌then◌else◌, ◌==◌,
}
use meta_pb.Common.Real.{Real, max_num}
use meta_pb.Operator.Registry.{OperatorTag}
use meta_pb.Executor.Perf.{PerfStats, PerfModel, zero_perf}
use meta_pb.Executor.Pool.{
  Worker, cpu_thread, dpu_thread, put, put_at, Action, nothing, compute_cpu, compute_dpu, transfer,
  mimic, Task, Call, exec_cpu, exec_dpu, Pool, dependency_check,
}

-- Where a thread stands in the body of the loop.
pub data Pc : Type 0 where
  fetch : Pc  -- at `while (!queue.empty())`
  waiting : Task → Pc  -- in `cv_.wait`
  ready : Task → Pc  -- before `dpuMutex_.lock()`
  holding : Task → Pc  -- before `task.execute()`
  ran : Task → Pc  -- before `dpuMutex_.unlock()`
  closing : Task → Pc  -- before the task is marked as complete

pub record System (R : Real) : Type 0 where
  pub pool : Pool R
  pub pc : Worker → Pc
  -- Who holds `dpuMutex_`.
  pub dpu_mutex : Option Worker
  -- Who sleeps in `cv_.wait`, and whether a sleeper wakes up spuriously, each time it could.
  pub asleep : Worker → Bool
  pub wakeups : List Bool

module _ {R : Real} (om : PerfModel R) where
  -- `om.deducePerfCPU` or `om.deducePerfDPU`, and nothing of it for no page block.
  unfoldable pub task_perf : Worker → OperatorTag → ℕ → PerfStats R
  task_perf dpu_thread op cnt = if cnt == 0 then zero_perf R else om.deduce_dpu op cnt
  task_perf _ op cnt = if cnt == 0 then zero_perf R else om.deduce_cpu op cnt

  -- The clock of a mimicked task: the map and reduce threads share that of the DPU.
  abbrev pub clock : Pool R → Worker → R.Num
  clock p cpu_thread = p.cpu_mimic_time_ms
  clock p _ = p.dpu_mimic_time_ms

  abbrev set_clock : Pool R → Worker → R.Num → Pool R
  set_clock p cpu_thread t = record p { cpu_mimic_time_ms = t }
  set_clock p _ t = record p { dpu_mimic_time_ms = t }

  -- When a mimicked task ends.
  unfoldable pub end_time : Pool R → Worker → OperatorTag → ℕ → ℕ → R.Num
  unfolding task_perf
  end_time p w op cnt i =
      R.add (max_num R (clock p w) (p.last_waker_time_ms w i))
        (R.mul (task_perf w op cnt).time_cost_second (R.of_ℕ 1000))

  -- The critical zone of a mimicked task.
  unfoldable pub mimic_task : Pool R → Worker → OperatorTag → ℕ → ℕ → Pool R
  unfolding end_time
  mimic_task p w op cnt i =
      let t = end_time p w op cnt i in
      let q = set_clock p w t in
      record q {
        complete_time_ms = put_at p.complete_time_ms w i t;
        total_energy_cost_joule =
            R.add p.total_energy_cost_joule (task_perf w op cnt).energy_cost_joule;
      }

  abbrev call : Pool R → Call → Pool R
  call p c = record p { calls = p.calls ++ c ∷ [] }

  -- `task.execute()`.
  unfoldable pub perform : Pool R → Action → ℕ → Pool R
  unfolding mimic_task
  perform p nothing i = p
  perform p (compute_cpu op tcb) i = if tcb.page_blk_cnt == 0 then p else call p (exec_cpu op tcb)
  perform p (compute_dpu op tcb) i = if tcb.page_cnt == 0 then p else call p (exec_dpu op tcb)
  perform p (transfer op tcb) i = call p (exec_cpu op tcb)
  perform p (mimic w op cnt) i = mimic_task p w op cnt i

  -- Task completion: the status and the timing.
  unfoldable pub complete : Pool R → Worker → Task → Pool R
  complete p w t = record p {
    is_completed = put_at p.is_completed w t.id true;
    timings = put p.timings w (p.timings w ++ (t.id, t.op_type) ∷ []);
  }

  abbrev goto : System R → Worker → Pc → System R
  goto s w c = record s { pc = put s.pc w c }

  unfoldable pub take_task : System R → Worker → List Task → System R
  take_task s w [] = s
  take_task s w (t ∷ q) = record s {
    pool = record s.pool { queue = put s.pool.queue w q };
    pc = put s.pc w (waiting t);
  }

  -- The test in `cv_.wait`, at first or after a wake-up.
  unfoldable pub wake : System R → Worker → Task → System R
  unfolding dependency_check
  wake s w t =
      let (met, last) = dependency_check R s.pool w t.id in
      record s {
        pool = record s.pool { last_waker_time_ms = put_at s.pool.last_waker_time_ms w t.id last };
        pc = put s.pc w (if met then ready t else waiting t);
        asleep = put s.asleep w (not met);
      }

  -- A sleeper: the thread stays asleep or wakes up spuriously, and then tests at its next step.
  unfoldable pub doze : System R → Worker → List Bool → System R
  doze s w [] = s
  doze s w (b ∷ bs) = record s { asleep = put s.asleep w (not b); wakeups = bs }

  unfoldable pub wait : System R → Worker → Task → System R
  unfolding wake doze
  wait s w t = if s.asleep w then doze s w s.wakeups else wake s w t

  -- `cv_.notify_all()`: every sleeper tests again at its next step.
  unfoldable pub notify_all : System R → System R
  notify_all s = record s { asleep = λ _. false }

  abbrev lock_dpu : System R → Worker → Task → Option Worker → System R
  lock_dpu s w t none = record s { pc = put s.pc w (holding t); dpu_mutex = some w }
  lock_dpu s w t (some v) = s

  unfoldable pub lock : System R → Worker → Task → System R
  lock s w t = if t.is_dpu_related then lock_dpu s w t s.dpu_mutex else goto s w (holding t)

  unfoldable pub unlock : System R → Worker → Task → System R
  unlock s w t = record s {
    pc = put s.pc w (closing t);
    dpu_mutex = if t.is_dpu_related then none else s.dpu_mutex;
  }

  unfoldable pub advance : System R → Worker → Pc → System R
  unfolding take_task wait lock perform unlock complete notify_all
  advance s w fetch = take_task s w (s.pool.queue w)
  advance s w (waiting t) = wait s w t
  advance s w (ready t) = lock s w t
  advance s w (holding t) = record s {
    pool = perform s.pool t.execute t.id;
    pc = put s.pc w (ran t);
  }
  advance s w (ran t) = unlock s w t
  advance s w (closing t) =
      notify_all (record s { pool = complete s.pool w t; pc = put s.pc w fetch })

  -- The next step of a thread.
  unfoldable pub step : System R → Worker → System R
  unfolding advance
  step s w = advance s w (s.pc w)

  unfoldable pub run : System R → List Worker → System R
  unfolding step
  run s [] = s
  run s (w ∷ ws) = run (step s w) ws
