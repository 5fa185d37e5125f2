-- ===== src/Executor/Result/Makespan.antt =====
-- The mimicked times of completion, and the makespan.
use meta_pb.Common.{ℕ, Bool, ◌==◌, ◌≡◌, sym, subst, List, [], ◌∷◌, inl, inr, Bool-cases}
use meta_pb.Common.Real.{Real, Le, OrderLaws, AddLaws, max_num-left, max_num-right}
use meta_pb.Operator.Registry.{OperatorTag}
use meta_pb.Executor.Graph.{TaskGraph, Schedule}
use meta_pb.Executor.Perf.{PerfModel}
use meta_pb.Executor.Pool.{
  Worker, cpu_thread, dpu_thread, map_thread, reduce_thread, same, put_at, Action, nothing,
  compute_cpu, compute_dpu, transfer, mimic, Task, Pool,
}
use meta_pb.Executor.Run.{
  Pc, fetch, waiting, ready, holding, ran, closing, System, task_perf, clock, end_time, mimic_task,
  perform, take_task, wake, unlock, complete, advance, step, run,
}
use meta_pb.Executor.Run.Frame.{same_eq, lock-pool, wait-elim}
use meta_pb.Executor.Parse.{ExecType, start}
use meta_pb.Executor.Parse.Laws.{start-clean}
use meta_pb.Executor.Result.{makespan}

module _ {R : Real} (laws : OrderLaws R) (adds : AddLaws R) (om : PerfModel R) where
  -- No predicted time is negative.
  abbrev pub Costs : Type 0
  Costs =
      (w : Worker) (op : OperatorTag) (cnt : ℕ)
      → Le R R.zero (R.mul (task_perf om w op cnt).time_cost_second (R.of_ℕ 1000))

  -- Every completion time is one that the thread's clock has reached.
  Timed : Pool R → Type 0
  Timed p = (v : Worker) (x : ℕ) → Le R (p.complete_time_ms v x) (clock om p v)

  module _ (costs : Costs) where
    end_time-clock :
        (w : Worker) (p : Pool R) (op : OperatorTag) (cnt i : ℕ)
        → Le R (clock om p w) (end_time om p w op cnt i)
    unfolding end_time
    end_time-clock w p op cnt i =
        laws.le_trans _ _ _ (max_num-left laws (clock om p w) (p.last_waker_time_ms w i))
          (adds.le_add _ _ (costs w op cnt))

    clock-grows :
        (w v : Worker) (p : Pool R) (op : OperatorTag) (cnt i : ℕ)
        → Le R (clock om p v) (clock om (mimic_task om p w op cnt i) v)
    unfolding mimic_task
    clock-grows cpu_thread cpu_thread p op cnt i = end_time-clock cpu_thread p op cnt i
    clock-grows cpu_thread dpu_thread p op cnt i = laws.lt_irrefl _
    clock-grows cpu_thread map_thread p op cnt i = laws.lt_irrefl _
    clock-grows cpu_thread reduce_thread p op cnt i = laws.lt_irrefl _
    clock-grows dpu_thread cpu_thread p op cnt i = laws.lt_irrefl _
    clock-grows dpu_thread dpu_thread p op cnt i = end_time-clock dpu_thread p op cnt i
    clock-grows dpu_thread map_thread p op cnt i = end_time-clock dpu_thread p op cnt i
    clock-grows dpu_thread reduce_thread p op cnt i = end_time-clock dpu_thread p op cnt i
    clock-grows map_thread cpu_thread p op cnt i = laws.lt_irrefl _
    clock-grows map_thread dpu_thread p op cnt i = end_time-clock map_thread p op cnt i
    clock-grows map_thread map_thread p op cnt i = end_time-clock map_thread p op cnt i
    clock-grows map_thread reduce_thread p op cnt i = end_time-clock map_thread p op cnt i
    clock-grows reduce_thread cpu_thread p op cnt i = laws.lt_irrefl _
    clock-grows reduce_thread dpu_thread p op cnt i = end_time-clock reduce_thread p op cnt i
    clock-grows reduce_thread map_thread p op cnt i = end_time-clock reduce_thread p op cnt i
    clock-grows reduce_thread reduce_thread p op cnt i = end_time-clock reduce_thread p op cnt i

    clock-end :
        (w : Worker) (p : Pool R) (op : OperatorTag) (cnt i : ℕ)
        → Le R (end_time om p w op cnt i) (clock om (mimic_task om p w op cnt i) w)
    unfolding mimic_task
    clock-end cpu_thread p op cnt i = laws.lt_irrefl _
    clock-end dpu_thread p op cnt i = laws.lt_irrefl _
    clock-end map_thread p op cnt i = laws.lt_irrefl _
    clock-end reduce_thread p op cnt i = laws.lt_irrefl _

    put_at-Le :
        (f : Worker → ℕ → R.Num) (w : Worker) (i : ℕ) (t : R.Num) (v : Worker) (x : ℕ) (m : R.Num)
        → Le R (f v x) m
        → (w ≡ v → Le R t m)
        → Le R (put_at f w i t v x) m
    put_at-Le f w i t v x m h k = elim (Bool-cases (same w v)) [
      | inl y ↦ elim (Bool-cases (i == x)) [
        | inl z ↦ rw (y, z) (k (same_eq w v y))
        | inr z ↦ rw (y, z) h
      ]
      | inr n ↦ rw n h
    ]

    mimic_task-Timed :
        (p : Pool R) (w : Worker) (op : OperatorTag) (cnt i : ℕ)
        → Timed p
        → Timed (mimic_task om p w op cnt i)
    unfolding Timed mimic_task
    mimic_task-Timed p w op cnt i h v x =
        put_at-Le p.complete_time_ms w i (end_time om p w op cnt i) v x _
          (laws.le_trans _ _ _ (h v x) (clock-grows w v p op cnt i))
          (λ e.
            subst (λ u. Le R (end_time om p w op cnt i) (clock om (mimic_task om p w op cnt i) u)) e
              (clock-end w p op cnt i))

    perform-Timed : (p : Pool R) (a : Action) (i : ℕ) → Timed p → Timed (perform om p a i)
    unfolding Timed perform
    perform-Timed p nothing i h = h
    perform-Timed p (compute_cpu op tcb) i h = elim (Bool-cases (tcb.page_blk_cnt == 0)) [
      | inl y ↦ rw y h
      | inr n ↦ rw n h
    ]
    perform-Timed p (compute_dpu op tcb) i h = elim (Bool-cases (tcb.page_cnt == 0)) [
      | inl y ↦ rw y h
      | inr n ↦ rw n h
    ]
    perform-Timed p (transfer op tcb) i h = h
    perform-Timed p (mimic w op cnt) i h = mimic_task-Timed p w op cnt i h

    take_task-Timed :
        (s : System R) (w : Worker) (q : List Task) → Timed s.pool → Timed (take_task om s w q).pool
    unfolding take_task Timed
    take_task-Timed s w [] h = h
    take_task-Timed s w (t ∷ q) h = h

    wake-Timed : (s : System R) (w : Worker) (t : Task) → Timed s.pool → Timed (wake om s w t).pool
    unfolding wake Timed
    wake-Timed s w t h = h

    advance-Timed :
        (s : System R) (w : Worker) (c : Pc) → Timed s.pool → Timed (advance om s w c).pool
    unfolding advance unlock complete Timed
    advance-Timed s w fetch h = take_task-Timed s w (s.pool.queue w) h
    advance-Timed s w (waiting t) h =
        wait-elim om (λ x. Timed x.pool) s w t (λ a bs. h) (wake-Timed s w t h)
    advance-Timed s w (ready t) h = subst Timed (sym (lock-pool om s w t)) h
    advance-Timed s w (holding t) h = perform-Timed s.pool t.execute t.id h
    advance-Timed s w (ran t) h = h
    advance-Timed s w (closing t) h = h

    run-Timed : (ws : List Worker) (s : System R) → Timed s.pool → Timed (run om s ws).pool
    unfolding run step
    run-Timed [] s h = h
    run-Timed (w ∷ ws) s h = run-Timed ws (step om s w) (advance-Timed s w (s.pc w) h)

    clock-makespan : (p : Pool R) (v : Worker) → Le R (clock om p v) (makespan p)
    clock-makespan p cpu_thread = max_num-left laws p.cpu_mimic_time_ms p.dpu_mimic_time_ms
    clock-makespan p dpu_thread = max_num-right laws p.cpu_mimic_time_ms p.dpu_mimic_time_ms
    clock-makespan p map_thread = max_num-right laws p.cpu_mimic_time_ms p.dpu_mimic_time_ms
    clock-makespan p reduce_thread = max_num-right laws p.cpu_mimic_time_ms p.dpu_mimic_time_ms

    module _ (heap : ℕ) (g : TaskGraph R) (sched : Schedule R) (e : ExecType)
        (wakeups : List Bool) where
      clock_at_start : (v : Worker) → Le R R.zero (clock om (start R heap g sched e wakeups).pool v)
      clock_at_start cpu_thread =
          subst (λ c. Le R R.zero c) (sym (start-clean heap g sched e wakeups).4)
            (laws.lt_irrefl R.zero)
      clock_at_start dpu_thread =
          subst (λ c. Le R R.zero c) (sym (start-clean heap g sched e wakeups).5)
            (laws.lt_irrefl R.zero)
      clock_at_start map_thread =
          subst (λ c. Le R R.zero c) (sym (start-clean heap g sched e wakeups).5)
            (laws.lt_irrefl R.zero)
      clock_at_start reduce_thread =
          subst (λ c. Le R R.zero c) (sym (start-clean heap g sched e wakeups).5)
            (laws.lt_irrefl R.zero)

      start-Timed : Timed (start R heap g sched e wakeups).pool
      unfolding Timed
      start-Timed v x =
          subst
            (λ (f : Worker → ℕ → R.Num).
              Le R (f v x) (clock om (start R heap g sched e wakeups).pool v))
            (sym (start-clean heap g sched e wakeups).2) (clock_at_start v)

      -- If no predicted time is negative: after any interleaving of the threads, the makespan is not
      -- before the completion time of any task on any thread.
      pub makespan-complete_time :
          (ws : List Worker) (v : Worker) (x : ℕ)
          → let p = (run om (start R heap g sched e wakeups) ws).pool in
            Le R (p.complete_time_ms v x) (makespan p)
      unfolding Timed
      makespan-complete_time ws v x =
          let s = start R heap g sched e wakeups in
          laws.le_trans _ _ _ (run-Timed ws s start-Timed v x) (clock-makespan (run om s ws).pool v)
