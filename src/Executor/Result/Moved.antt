-- ===== src/Executor/Result/Moved.antt =====
-- The data movement of a run: what parsing adds up and the threads leave as it is.
use meta_pb.Common.{ℕ, suc, ◌≡◌, refl, ap, ◌∙◌, List, [], ◌∷◌, Bool}
use meta_pb.Common.Real.{Real, sum_from}
use meta_pb.Executor.Graph.{TaskGraph, Schedule, task_at}
use meta_pb.Executor.Perf.{PerfModel}
use meta_pb.Executor.Pool.{Worker, Pool, Task}
use meta_pb.Executor.Parse.{
  ExecType, plan_of, xfer_mib, clean_status, parse_task, parse_from, parse_graph, start,
}
use meta_pb.Executor.Run.{
  Pc, fetch, waiting, ready, holding, ran, closing, System, take_task, wake, advance, step, run,
}
use meta_pb.Executor.Run.Frame.{perform-Kept, lock-pool, wait-elim}

module _ {R : Real} (heap : ℕ) (g : TaskGraph R) (sched : Schedule R) where
  -- The MiB that the transfers of each task move, by the task's place in the schedule.
  abbrev pub moved_mib : (i : ℕ) → (order : List ℕ) → List R.Num
  moved_mib i [] = []
  moved_mib i (task_id ∷ order) =
      let plan = plan_of R heap g sched i task_id in
      R.of_ℕ (xfer_mib (task_at R g task_id).op plan.map_tcb plan.reduce_tcb)
      ∷ moved_mib (suc i) order

  parse_from-moved_mib :
      (e : ExecType) (p : Pool R) (i : ℕ) (order : List ℕ)
      → (parse_from R heap g sched e p i order).total_transfer_mb
        ≡ sum_from R p.total_transfer_mb (moved_mib i order)
  unfolding parse_from parse_task
  parse_from-moved_mib e p i [] = refl
  parse_from-moved_mib e p i (task_id ∷ order) =
      parse_from-moved_mib e (parse_task R heap g sched e p i task_id) (suc i) order

  module _ (om : PerfModel R) where
    take_task-total :
        (s : System R) (w : Worker) (q : List Task)
        → (take_task om s w q).pool.total_transfer_mb ≡ s.pool.total_transfer_mb
    unfolding take_task
    take_task-total s w [] = refl
    take_task-total s w (t ∷ q) = refl

    wake-total :
        (s : System R) (w : Worker) (t : Task)
        → (wake om s w t).pool.total_transfer_mb ≡ s.pool.total_transfer_mb
    unfolding wake
    wake-total s w t = refl

    advance-total :
        (s : System R) (w : Worker) (c : Pc)
        → (advance om s w c).pool.total_transfer_mb ≡ s.pool.total_transfer_mb
    unfolding advance
    advance-total s w fetch = take_task-total s w (s.pool.queue w)
    advance-total s w (waiting t) =
        wait-elim om (λ x. x.pool.total_transfer_mb ≡ s.pool.total_transfer_mb) s w t (λ a bs. refl)
          (wake-total s w t)
    advance-total s w (ready t) = ap (λ (p : Pool R). p.total_transfer_mb) (lock-pool om s w t)
    advance-total s w (holding t) = (perform-Kept om s.pool t.execute t.id).total_transfer
    advance-total s w (ran t) = refl
    advance-total s w (closing t) = refl

    run-total :
        (ws : List Worker) (s : System R)
        → (run om s ws).pool.total_transfer_mb ≡ s.pool.total_transfer_mb
    unfolding run step
    run-total [] s = refl
    run-total (w ∷ ws) s = run-total ws (step om s w) ∙ advance-total s w (s.pc w)

    -- After any interleaving, the total is the sum of what the tasks' transfers move.
    pub run-moved_mib :
        (e : ExecType) (wakeups : List Bool) (ws : List Worker)
        → (run om (start R heap g sched e wakeups) ws).pool.total_transfer_mb
          ≡ sum_from R R.zero (moved_mib 0 sched.order)
    unfolding start parse_graph clean_status
    run-moved_mib e wakeups ws =
        run-total ws (start R heap g sched e wakeups)
        ∙ parse_from-moved_mib e (clean_status R) 0 sched.order
