-- ===== src/Executor/Workload.antt =====
-- `execWorkload` of src/Executor/HeteroComputePool.cpp as far as its four threads go: the parsed
-- queues under any interleaving.
use meta_pb.Common.{
  ℕ, Bool, ◌*◌, ◌≤◌, ◌≡◌, refl, List, [], ◌∷◌, ◌++◌, arith, true, inl, inr, length, length-map, sym,
  ap, ◌∙◌, In, All, All-at, All-of, In-append_right, Distinct, subst,
}
use mathlib.Core.List.{flatten, append-nil}
use meta_pb.Common.Real.{Real}
use meta_pb.Executor.Graph.{TaskGraph, Schedule, predecessors}
use meta_pb.Executor.Perf.{PerfModel}
use meta_pb.Executor.Pool.{
  Worker, cpu_thread, dpu_thread, map_thread, reduce_thread, same, Task, waker, waits_for,
}
use meta_pb.Executor.Run.{holding, System, run}
use meta_pb.Executor.Run.Frame.{same_refl}
use meta_pb.Executor.Run.Inv.{ids, done, WakersDone, PassedDone, at_hand, Inv}
use meta_pb.Executor.Run.Inv.Keep.{run-Inv}
use meta_pb.Executor.Run.Measure.{steps_of, steps_left, no_steps-todo}
use meta_pb.Executor.Run.Progress.{TopoAfter, IsTopological, TopoAfter-split}
use meta_pb.Executor.Run.Fair.{
  IsRound, AllAlert, rounds_end, run-dependencies, moves, moves-steps_left,
}
use meta_pb.Executor.Parse.{ExecType, start, parse_graph}
use meta_pb.Executor.Parse.Laws.{parse_graph-queue, parse_graph-dependencies, start-Inv}

TopoAfter-cong :
    (deps deps' : ℕ → List ℕ) (seen order : List ℕ)
    → ((v : ℕ) → In v order → deps' v ≡ deps v)
    → TopoAfter deps seen order
    → TopoAfter deps' seen order
TopoAfter-cong deps deps' seen [] e h = tt
TopoAfter-cong deps deps' seen (x ∷ order) e h = (
  rw (e x (inl refl)) h.0,
  TopoAfter-cong deps deps' (seen ++ x ∷ []) order (λ v m. e v (inr m)) h.1,
)

module _ {R : Real} (om : PerfModel R) (heap : ℕ) (g : TaskGraph R) (sched : Schedule R)
    (e : ExecType) (wakeups : List Bool) where
  -- The pool after an interleaving of its threads.
  abbrev pub after : List Worker → System R
  after ws = run om (start R heap g sched e wakeups) ws

  after-Inv : (ws : List Worker) → Inv sched.order (after ws)
  after-Inv ws =
      run-Inv om sched.order (start R heap g sched e wakeups) ws (start-Inv heap g sched e wakeups)

  start-queue :
      (w : Worker) → length ((start R heap g sched e wakeups).pool.queue w) ≡ length sched.order
  unfolding start
  start-queue w =
      sym (length-map (λ (t : Task). t.id) ((parse_graph R heap g sched e).queue w))
      ∙ ap length (parse_graph-queue heap g sched e w)

  start-steps_left : steps_left (start R heap g sched e wakeups) ≡ 24 * length sched.order
  unfolding start
  start-steps_left = omega (
    arith,
    start-queue cpu_thread,
    start-queue dpu_thread,
    start-queue map_thread,
    start-queue reduce_thread,
  )

  start-AllAlert : AllAlert om (start R heap g sched e wakeups)
  unfolding start
  start-AllAlert w = refl

  -- Over any schedule and any interleaving, the threads make at most 24 steps for each task that
  -- move them on: six for each of the four parts of a task. All others are waits.
  pub work_bounded :
      (ws : List Worker) → moves om (start R heap g sched e wakeups) ws ≤ 24 * length sched.order
  work_bounded ws = omega (
    arith,
    moves-steps_left om (start R heap g sched e wakeups) ws start-AllAlert,
    start-steps_left,
  )

  -- Over any interleaving, two threads whose tasks are marked as DPU-related are never both at the
  -- execution of a task.
  pub dpu_exclusive :
      (ws : List Worker) (v w : Worker) (a b : Task)
      → (after ws).pc v ≡ holding a
      → a.is_dpu_related ≡ true
      → (after ws).pc w ≡ holding b
      → b.is_dpu_related ≡ true
      → same v w ≡ true
  dpu_exclusive ws v w a b ea ra eb rb =
      let inv = after-Inv ws in ground (arith, inv.owner v, inv.owner w, same_refl v)

  passed_holding :
      (s : System R) (w : Worker) (t : Task)
      → Inv sched.order s
      → s.pc w ≡ holding t
      → WakersDone s w t.id
  passed_holding s w t inv h = subst (PassedDone s w) h (inv.passed w)

  -- Over any interleaving, a map task is executed only when the CPU has completed the same task, and
  -- a reduce task only when the DPU has.
  pub xfer_after_compute :
      (ws : List Worker) (t : Task)
      → ((after ws).pc map_thread ≡ holding t → (after ws).pool.is_completed cpu_thread t.id ≡ true)
        × ((after ws).pc reduce_thread ≡ holding t
            → (after ws).pool.is_completed dpu_thread t.id ≡ true)
  xfer_after_compute ws t = (
    λ h. (passed_holding (after ws) map_thread t (after-Inv ws) h).0,
    λ h. (passed_holding (after ws) reduce_thread t (after-Inv ws) h).0,
  )

  module _ (distinct : Distinct sched.order)
      (topo : IsTopological (predecessors R g) sched.order) where
    start-topo : IsTopological (start R heap g sched e wakeups).pool.dependencies sched.order
    unfolding start
    start-topo =
        TopoAfter-cong (predecessors R g) _ [] sched.order
          (λ v m. parse_graph-dependencies heap g sched e v distinct m) topo

    -- What a task at execution stands behind in its thread's order.
    cut_holding :
        (ws : List Worker) (w : Worker) (t : Task)
        → (after ws).pc w ≡ holding t
        → done (after ws) w ++ t.id ∷ ids ((after ws).pool.queue w) ≡ sched.order
    cut_holding ws w t h =
        ap (λ c. done (after ws) w ++ (at_hand c ++ ids ((after ws).pool.queue w))) (sym h)
        ∙ (after-Inv ws).split w

    task-In_order :
        (ws : List Worker) (w : Worker) (t : Task)
        → (after ws).pc w ≡ holding t
        → In t.id sched.order
    task-In_order ws w t h =
        subst (In t.id) (cut_holding ws w t h)
          (In-append_right t.id (done (after ws) w) _ (inl refl))

    after-dependencies :
        (ws : List Worker) (v : ℕ)
        → In v sched.order
        → (after ws).pool.dependencies v ≡ predecessors R g v
    unfolding start parse_graph
    after-dependencies ws v m =
        ap (λ (f : ℕ → List ℕ). f v) (run-dependencies om (start R heap g sched e wakeups) ws)
        ∙ parse_dependencies v m
      where
        parse_dependencies :
            (u : ℕ)
            → In u sched.order
            → (start R heap g sched e wakeups).pool.dependencies u ≡ predecessors R g u
        parse_dependencies u k = parse_graph-dependencies heap g sched e u distinct k

    -- A thread that executes a task has completed the task's predecessors itself.
    own_predecessors :
        (ws : List Worker) (w : Worker) (t : Task) (p : ℕ)
        → (after ws).pc w ≡ holding t
        → In p (predecessors R g t.id)
        → (after ws).pool.is_completed w p ≡ true
    own_predecessors ws w t p h m = (after-Inv ws).marked w p (
        All-at _ _
          (TopoAfter-split (predecessors R g) [] (done (after ws) w) t.id
            (ids ((after ws).pool.queue w))
            (subst (TopoAfter (predecessors R g) []) (sym (cut_holding ws w t h)) topo))
          p m)

    waker-predecessors :
        (ws : List Worker) (w : Worker) (t : Task) (p : ℕ)
        → waits_for (after ws).pool.dependencies w t.id ≡ (after ws).pool.dependencies t.id
        → (after ws).pc w ≡ holding t
        → In p (predecessors R g t.id)
        → (after ws).pool.is_completed (waker w) p ≡ true
    waker-predecessors ws w t p k h m =
        All-at _ _ (passed_holding (after ws) w t (after-Inv ws) h) p
          (rw (k, after-dependencies ws t.id (task-In_order ws w t h)) m)

    -- For a schedule whose order names each task once and after its predecessors: over any
    -- interleaving, when the CPU or the DPU thread is at the execution of a task, both the CPU and
    -- the DPU have completed each predecessor of the task, and its result has been moved to where the
    -- thread reads it (reduced for the CPU, mapped for the DPU).
    pub inputs_ready :
        (ws : List Worker) (t : Task) (p : ℕ)
        → In p (predecessors R g t.id)
        → let q = (after ws).pool in
          ((after ws).pc cpu_thread ≡ holding t
            → (q.is_completed cpu_thread p ≡ true)
              × (q.is_completed dpu_thread p ≡ true)
              × (q.is_completed reduce_thread p ≡ true))
          × ((after ws).pc dpu_thread ≡ holding t
              → (q.is_completed cpu_thread p ≡ true)
                × (q.is_completed dpu_thread p ≡ true)
                × (q.is_completed map_thread p ≡ true))
    inputs_ready ws t p m = (
      λ h.
          let reduced = waker-predecessors ws cpu_thread t p refl h m in
          (
            own_predecessors ws cpu_thread t p h m,
            ((after-Inv ws).wakers reduce_thread p reduced).0,
            reduced,
          ),
      λ h.
          let mapped = waker-predecessors ws dpu_thread t p refl h m in
          (
            ((after-Inv ws).wakers map_thread p mapped).0,
            own_predecessors ws dpu_thread t p h m,
            mapped,
          ),
    )

    ended_done :
        (s : System R) (w : Worker) → Inv sched.order s → steps_of s w ≡ 0 → done s w ≡ sched.order
    ended_done s w inv z =
        sym (append-nil (done s w)) ∙ ap (◌++◌ (done s w)) (sym (no_steps-todo s w z)) ∙ inv.split w

    all_ended : (s : System R) (w : Worker) → steps_left s ≡ 0 → steps_of s w ≡ 0
    all_ended s cpu_thread h = omega arith
    all_ended s dpu_thread h = omega arith
    all_ended s map_thread h = omega arith
    all_ended s reduce_thread h = omega arith

    -- For such a schedule no interleaving deadlocks, where a sleeping thread is woken by `notify_all` or by
    -- one of the given spurious wake-ups, if there are any, and by nothing else: after as many rounds as there are steps of work
    -- (24 for each task), each letting every thread step at least once and in any order, every thread
    -- has run every task of the schedule once, in the schedule's order, and all are marked as complete.
    pub fair_run_completes :
        (rounds : List (List Worker))
        → All IsRound rounds
        → 24 * length sched.order ≤ length rounds
        → (w : Worker)
        → (done (after (flatten rounds)) w ≡ sched.order)
          × All (λ x. (after (flatten rounds)).pool.is_completed w x ≡ true) sched.order
    fair_run_completes rounds fair enough w =
        let inv = after-Inv (flatten rounds) in
        let no_step =
          rounds_end om sched.order (start R heap g sched e wakeups) rounds
            (start-Inv heap g sched e wakeups) start-AllAlert start-topo fair
            (omega (arith, start-steps_left)) in
        let all_done =
          ended_done (after (flatten rounds)) w inv
            (all_ended (after (flatten rounds)) w no_step) in
        (all_done, All-of _ sched.order (λ x m. inv.marked w x (subst (In x) (sym all_done) m)))
