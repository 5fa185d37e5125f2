-- ===== src/Executor/Parse/Laws.antt =====
-- What `parseGraph` leaves for the threads: the queues, the dependencies and the cleared state.
use meta_pb.Common.{
  ap, Bool, true, ℕ, suc, ◌≡◌, refl, List, [], ◌∷◌, ◌++◌, arith, false, ◌==◌, subst, ==_iff,
  ==_refl, In, inl, inr, Distinct, ◌∙◌, sym, Bool-cases,
}
use Prim.Native.String.{String}
use mathlib.Core.Bool.{false≢true}
use mathlib.Core.List.{map-append, append_assoc, append-nil}
use meta_pb.Common.Real.{Real}
use meta_pb.Executor.Graph.{TaskGraph, Schedule, predecessors}
use meta_pb.Executor.Pool.{Worker, cpu_thread, dpu_thread, map_thread, reduce_thread, Pool}
use meta_pb.Executor.Run.Inv.{ids, finished_ids, done, Inv}
use meta_pb.Executor.Parse.{
  ExecType, clean_status, tasks_of, parse_task, parse_from, parse_graph, start,
}

module _ {R : Real} (heap : ℕ) (g : TaskGraph R) (sched : Schedule R) (e : ExecType) where
  tasks_of-id : (i task_id : ℕ) (w : Worker) → (tasks_of R heap g sched e i task_id w).id ≡ task_id
  unfolding tasks_of
  tasks_of-id i task_id cpu_thread = ground arith
  tasks_of-id i task_id dpu_thread = ground arith
  tasks_of-id i task_id map_thread = refl
  tasks_of-id i task_id reduce_thread = refl

  parse_from-queue :
      (p : Pool R) (i : ℕ) (order : List ℕ) (w : Worker)
      → ids ((parse_from R heap g sched e p i order).queue w) ≡ ids (p.queue w) ++ order
  unfolding parse_from parse_task
  parse_from-queue p i [] w = sym (append-nil (ids (p.queue w)))
  parse_from-queue p i (t ∷ order) w =
      parse_from-queue (parse_task R heap g sched e p i t) (suc i) order w ∙ here
    where
      here :
          ids (p.queue w ++ tasks_of R heap g sched e i t w ∷ []) ++ order
          ≡ ids (p.queue w) ++ (t ∷ order)
      here = rw (map-append, tasks_of-id i t w) (append_assoc (ids (p.queue w)) (t ∷ []) order)

  -- After parsing, the queue of each of the four threads holds the tasks of the schedule in its order.
  pub parse_graph-queue : (w : Worker) → ids ((parse_graph R heap g sched e).queue w) ≡ sched.order
  unfolding parse_graph clean_status
  parse_graph-queue w = parse_from-queue (clean_status R) 0 sched.order w

  parse_from-other :
      (p : Pool R) (i : ℕ) (order : List ℕ) (v : ℕ)
      → ¬ In v order
      → (parse_from R heap g sched e p i order).dependencies v ≡ p.dependencies v
  unfolding parse_from parse_task
  parse_from-other p i [] v h = refl
  parse_from-other p i (t ∷ order) v h =
      parse_from-other (parse_task R heap g sched e p i t) (suc i) order v (λ m. h (inr m))
      ∙ rw (other t v (λ k. h (inl k)))
    where
      other : (a b : ℕ) → ¬ (b ≡ a) → (a == b) ≡ false
      other a b n = ground arith

  parse_from-dependencies :
      (p : Pool R) (i : ℕ) (order : List ℕ) (v : ℕ)
      → Distinct order
      → In v order
      → (parse_from R heap g sched e p i order).dependencies v
        ≡ p.dependencies v ++ predecessors R g v
  unfolding parse_from parse_task
  parse_from-dependencies p i [] v d m = absurd m
  parse_from-dependencies p i (t ∷ order) v d (inl k) =
      parse_from-other (parse_task R heap g sched e p i t) (suc i) order v (rw k d.0)
      ∙ rw (k, ==_refl t)
  parse_from-dependencies p i (t ∷ order) v d (inr m) =
      parse_from-dependencies (parse_task R heap g sched e p i t) (suc i) order v d.1 m
      ∙ rw (apart t v order d.0 m)
    where
      apart : (a b : ℕ) (l : List ℕ) → ¬ In a l → In b l → (a == b) ≡ false
      apart a b l n m' = elim (Bool-cases (a == b)) [
        | inl y ↦ absurd (n (rw ((==_iff a b).0 y) m'))
        | inr o ↦ o
      ]

  -- After parsing a schedule that names each task once, the dependencies of a task of the schedule are
  -- its predecessors in the graph, one for each edge.
  pub parse_graph-dependencies :
      (v : ℕ)
      → Distinct sched.order
      → In v sched.order
      → (parse_graph R heap g sched e).dependencies v ≡ predecessors R g v
  unfolding parse_graph clean_status
  parse_graph-dependencies v d m = parse_from-dependencies (clean_status R) 0 sched.order v d m

  -- No round touches the completions, the timings or the clocks.
  parse_from-clean :
      (p : Pool R) (i : ℕ) (order : List ℕ)
      → let q = parse_from R heap g sched e p i order in
        (q.is_completed ≡ p.is_completed)
        × (q.timings ≡ p.timings)
        × (q.complete_time_ms ≡ p.complete_time_ms)
        × (q.last_waker_time_ms ≡ p.last_waker_time_ms)
        × (q.cpu_mimic_time_ms ≡ p.cpu_mimic_time_ms)
        × (q.dpu_mimic_time_ms ≡ p.dpu_mimic_time_ms)
  unfolding parse_from parse_task
  parse_from-clean p i [] = (refl, refl, refl, refl, refl, refl)
  parse_from-clean p i (t ∷ order) =
      parse_from-clean (parse_task R heap g sched e p i t) (suc i) order

  pub start-clean :
      (wakeups : List Bool)
      → let q = (start R heap g sched e wakeups).pool in
        (q.is_completed ≡ (λ _ _. false))
        × (q.timings ≡ (λ _. []))
        × (q.complete_time_ms ≡ (λ _ _. R.zero))
        × (q.last_waker_time_ms ≡ (λ _ _. R.zero))
        × (q.cpu_mimic_time_ms ≡ R.zero)
        × (q.dpu_mimic_time_ms ≡ R.zero)
  unfolding start clean_status
  start-clean wakeups = parse_from-clean (clean_status R) 0 sched.order

  nothing_done :
      (wakeups : List Bool) (w : Worker) (x : ℕ) → ¬ In x (done (start R heap g sched e wakeups) w)
  nothing_done wakeups w x m =
      subst (λ (f : Worker → List (ℕ × String)). ¬ In x (finished_ids (f w)))
        (sym (start-clean wakeups).1) (λ never. never) m

  none_completed :
      (wakeups : List Bool) (w : Worker) (x : ℕ)
      → ¬ ((start R heap g sched e wakeups).pool.is_completed w x ≡ true)
  none_completed wakeups w x h =
      false≢true (sym (ap (λ (f : Worker → ℕ → Bool). f w x) (start-clean wakeups).0) ∙ h)

  -- The threads start in a state that keeps the invariant.
  pub start-Inv : (wakeups : List Bool) → Inv sched.order (start R heap g sched e wakeups)
  unfolding start
  start-Inv wakeups = record {
    split = λ w. rw (start-clean wakeups).1 (parse_graph-queue w);
    marked = λ w x m. absurd (nothing_done wakeups w x m);
    known = λ w x h. absurd (none_completed wakeups w x h);
    wakers = λ w x h. absurd (none_completed wakeups w x h);
    passed = λ w. tt;
    owner = λ w h. cc;
    held = λ w h. cc;
  }
