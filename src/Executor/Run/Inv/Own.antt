-- ===== src/Executor/Run/Inv/Own.antt =====
-- A thread's own step, and the part of the invariant that is about its tasks.
use meta_pb.Common.{
  ℕ, ◌≡◌, refl, List, [], ◌∷◌, ◌++◌, true, arith, Bool-cases, ◌⊎◌, inl, inr, ap, ◌∙◌, In,
  In-append_cases, In-append_left, In-append_right, subst, ◌==◌,
}
use mathlib.Core.List.{map-append, append_assoc}
use meta_pb.Common.Real.{Real}
use meta_pb.Executor.Perf.{PerfModel}
use meta_pb.Executor.Pool.{Worker, Pool, Task}
use meta_pb.Executor.Run.{
  Pc, fetch, waiting, ready, holding, ran, closing, System, perform, take_task, wake, lock,
  complete, advance, step,
}
use meta_pb.Executor.Run.Frame.{same_refl, perform-Kept, lock-pool, wait-elim}
use meta_pb.Executor.Run.Inv.{ids, at_hand, finished_ids, done, todo}

record Keeps {R : Real} (p q : Pool R) : Type 0 where
  is_completed : q.is_completed ≡ p.is_completed
  queue : q.queue ≡ p.queue
  timings : q.timings ≡ p.timings

module _ {R : Real} (om : PerfModel R) where
  -- One thread's own part of its own step.
  pub record Own (w : Worker) (s t : System R) : Type 0 where
    pub split : done t w ++ todo t w ≡ done s w ++ todo s w
    pub marked :
        ((x : ℕ) → In x (done s w) → s.pool.is_completed w x ≡ true)
        → (x : ℕ) → In x (done t w)
        → t.pool.is_completed w x ≡ true
    pub known :
        ((x : ℕ) → s.pool.is_completed w x ≡ true → In x (done s w))
        → (x : ℕ) → t.pool.is_completed w x ≡ true
        → In x (done t w)

  take_task-Own :
      (s : System R) (w : Worker) (q : List Task)
      → s.pc w ≡ fetch
      → s.pool.queue w ≡ q
      → Own w s (take_task om s w q)
  unfolding take_task
  take_task-Own s w [] e h = record { split = refl; marked = λ k. k; known = λ k. k }
  take_task-Own s w (t ∷ q) e h = record {
    split = ground (arith, same_refl w);
    marked = λ k. k;
    known = λ k. k;
  }

  pool-Kept : (p q : Pool R) → q ≡ p → Keeps p q
  pool-Kept p q e = record {
    is_completed = ap (λ (r : Pool R). r.is_completed) e;
    queue = ap (λ (r : Pool R). r.queue) e;
    timings = ap (λ (r : Pool R). r.timings) e;
  }

  wake-Kept : (s : System R) (w : Worker) (t : Task) → Keeps s.pool (wake om s w t).pool
  unfolding wake
  wake-Kept s w t = record { is_completed = refl; queue = refl; timings = refl }

  perform-Keeps : (p : Pool R) (t : Task) → Keeps p (perform om p t.execute t.id)
  perform-Keeps p t =
      let k = perform-Kept om p t.execute t.id in
      record { is_completed = k.is_completed; queue = k.queue; timings = k.timings }

  -- A step that keeps a thread's queue, timings and completions, and what it has at hand.
  stay-Own :
      (s t : System R) (w : Worker)
      → at_hand (t.pc w) ≡ at_hand (s.pc w)
      → Keeps s.pool t.pool
      → Own w s t
  stay-Own s t w e k = record {
    split = ground (arith, k);
    marked = λ m x i. ground (arith, k, m x);
    known = λ m x i. ground (arith, k, m x);
  }

  lock-at_hand :
      (s : System R) (w : Worker) (t : Task)
      → s.pc w ≡ ready t
      → at_hand ((lock om s w t).pc w) ≡ at_hand (s.pc w)
  unfolding lock
  lock-at_hand s w t e = ground (arith, same_refl w)

  wake-at_hand :
      (s : System R) (w : Worker) (t : Task)
      → s.pc w ≡ waiting t
      → at_hand ((wake om s w t).pc w) ≡ at_hand (s.pc w)
  unfolding wake
  wake-at_hand s w t e = ground (arith, same_refl w)

  closing-known :
      (s : System R) (w : Worker) (t : Task)
      → ((x : ℕ) → s.pool.is_completed w x ≡ true → In x (done s w))
      → (x : ℕ) → (complete om s.pool w t).is_completed w x ≡ true
      → In x (finished_ids ((complete om s.pool w t).timings w))
  unfolding complete
  closing-known s w t k x h =
      rw (same_refl w, map-append)
        (elim (Bool-cases (t.id == x)) [
          | inl hit ↦ In-append_right x (done s w) _ (inl (ground arith))
          | inr other ↦ In-append_left x (done s w) _ (k x (ground (arith, same_refl w)))
        ])

  closing-marked :
      (s : System R) (w : Worker) (t : Task)
      → ((x : ℕ) → In x (done s w) → s.pool.is_completed w x ≡ true)
      → (x : ℕ) → In x (finished_ids ((complete om s.pool w t).timings w))
      → (complete om s.pool w t).is_completed w x ≡ true
  unfolding complete
  closing-marked s w t k x h = go (
      In-append_cases x (done s w) (t.id ∷ [])
        (subst (In x) (ap finished_ids timings_here ∙ map-append _ _ _) h))
    where
      timings_here : (complete om s.pool w t).timings w ≡ s.pool.timings w ++ (t.id, t.op_type) ∷ []
      timings_here = ground (arith, same_refl w)

      go : In x (done s w) ⊎ In x (t.id ∷ []) → (complete om s.pool w t).is_completed w x ≡ true
      go (inl old) = ground (arith, same_refl w, k x old)
      go (inr (inl new)) = ground (arith, same_refl w)
      go (inr (inr never)) = absurd never

  fetch-cases :
      (s : System R) (w : Worker) → s.pc w ≡ fetch → Own w s (take_task om s w (s.pool.queue w))
  fetch-cases s w e = take_task-Own s w (s.pool.queue w) e refl

  advance-Own : (s : System R) (w : Worker) (c : Pc) → s.pc w ≡ c → Own w s (advance om s w c)
  unfolding advance
  advance-Own s w fetch e = fetch-cases s w e
  advance-Own s w (waiting t) e =
      wait-elim om (Own w s) s w t (λ a bs. stay-Own s _ w refl (pool-Kept s.pool s.pool refl))
        (stay-Own s _ w (wake-at_hand s w t e) (wake-Kept s w t))
  advance-Own s w (ready t) e =
      stay-Own s _ w (lock-at_hand s w t e) (pool-Kept s.pool _ (lock-pool om s w t))
  advance-Own s w (holding t) e =
      stay-Own s _ w (ground (arith, same_refl w)) (perform-Keeps s.pool t)
  advance-Own s w (ran t) e =
      stay-Own s _ w (ground (arith, same_refl w)) (pool-Kept s.pool s.pool refl)
  advance-Own s w (closing t) e = record {
    split =
        rw (same_refl w, map-append, e)
          (append_assoc (done s w) (t.id ∷ []) (ids (s.pool.queue w)));
    marked = closing-marked s w t;
    known = closing-known s w t;
  }

  -- A step moves a task from one part of the thread's list to the next.
  pub step-Own : (s : System R) (w : Worker) → Own w s (step om s w)
  unfolding step
  step-Own s w = advance-Own s w (s.pc w) refl
