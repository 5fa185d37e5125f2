-- ===== src/Executor/Run/Frame.antt =====
-- What a step of one thread means for the state of another, and for the dependencies.
use meta_pb.Common.{
  ℕ, ◌≡◌, refl, List, Bool, true, false, arith, Bool-cases, ◌⊎◌, inl, inr, ◌==◌, [], ◌∷◌, ap, ◌∙◌,
}
use meta_pb.Common.Real.{Real}
use meta_pb.Executor.Perf.{PerfModel}
use meta_pb.Executor.Pool.{
  Worker, cpu_thread, dpu_thread, map_thread, reduce_thread, same, Action, nothing, compute_cpu,
  compute_dpu, transfer, mimic, Pool, Task,
}
use meta_pb.Executor.Run.{
  Pc, fetch, waiting, ready, holding, ran, closing, System, perform, take_task, wake, doze, wait,
  lock, advance, step,
}

pub same_refl : (w : Worker) → same w w ≡ true
same_refl cpu_thread = refl
same_refl dpu_thread = refl
same_refl map_thread = refl
same_refl reduce_thread = refl

pub same_eq : (w v : Worker) → same w v ≡ true → w ≡ v
same_eq w v h = ground arith

-- The fields of the pool that a task does not write.
pub record Kept {R : Real} (p q : Pool R) : Type 0 where
  pub dependencies : q.dependencies ≡ p.dependencies
  pub is_completed : q.is_completed ≡ p.is_completed
  pub queue : q.queue ≡ p.queue
  pub timings : q.timings ≡ p.timings
  pub last_waker : q.last_waker_time_ms ≡ p.last_waker_time_ms
  pub total_transfer : q.total_transfer_mb ≡ p.total_transfer_mb

module _ {R : Real} (om : PerfModel R) where
  pub perform-Kept : (p : Pool R) (a : Action) (i : ℕ) → Kept p (perform om p a i)
  unfolding perform
  perform-Kept p nothing i = ground arith
  perform-Kept p (compute_cpu op tcb) i = ground arith
  perform-Kept p (compute_dpu op tcb) i = ground arith
  perform-Kept p (transfer op tcb) i = ground arith
  perform-Kept p (mimic cpu_thread op cnt) i = ground arith
  perform-Kept p (mimic dpu_thread op cnt) i = ground arith
  perform-Kept p (mimic map_thread op cnt) i = ground arith
  perform-Kept p (mimic reduce_thread op cnt) i = ground arith

  -- What a thread other than the one that steps sees of its own state.
  pub record Apart (v : Worker) (s t : System R) : Type 0 where
    pub pc : t.pc v ≡ s.pc v
    pub queue : t.pool.queue v ≡ s.pool.queue v
    pub timings : t.pool.timings v ≡ s.pool.timings v
    pub completed : (x : ℕ) → t.pool.is_completed v x ≡ s.pool.is_completed v x

  take_task-Apart :
      (s : System R) (w v : Worker) (q : List Task)
      → same w v ≡ false
      → Apart v s (take_task om s w q)
  unfolding take_task
  take_task-Apart s w v [] h = record {
    pc = refl;
    queue = refl;
    timings = refl;
    completed = λ x. refl;
  }
  take_task-Apart s w v (t ∷ q) h = record {
    pc = ground arith;
    queue = ground arith;
    timings = refl;
    completed = λ x. refl;
  }

  doze-elim :
      (P : System R → Type 0) (s : System R) (w : Worker) (bs : List Bool)
      → ((a : Worker → Bool) (bs' : List Bool) → P (record s { asleep = a; wakeups = bs' }))
      → P (doze om s w bs)
  unfolding doze
  doze-elim P s w [] h = h s.asleep s.wakeups
  doze-elim P s w (b ∷ bs) h = h _ bs

  -- A step in `cv_.wait` is a test, or changes only who sleeps.
  pub wait-elim :
      (P : System R → Type 0) (s : System R) (w : Worker) (t : Task)
      → ((a : Worker → Bool) (bs : List Bool) → P (record s { asleep = a; wakeups = bs }))
      → P (wake om s w t)
      → P (wait om s w t)
  unfolding wait
  wait-elim P s w t h k = elim (Bool-cases (s.asleep w)) [
    | inl y ↦ rw y (doze-elim P s w s.wakeups h)
    | inr n ↦ rw n k
  ]

  wake-Apart :
      (s : System R) (w v : Worker) (t : Task) → same w v ≡ false → Apart v s (wake om s w t)
  unfolding wake
  wake-Apart s w v t h = record {
    pc = ground arith;
    queue = refl;
    timings = refl;
    completed = λ x. refl;
  }

  wake-pool :
      (s : System R) (w : Worker) (t : Task)
      → ((wake om s w t).pool.dependencies ≡ s.pool.dependencies)
        × ((wake om s w t).pool.is_completed ≡ s.pool.is_completed)
  unfolding wake
  wake-pool s w t = (refl, refl)

  lock-pc :
      (s : System R) (w v : Worker) (t : Task) → same w v ≡ false → (lock om s w t).pc v ≡ s.pc v
  unfolding lock
  lock-pc s w v t h = ground arith

  pub lock-pool : (s : System R) (w : Worker) (t : Task) → (lock om s w t).pool ≡ s.pool
  unfolding lock
  lock-pool s w t = ground arith

  advance-Apart :
      (s : System R) (w v : Worker) (c : Pc) → same w v ≡ false → Apart v s (advance om s w c)
  unfolding advance
  advance-Apart s w v fetch h = take_task-Apart s w v (s.pool.queue w) h
  advance-Apart s w v (waiting t) h =
      wait-elim (Apart v s) s w t
        (λ a bs. record { pc = refl; queue = refl; timings = refl; completed = λ x. refl })
        (wake-Apart s w v t h)
  advance-Apart s w v (ready t) h = record {
    pc = lock-pc s w v t h;
    queue = ap (λ (p : Pool R). p.queue v) (lock-pool s w t);
    timings = ap (λ (p : Pool R). p.timings v) (lock-pool s w t);
    completed = λ x. ap (λ (p : Pool R). p.is_completed v x) (lock-pool s w t);
  }
  advance-Apart s w v (holding t) h = record {
    pc = ground arith;
    queue = ground (arith, perform-Kept s.pool t.execute t.id);
    timings = ground (arith, perform-Kept s.pool t.execute t.id);
    completed = λ x. ground (arith, perform-Kept s.pool t.execute t.id);
  }
  advance-Apart s w v (ran t) h = record {
    pc = ground arith;
    queue = refl;
    timings = refl;
    completed = λ x. refl;
  }
  advance-Apart s w v (closing t) h = record {
    pc = ground arith;
    queue = refl;
    timings = ground arith;
    completed = λ x. ground arith;
  }

  pub step-Apart : (s : System R) (w v : Worker) → same w v ≡ false → Apart v s (step om s w)
  unfolding step
  step-Apart s w v h = advance-Apart s w v (s.pc w) h

  take_task-pool :
      (s : System R) (w : Worker) (q : List Task)
      → ((take_task om s w q).pool.dependencies ≡ s.pool.dependencies)
        × ((take_task om s w q).pool.is_completed ≡ s.pool.is_completed)
  unfolding take_task
  take_task-pool s w [] = (refl, refl)
  take_task-pool s w (t ∷ q) = (refl, refl)

  advance-dependencies :
      (s : System R) (w : Worker) (c : Pc)
      → (advance om s w c).pool.dependencies ≡ s.pool.dependencies
  unfolding advance
  advance-dependencies s w fetch = (take_task-pool s w (s.pool.queue w)).0
  advance-dependencies s w (waiting t) =
      wait-elim (λ x. x.pool.dependencies ≡ s.pool.dependencies) s w t (λ a bs. refl)
        (wake-pool s w t).0
  advance-dependencies s w (ready t) = ap (λ (p : Pool R). p.dependencies) (lock-pool s w t)
  advance-dependencies s w (holding t) = (perform-Kept s.pool t.execute t.id).dependencies
  advance-dependencies s w (ran t) = refl
  advance-dependencies s w (closing t) = refl

  pub step-dependencies :
      (s : System R) (w : Worker) → (step om s w).pool.dependencies ≡ s.pool.dependencies
  unfolding step
  step-dependencies s w = advance-dependencies s w (s.pc w)

  -- Only the end of a task completes something: that task, for the thread that ran it.
  pub advance_completed :
      (s : System R) (w v : Worker) (c : Pc) (x : ℕ)
      → ((advance om s w c).pool.is_completed v x ≡ s.pool.is_completed v x)
        ⊎ ((t : Task) × (c ≡ closing t)
            × (w ≡ v)
            × (t.id ≡ x)
            × ((advance om s w c).pool.is_completed v x ≡ true))
  unfolding advance
  advance_completed s w v fetch x =
      inl (ap (λ (f : Worker → ℕ → Bool). f v x) (take_task-pool s w (s.pool.queue w)).1)
  advance_completed s w v (waiting t) x = inl (
      ap (λ (f : Worker → ℕ → Bool). f v x)
        (wait-elim (λ x. x.pool.is_completed ≡ s.pool.is_completed) s w t (λ a bs. refl)
          (wake-pool s w t).1))
  advance_completed s w v (ready t) x =
      inl (ap (λ (p : Pool R). p.is_completed v x) (lock-pool s w t))
  advance_completed s w v (holding t) x =
      inl (ap (λ (f : Worker → ℕ → Bool). f v x) (perform-Kept s.pool t.execute t.id).is_completed)
  advance_completed s w v (ran t) x = inl refl
  advance_completed s w v (closing t) x = elim (Bool-cases (same w v)) [
    | inr apart ↦ inl (ground arith)
    | inl own ↦ elim (Bool-cases (t.id == x)) [
      | inr other ↦ inl (ground arith)
      | inl hit ↦ inr (t, refl, same_eq w v own, ground arith, ground arith)
    ]
  ]

  pub step-keeps_completed :
      (s : System R) (w v : Worker) (x : ℕ)
      → s.pool.is_completed v x ≡ true
      → (step om s w).pool.is_completed v x ≡ true
  unfolding step
  step-keeps_completed s w v x h = elim (advance_completed s w v (s.pc w) x) [
    | inl e ↦ e ∙ h
    | inr (_, _, _, _, e) ↦ e
  ]
