-- ===== src/Executor/Run/Sleep.antt =====
-- Sleeping threads: whoever sleeps in `cv_.wait` waits for a task that is not complete, since the end of
-- every task wakes all of them.
use meta_pb.Common.{
  ℕ, ◌≡◌, refl, sym, ap, ◌∙◌, List, [], ◌∷◌, Bool, true, false, not, arith, Bool-cases, ◌⊎◌, inl,
  inr, subst, All-of, All-at,
}
use mathlib.Core.Bool.{false≢true}
use meta_pb.Common.Real.{Real}
use meta_pb.Executor.Perf.{PerfModel}
use meta_pb.Executor.Pool.{
  Worker, same, put, Task, waker, waits_for, dependency_check, all_dependencies_met,
}
use meta_pb.Executor.Run.{
  Pc, fetch, waiting, ready, holding, ran, closing, System, take_task, wake, doze, wait, lock,
  advance, step,
}
use meta_pb.Executor.Run.Frame.{same_refl, same_eq, perform-Kept, lock-pool, step-Apart}
use meta_pb.Executor.Run.Inv.{WakersDone, met_iff}

-- A thread is awake, unless it waits for what is not complete.
abbrev pub Alert : {R : Real} → System R → Worker → Pc → Type 0
Alert s w (waiting t) = WakersDone s w t.id → s.asleep w ≡ false
Alert s w _ = s.asleep w ≡ false

awake-Alert : {R : Real} (s : System R) (w : Worker) (c : Pc) → s.asleep w ≡ false → Alert s w c
awake-Alert s w fetch h = h
awake-Alert s w (waiting t) h = λ _. h
awake-Alert s w (ready t) h = h
awake-Alert s w (holding t) h = h
awake-Alert s w (ran t) h = h
awake-Alert s w (closing t) h = h

module _ {R : Real} (om : PerfModel R) where
  -- What a step leaves to a thread that may sleep.
  record Calm (w : Worker) (s x : System R) : Type 0 where
    completed : (v : Worker) (i : ℕ) → x.pool.is_completed v i ≡ s.pool.is_completed v i
    dependencies : x.pool.dependencies ≡ s.pool.dependencies
    asleep : x.asleep w ≡ s.asleep w

  Calm-WakersDone :
      (w : Worker) (s x : System R) (i : ℕ) → Calm w s x → WakersDone x w i → WakersDone s w i
  Calm-WakersDone w s x i k h =
      All-of _ _ (λ d m. sym (k.completed (waker w) d) ∙ All-at _ _ (rw k.dependencies at h) d m)

  Calm-Alert : (w : Worker) (s x : System R) (c : Pc) → Calm w s x → Alert s w c → Alert x w c
  Calm-Alert w s x fetch k h = k.asleep ∙ h
  Calm-Alert w s x (waiting t) k h = λ m. k.asleep ∙ h (Calm-WakersDone w s x t.id k m)
  Calm-Alert w s x (ready t) k h = k.asleep ∙ h
  Calm-Alert w s x (holding t) k h = k.asleep ∙ h
  Calm-Alert w s x (ran t) k h = k.asleep ∙ h
  Calm-Alert w s x (closing t) k h = k.asleep ∙ h

  take_task-Calm : (s : System R) (u w : Worker) (q : List Task) → Calm w s (take_task om s u q)
  unfolding take_task
  take_task-Calm s u w [] = record { completed = λ v i. refl; dependencies = refl; asleep = refl }
  take_task-Calm s u w (t ∷ q) = record {
    completed = λ v i. refl;
    dependencies = refl;
    asleep = refl;
  }

  lock-asleep : (s : System R) (u : Worker) (t : Task) → (lock om s u t).asleep ≡ s.asleep
  unfolding lock
  lock-asleep s u t = ground arith

  lock-Calm : (s : System R) (u w : Worker) (t : Task) → Calm w s (lock om s u t)
  lock-Calm s u w t = record {
    completed = λ v i. rw (lock-pool om s u t) refl;
    dependencies = rw (lock-pool om s u t) refl;
    asleep = rw (lock-asleep s u t) refl;
  }

  put_apart : (f : Worker → Bool) (u w : Worker) (b : Bool) → same u w ≡ false → put f u b w ≡ f w
  put_apart f u w b h = ground arith

  doze-Calm :
      (s : System R) (u w : Worker) (bs : List Bool) → same u w ≡ false → Calm w s (doze om s u bs)
  unfolding doze
  doze-Calm s u w [] h = record { completed = λ v i. refl; dependencies = refl; asleep = refl }
  doze-Calm s u w (b ∷ bs) h = record {
    completed = λ v i. refl;
    dependencies = refl;
    asleep = put_apart s.asleep u w (not b) h;
  }

  wake-Calm : (s : System R) (u w : Worker) (t : Task) → same u w ≡ false → Calm w s (wake om s u t)
  unfolding wake
  wake-Calm s u w t h = record {
    completed = λ v i. refl;
    dependencies = refl;
    asleep = put_apart s.asleep u w _ h;
  }

  wait-Calm : (s : System R) (u w : Worker) (t : Task) → same u w ≡ false → Calm w s (wait om s u t)
  unfolding wait
  wait-Calm s u w t h = elim (Bool-cases (s.asleep u)) [
    | inl y ↦ rw y (doze-Calm s u w s.wakeups h)
    | inr n ↦ rw n (wake-Calm s u w t h)
  ]

  -- Another thread's step leaves a sleeper to itself, or wakes it up.
  advance-Calm :
      (s : System R) (u w : Worker) (c : Pc)
      → same u w ≡ false
      → Calm w s (advance om s u c) ⊎ ((advance om s u c).asleep w ≡ false)
  unfolding advance
  advance-Calm s u w fetch h = inl (take_task-Calm s u w (s.pool.queue u))
  advance-Calm s u w (waiting t) h = inl (wait-Calm s u w t h)
  advance-Calm s u w (ready t) h = inl (lock-Calm s u w t)
  advance-Calm s u w (holding t) h =
      let k = perform-Kept om s.pool t.execute t.id in
      inl (record {
        completed = λ v i. ap (λ (f : Worker → ℕ → Bool). f v i) k.is_completed;
        dependencies = k.dependencies;
        asleep = refl;
      })
  advance-Calm s u w (ran t) h =
      inl (record { completed = λ v i. refl; dependencies = refl; asleep = refl })
  advance-Calm s u w (closing t) h = inr refl

  put_own : (f : Worker → Bool) (u : Worker) (b : Bool) → put f u b u ≡ b
  put_own f u b = ground (arith, same_refl u)

  take_task-asleep :
      (s : System R) (u : Worker) (q : List Task) → (take_task om s u q).asleep ≡ s.asleep
  unfolding take_task
  take_task-asleep s u [] = refl
  take_task-asleep s u (t ∷ q) = refl

  doze-Alert :
      (s : System R) (u : Worker) (t : Task) (bs : List Bool)
      → s.pc u ≡ waiting t
      → s.asleep u ≡ true
      → Alert s u (waiting t)
      → Alert (doze om s u bs) u ((doze om s u bs).pc u)
  unfolding doze
  doze-Alert s u t [] e y h = rw e h
  doze-Alert s u t (b ∷ bs) e y h = rw e (λ m. absurd (false≢true (sym (h m) ∙ y)))

  wake-Alert :
      (s : System R) (u : Worker) (t : Task) → Alert (wake om s u t) u ((wake om s u t).pc u)
  unfolding wake dependency_check
  wake-Alert s u t =
      let answer =
        met_iff R (s.pool.is_completed (waker u)) (s.pool.complete_time_ms (waker u))
          (waits_for s.pool.dependencies u t.id) (s.pool.last_waker_time_ms u t.id) in
      elim (Bool-cases
        (all_dependencies_met R (s.pool.is_completed (waker u)) (s.pool.complete_time_ms (waker u))
          (waits_for s.pool.dependencies u t.id) (s.pool.last_waker_time_ms u t.id)).0) [
            | inl yes_met ↦ rw (same_refl u, yes_met) (put_own s.asleep u false)
            | inr not_met ↦
                rw (same_refl u, not_met) (λ m. absurd (false≢true (sym not_met ∙ answer.1 m)))
          ]

  own-Alert :
      (s : System R) (u : Worker) (c : Pc)
      → s.pc u ≡ c
      → Alert s u c
      → Alert (advance om s u c) u ((advance om s u c).pc u)
  unfolding advance
  own-Alert s u fetch e h =
      awake-Alert (take_task om s u (s.pool.queue u)) u _
        (ap (λ (f : Worker → Bool). f u) (take_task-asleep s u (s.pool.queue u)) ∙ h)
  own-Alert s u (waiting t) e h = elim (Bool-cases (s.asleep u)) [
    | inl y ↦ rw y (doze-Alert s u t s.wakeups e y h)
    | inr n ↦ rw n (wake-Alert s u t)
  ]
  own-Alert s u (ready t) e h =
      awake-Alert (lock om s u t) u _ (ap (λ (f : Worker → Bool). f u) (lock-asleep s u t) ∙ h)
  own-Alert s u (holding t) e h = awake-Alert (advance om s u (holding t)) u _ h
  own-Alert s u (ran t) e h = awake-Alert (advance om s u (ran t)) u _ h
  own-Alert s u (closing t) e h = awake-Alert (advance om s u (closing t)) u _ refl

  pub step-Alert :
      (s : System R) (u w : Worker)
      → ((v : Worker) → Alert s v (s.pc v))
      → Alert (step om s u) w ((step om s u).pc w)
  unfolding step
  step-Alert s u w h = elim (Bool-cases (same u w)) [
    | inl own ↦
        subst (λ v. Alert (step om s u) v ((step om s u).pc v)) (same_eq u w own)
          (own-Alert s u (s.pc u) refl (h u))
    | inr apart ↦ rw (step-Apart om s u w apart).pc (elim (advance-Calm s u w (s.pc u) apart) [
      | inl k ↦ Calm-Alert w s _ (s.pc w) k (h w)
      | inr awake ↦ awake-Alert (advance om s u (s.pc u)) w (s.pc w) awake
    ])
  ]
