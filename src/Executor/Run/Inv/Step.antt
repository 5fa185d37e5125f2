-- ===== src/Executor/Run/Inv/Step.antt =====
-- The kinds of steps, and the invariant.
use meta_pb.Common.{
  ℕ, ◌≡◌, refl, List, [], ◌∷◌, ◌++◌, true, Bool-cases, inl, inr, sym, ◌∙◌, In, All-of, All-at,
  subst, Option-cases,
}
use meta_pb.Common.Real.{Real}
use meta_pb.Executor.Perf.{PerfModel}
use meta_pb.Executor.Pool.{
  Worker, same, Task, waker, waits_for, dependency_check, all_dependencies_met,
}
use meta_pb.Executor.Run.{
  Pc, fetch, waiting, ready, holding, ran, closing, System, take_task, wake, lock, advance, step,
}
use meta_pb.Executor.Run.Frame.{
  same_refl, same_eq, Apart, step-Apart, step-dependencies, step-keeps_completed, advance_completed,
  wait-elim,
}
use meta_pb.Executor.Run.Inv.Own.{step-Own}
use meta_pb.Executor.Run.Inv.{done, todo, WakersDone, PassedDone, met_iff}

module _ {R : Real} (om : PerfModel R) where
  -- What is complete stays so, and with it what a task waited for.
  step-WakersDone :
      (s : System R) (u w : Worker) (x : ℕ) → WakersDone s w x → WakersDone (step om s u) w x
  step-WakersDone s u w x h =
      rw (step-dependencies om s u)
        (All-of _ _ (λ d m. step-keeps_completed om s u (waker w) d (All-at _ _ h d m)))

  Apart-split :
      (order : List ℕ) (s t : System R) (w : Worker)
      → Apart om w s t
      → done s w ++ todo s w ≡ order
      → done t w ++ todo t w ≡ order
  Apart-split order s t w a h = rw (a.timings, a.pc, a.queue) h

  pub step-split :
      (order : List ℕ) (s : System R) (u w : Worker)
      → done s w ++ todo s w ≡ order
      → done (step om s u) w ++ todo (step om s u) w ≡ order
  step-split order s u w h = elim (Bool-cases (same u w)) [
    | inl own ↦
        subst
          (λ v. done s v ++ todo s v ≡ order → done (step om s u) v ++ todo (step om s u) v ≡ order)
          (same_eq u w own) (λ k. (step-Own om s u).split ∙ k) h
    | inr apart ↦ Apart-split order s _ w (step-Apart om s u w apart) h
  ]

  abbrev pub Marked : System R → Worker → Type 0
  Marked s w = (x : ℕ) → In x (done s w) → s.pool.is_completed w x ≡ true

  abbrev pub Known : System R → Worker → Type 0
  Known s w = (x : ℕ) → s.pool.is_completed w x ≡ true → In x (done s w)

  pub step-Marked : (s : System R) (u w : Worker) → Marked s w → Marked (step om s u) w
  step-Marked s u w h = elim (Bool-cases (same u w)) [
    | inl own ↦
        subst (λ v. Marked s v → Marked (step om s u) v) (same_eq u w own) (step-Own om s u).marked
          h
    | inr apart ↦
        let a = step-Apart om s u w apart in λ x m. a.completed x ∙ h x (rw a.timings at m)
  ]

  pub step-Known : (s : System R) (u w : Worker) → Known s w → Known (step om s u) w
  step-Known s u w h = elim (Bool-cases (same u w)) [
    | inl own ↦
        subst (λ v. Known s v → Known (step om s u) v) (same_eq u w own) (step-Own om s u).known h
    | inr apart ↦
        let a = step-Apart om s u w apart in λ x m. rw a.timings (h x (sym (a.completed x) ∙ m))
  ]

  fetch-passed :
      (s : System R) (u : Worker) (q : List Task)
      → s.pc u ≡ fetch
      → PassedDone s u ((take_task om s u q).pc u)
  unfolding take_task
  fetch-passed s u [] e = rw e tt
  fetch-passed s u (t ∷ q) e = rw (same_refl u) tt

  -- `cv_.wait` returns only when the task's wakers are complete.
  wake-passed : (s : System R) (u : Worker) (t : Task) → PassedDone s u ((wake om s u t).pc u)
  unfolding wake dependency_check
  wake-passed s u t =
      let answer =
        met_iff R (s.pool.is_completed (waker u)) (s.pool.complete_time_ms (waker u))
          (waits_for s.pool.dependencies u t.id) (s.pool.last_waker_time_ms u t.id) in
      elim (Bool-cases
        (all_dependencies_met R (s.pool.is_completed (waker u)) (s.pool.complete_time_ms (waker u))
          (waits_for s.pool.dependencies u t.id) (s.pool.last_waker_time_ms u t.id)).0) [
            | inl yes_met ↦ rw (same_refl u, yes_met) (answer.0 yes_met)
            | inr not_met ↦ rw (same_refl u, not_met) tt
          ]

  lock-passed :
      (s : System R) (u : Worker) (t : Task)
      → s.pc u ≡ ready t
      → WakersDone s u t.id
      → PassedDone s u ((lock om s u t).pc u)
  unfolding lock
  lock-passed s u t e h = elim (Bool-cases t.is_dpu_related) [
    | inl related ↦ elim (Option-cases s.dpu_mutex) [
      | inl free ↦ rw (related, free, same_refl u) h
      | inr (v, taken) ↦ rw (related, taken, e) h
    ]
    | inr unrelated ↦ rw (unrelated, same_refl u) h
  ]

  -- A thread's program counter after its own step.
  own-passed :
      (s : System R) (u : Worker) (c : Pc)
      → s.pc u ≡ c
      → PassedDone s u c
      → PassedDone s u ((advance om s u c).pc u)
  unfolding advance
  own-passed s u fetch e h = fetch-passed s u (s.pool.queue u) e
  own-passed s u (waiting t) e h =
      wait-elim om (λ x. PassedDone s u (x.pc u)) s u t (λ a bs. rw e tt) (wake-passed s u t)
  own-passed s u (ready t) e h = lock-passed s u t e h
  own-passed s u (holding t) e h = rw (same_refl u) h
  own-passed s u (ran t) e h = rw (same_refl u) h
  own-passed s u (closing t) e h = rw (same_refl u) tt

  -- What was complete before the step still is.
  passed-later :
      (s : System R) (u w : Worker) (c : Pc) → PassedDone s w c → PassedDone (step om s u) w c
  passed-later s u w fetch h = tt
  passed-later s u w (waiting t) h = tt
  passed-later s u w (ready t) h = step-WakersDone s u w t.id h
  passed-later s u w (holding t) h = step-WakersDone s u w t.id h
  passed-later s u w (ran t) h = step-WakersDone s u w t.id h
  passed-later s u w (closing t) h = step-WakersDone s u w t.id h

  step-own-passed :
      (s : System R) (u : Worker) → PassedDone s u (s.pc u) → PassedDone s u ((step om s u).pc u)
  unfolding step
  step-own-passed s u h = own-passed s u (s.pc u) refl h

  pub step-passed :
      (s : System R) (u w : Worker)
      → PassedDone s u (s.pc u)
      → PassedDone s w (s.pc w)
      → PassedDone (step om s u) w ((step om s u).pc w)
  step-passed s u w hu hw = elim (Bool-cases (same u w)) [
    | inl own ↦
        subst (λ v. PassedDone (step om s u) v ((step om s u).pc v)) (same_eq u w own)
          (passed-later s u u _ (step-own-passed s u hu))
    | inr apart ↦ rw (step-Apart om s u w apart).pc (passed-later s u w _ hw)
  ]

  -- A task that becomes complete had passed its wait.
  pub step-wakers :
      (s : System R) (u w : Worker) (x : ℕ)
      → PassedDone s u (s.pc u)
      → (s.pool.is_completed w x ≡ true → WakersDone s w x)
      → (step om s u).pool.is_completed w x ≡ true
      → WakersDone (step om s u) w x
  unfolding step
  step-wakers s u w x passed old h = elim (advance_completed om s u w (s.pc u) x) [
    | inl e ↦ step-WakersDone s u w x (old (sym e ∙ h))
    | inr (t, at, eq, id, _) ↦ step-WakersDone s u w x (
        subst (WakersDone s w) id
          (subst (λ v. WakersDone s v t.id) eq (subst (PassedDone s u) at passed)))
  ]
