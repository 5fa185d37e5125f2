-- ===== src/Executor/Run/Inv/Mutex.antt =====
-- `dpuMutex_` and its holder.
use meta_pb.Common.{
  ◌≡◌, refl, List, [], ◌∷◌, true, false, some, arith, Bool-cases, inl, inr, subst, sym, ◌∙◌,
}
use meta_pb.Common.Real.{Real}
use meta_pb.Executor.Perf.{PerfModel}
use meta_pb.Executor.Pool.{Worker, same, Task}
use meta_pb.Executor.Run.{
  Pc, fetch, waiting, ready, holding, ran, closing, System, take_task, wake, lock, unlock, advance,
  step,
}
use meta_pb.Executor.Run.Frame.{same_refl, same_eq, step-Apart, wait-elim}
use meta_pb.Executor.Run.Inv.{exclusive}

module _ {R : Real} (om : PerfModel R) where
  -- What a thread believes of the mutex.
  abbrev pub Owner : System R → Worker → Type 0
  Owner s w = exclusive (s.pc w) ≡ true → s.dpu_mutex ≡ some w

  abbrev pub Held : System R → Worker → Type 0
  Held s w = s.dpu_mutex ≡ some w → exclusive (s.pc w) ≡ true

  fetch-mutex :
      (s : System R) (u : Worker) (q : List Task) → (take_task om s u q).dpu_mutex ≡ s.dpu_mutex
  unfolding take_task
  fetch-mutex s u [] = refl
  fetch-mutex s u (t ∷ q) = refl

  fetch-exclusive :
      (s : System R) (u : Worker) (q : List Task)
      → s.pc u ≡ fetch
      → exclusive ((take_task om s u q).pc u) ≡ false
  unfolding take_task
  fetch-exclusive s u [] e = ground arith
  fetch-exclusive s u (t ∷ q) e = ground (arith, same_refl u)

  wake-own :
      (s : System R) (u : Worker) (t : Task)
      → s.pc u ≡ waiting t
      → Held s u
      → Owner (wake om s u t) u × Held (wake om s u t) u
  unfolding wake
  wake-own s u t e h = ground (arith, same_refl u)

  wake-mutex : (s : System R) (u : Worker) (t : Task) → (wake om s u t).dpu_mutex ≡ s.dpu_mutex
  unfolding wake
  wake-mutex s u t = refl

  own-mutex :
      (s : System R) (u : Worker) (c : Pc)
      → s.pc u ≡ c
      → Owner s u
      → Held s u
      → Owner (advance om s u c) u × Held (advance om s u c) u
  unfolding advance lock unlock
  own-mutex s u fetch e o h =
      ground (arith, fetch-mutex s u (s.pool.queue u), fetch-exclusive s u (s.pool.queue u) e)
  own-mutex s u (waiting t) e o h =
      wait-elim om (λ x. Owner x u × Held x u) s u t (λ a bs. (o, h)) (wake-own s u t e h)
  own-mutex s u (ready t) e o h = ground (arith, same_refl u)
  own-mutex s u (holding t) e o h = ground (arith, same_refl u)
  own-mutex s u (ran t) e o h = ground (arith, same_refl u)
  own-mutex s u (closing t) e o h = ground (arith, same_refl u)

  -- Another thread's step changes the mutex only by taking it free, or by giving back its own.
  other-mutex :
      (s : System R) (u w : Worker) (c : Pc)
      → s.pc u ≡ c
      → same u w ≡ false
      → Owner s u
      → (s.dpu_mutex ≡ some w → (advance om s u c).dpu_mutex ≡ some w)
        × ((advance om s u c).dpu_mutex ≡ some w → s.dpu_mutex ≡ some w)
  unfolding advance lock unlock
  other-mutex s u w fetch e n o = ground (arith, fetch-mutex s u (s.pool.queue u))
  other-mutex s u w (waiting t) e n o =
      wait-elim om
        (λ x.
          (s.dpu_mutex ≡ some w → x.dpu_mutex ≡ some w)
          × (x.dpu_mutex ≡ some w → s.dpu_mutex ≡ some w))
        s u t (λ a bs. (λ k. k, λ k. k))
        (λ k. wake-mutex s u t ∙ k, λ k. sym (wake-mutex s u t) ∙ k)
  other-mutex s u w (ready t) e n o = ground (arith, same_refl u)
  other-mutex s u w (holding t) e n o = ground arith
  other-mutex s u w (ran t) e n o = ground (arith, same_refl u)
  other-mutex s u w (closing t) e n o = ground arith

  pub step-mutex :
      (s : System R) (u w : Worker)
      → ((v : Worker) → Owner s v)
      → ((v : Worker) → Held s v)
      → Owner (step om s u) w × Held (step om s u) w
  unfolding step
  step-mutex s u w o h = elim (Bool-cases (same u w)) [
    | inl own ↦
        subst (λ v. Owner (step om s u) v × Held (step om s u) v) (same_eq u w own)
          (own-mutex s u (s.pc u) refl (o u) (h u))
    | inr apart ↦
        let m = other-mutex s u w (s.pc u) refl apart (o u) in
        let a = step-Apart om s u w apart in
        (λ x. m.0 (o w (rw a.pc at x)), λ x. rw a.pc (h w (m.1 x)))
  ]
