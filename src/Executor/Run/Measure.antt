-- ===== src/Executor/Run/Measure.antt =====
-- How far a run has still to go: six steps for a task in a queue, one fewer for each that has been
-- made of the task at hand.
use meta_pb.Common.{
  ℕ, ◌+◌, ◌*◌, ◌≡◌, refl, List, [], ◌∷◌, ◌++◌, arith, Bool, true, false, none, some, Option,
  Bool-cases, inl, inr, length, if◌then◌else◌, sym, ap, ◌∙◌,
}
use meta_pb.Common.Real.{Real, max_num}
use meta_pb.Executor.Perf.{PerfModel}
use meta_pb.Executor.Pool.{
  Worker, cpu_thread, dpu_thread, map_thread, reduce_thread, same, Task, dependency_check,
  all_dependencies_met, waker, waits_for,
}
use meta_pb.Executor.Run.{
  Pc, fetch, waiting, ready, holding, ran, closing, System, take_task, wake, wait, lock, unlock,
  complete, advance, step,
}
use meta_pb.Executor.Run.Inv.{ids, at_hand, todo, WakersDone, met_iff}
use meta_pb.Executor.Run.Sleep.{Alert}
use meta_pb.Executor.Run.Frame.{same_refl, same_eq, perform-Kept, step-Apart, wait-elim}

abbrev steps_at : Pc → ℕ
steps_at fetch = 0
steps_at (waiting t) = 5
steps_at (ready t) = 4
steps_at (holding t) = 3
steps_at (ran t) = 2
steps_at (closing t) = 1

-- The steps that a thread has before it.
abbrev pub steps_of : {R : Real} → System R → Worker → ℕ
steps_of s w = 6 * length (s.pool.queue w) + steps_at (s.pc w)

abbrev pub steps_left : {R : Real} → System R → ℕ
steps_left s =
    steps_of s cpu_thread + steps_of s dpu_thread + steps_of s map_thread + steps_of s reduce_thread

-- A thread at the end of its loop.
abbrev ended : List Task → Bool
ended [] = true
ended (t ∷ q) = false

abbrev is_free : {A : Type 0} → Option A → Bool
is_free none = true
is_free (some a) = false

-- Whether the thread's next step moves it on.
abbrev pub enabled_at : {R : Real} → System R → Worker → Pc → Bool
enabled_at s w fetch = if ended (s.pool.queue w) then false else true
enabled_at {R} s w (waiting t) = (dependency_check R s.pool w t.id).0
enabled_at s w (ready t) = if t.is_dpu_related then is_free s.dpu_mutex else true
enabled_at s w (holding t) = true
enabled_at s w (ran t) = true
enabled_at s w (closing t) = true

abbrev pub enabled : {R : Real} → System R → Worker → Bool
enabled s w = enabled_at s w (s.pc w)

no_steps-at : (c : Pc) (q : List Task) → 6 * length q + steps_at c ≡ 0 → at_hand c ++ ids q ≡ []
no_steps-at fetch [] h = refl
no_steps-at fetch (t ∷ q) h = absurd (omega arith)
no_steps-at (waiting t) q h = absurd (omega arith)
no_steps-at (ready t) q h = absurd (omega arith)
no_steps-at (holding t) q h = absurd (omega arith)
no_steps-at (ran t) q h = absurd (omega arith)
no_steps-at (closing t) q h = absurd (omega arith)

-- A thread with no step before it has no task before it.
pub no_steps-todo : {R : Real} (s : System R) (w : Worker) → steps_of s w ≡ 0 → todo s w ≡ []
no_steps-todo s w h = no_steps-at (s.pc w) (s.pool.queue w) h

module _ {R : Real} (om : PerfModel R) where
  take_task-steps :
      (s : System R) (w : Worker) (q : List Task)
      → s.pool.queue w ≡ q
      → s.pc w ≡ fetch
      → ended q ≡ false
      → steps_of (take_task om s w q) w + 1 ≡ steps_of s w
  unfolding take_task
  take_task-steps s w [] e f h = cc
  take_task-steps s w (t ∷ q) e f h = ground (arith, same_refl w)

  met_WakersDone :
      (s : System R) (w : Worker) (t : Task)
      → (dependency_check R s.pool w t.id).0 ≡ true
      → WakersDone s w t.id
  unfolding dependency_check
  met_WakersDone s w t h =
      (met_iff R (s.pool.is_completed (waker w)) (s.pool.complete_time_ms (waker w))
          (waits_for s.pool.dependencies w t.id) (s.pool.last_waker_time_ms w t.id)).0
        h

  wait-steps :
      (s : System R) (w : Worker) (t : Task)
      → s.pc w ≡ waiting t
      → s.asleep w ≡ false
      → (dependency_check R s.pool w t.id).0 ≡ true
      → steps_of (wait om s w t) w + 1 ≡ steps_of s w
  unfolding wait wake
  wait-steps s w t e n h = rw n (ground (arith, same_refl w))

  -- An enabled thread makes one step of those before it.
  own-steps :
      (s : System R) (w : Worker) (c : Pc)
      → s.pc w ≡ c
      → enabled_at s w c ≡ true
      → Alert s w c
      → steps_of (advance om s w c) w + 1 ≡ steps_of s w
  unfolding advance lock unlock complete
  own-steps s w fetch e h alert = take_task-steps s w (s.pool.queue w) refl e (ground arith)
  own-steps s w (waiting t) e h alert = wait-steps s w t e (alert (met_WakersDone s w t h)) h
  own-steps s w (ready t) e h alert = ground (arith, same_refl w)
  own-steps s w (holding t) e h alert =
      ground (arith, same_refl w, perform-Kept om s.pool t.execute t.id)
  own-steps s w (ran t) e h alert = ground (arith, same_refl w)
  own-steps s w (closing t) e h alert = ground (arith, same_refl w)

  take_task-stays :
      (s : System R) (w : Worker) (q : List Task)
      → s.pool.queue w ≡ q
      → ended q ≡ true
      → take_task om s w q ≡ s
  unfolding take_task
  take_task-stays s w [] e h = refl
  take_task-stays s w (t ∷ q) e h = cc

  -- A blocked thread's step changes at most the time that it last looked.
  record Stays (s t : System R) (v : Worker) : Type 0 where
    pc : t.pc v ≡ s.pc v
    queue : t.pool.queue v ≡ s.pool.queue v
    met : (i : ℕ) → (dependency_check R t.pool v i).0 ≡ (dependency_check R s.pool v i).0
    mutex : t.dpu_mutex ≡ s.dpu_mutex

  same-Stays : (s t : System R) (v : Worker) → t ≡ s → Stays s t v
  same-Stays s t v e = record {
    pc = ap (λ (x : System R). x.pc v) e;
    queue = ap (λ (x : System R). x.pool.queue v) e;
    met = λ i. ap (λ (x : System R). (dependency_check R x.pool v i).0) e;
    mutex = ap (λ (x : System R). x.dpu_mutex) e;
  }

  -- The time that a thread last looked has no part in the answer.
  met_any :
      (completed : ℕ → Bool) (times : ℕ → R.Num) (deps : List ℕ) (last last' : R.Num)
      → (all_dependencies_met R completed times deps last).0
        ≡ (all_dependencies_met R completed times deps last').0
  unfolding all_dependencies_met
  met_any completed times [] last last' = refl
  met_any completed times (d ∷ deps) last last' =
      ground
        (arith, met_any completed times deps (max_num R last (times d)) (max_num R last' (times d)))

  wake-Stays :
      (s : System R) (w v : Worker) (t : Task)
      → s.pc w ≡ waiting t
      → (dependency_check R s.pool w t.id).0 ≡ false
      → Stays s (wake om s w t) v
  unfolding wake dependency_check
  wake-Stays s w v t e h = record {
    pc = elim (Bool-cases (same w v)) [
      | inl own ↦ rw (own, h) (sym e ∙ ap s.pc (same_eq w v own))
      | inr apart ↦ rw apart
    ];
    queue = refl;
    met = λ i.
        met_any (s.pool.is_completed (waker v)) (s.pool.complete_time_ms (waker v))
          (waits_for s.pool.dependencies v i) ((wake om s w t).pool.last_waker_time_ms v i)
          (s.pool.last_waker_time_ms v i);
    mutex = refl;
  }

  lock-stays :
      (s : System R) (w : Worker) (t : Task) → enabled_at s w (ready t) ≡ false → lock om s w t ≡ s
  unfolding lock
  lock-stays s w t h = ground arith

  blocked-Stays :
      (s : System R) (w v : Worker) (c : Pc)
      → s.pc w ≡ c
      → enabled_at s w c ≡ false
      → Stays s (advance om s w c) v
  unfolding advance
  blocked-Stays s w v fetch e h =
      same-Stays s _ v (take_task-stays s w (s.pool.queue w) refl (ground arith))
  blocked-Stays s w v (waiting t) e h =
      wait-elim om (λ x. Stays s x v) s w t
        (λ a bs. record { pc = refl; queue = refl; met = λ i. refl; mutex = refl })
        (wake-Stays s w v t e h)
  blocked-Stays s w v (ready t) e h = same-Stays s _ v (lock-stays s w t h)
  blocked-Stays s w v (holding t) e h = cc
  blocked-Stays s w v (ran t) e h = cc
  blocked-Stays s w v (closing t) e h = cc

  enabled-Stays :
      (s t : System R) (v : Worker) (c : Pc) → Stays s t v → enabled_at t v c ≡ enabled_at s v c
  enabled-Stays s t v fetch k = rw k.queue
  enabled-Stays s t v (waiting x) k = k.met x.id
  enabled-Stays s t v (ready x) k = rw k.mutex
  enabled-Stays s t v (holding x) k = refl
  enabled-Stays s t v (ran x) k = refl
  enabled-Stays s t v (closing x) k = refl

  -- A blocked step keeps every thread as able to move, and as far from its end.
  pub blocked-enabled :
      (s : System R) (w v : Worker) → enabled s w ≡ false → enabled (step om s w) v ≡ enabled s v
  unfolding step
  blocked-enabled s w v h =
      let k = blocked-Stays s w v (s.pc w) refl h in
      ap (enabled_at (advance om s w (s.pc w)) v) k.pc ∙ enabled-Stays s _ v (s.pc v) k

  blocked-steps :
      (s : System R) (w v : Worker) → enabled s w ≡ false → steps_of (step om s w) v ≡ steps_of s v
  unfolding step
  blocked-steps s w v h = let k = blocked-Stays s w v (s.pc w) refl h in rw (k.pc, k.queue)

  pub blocked-steps_left :
      (s : System R) (w : Worker) → enabled s w ≡ false → steps_left (step om s w) ≡ steps_left s
  blocked-steps_left s w h = rw (
    blocked-steps s w cpu_thread h,
    blocked-steps s w dpu_thread h,
    blocked-steps s w map_thread h,
    blocked-steps s w reduce_thread h,
  )

  enabled-own :
      (s : System R) (w : Worker)
      → Alert s w (s.pc w)
      → enabled s w ≡ true
      → steps_of (step om s w) w + 1 ≡ steps_of s w
  unfolding step
  enabled-own s w alert h = own-steps s w (s.pc w) refl h alert

  apart-steps :
      (s : System R) (w v : Worker) → same w v ≡ false → steps_of (step om s w) v ≡ steps_of s v
  apart-steps s w v h = let a = step-Apart om s w v h in rw (a.pc, a.queue)

  pub enabled-steps_left :
      (s : System R) (w : Worker)
      → Alert s w (s.pc w)
      → enabled s w ≡ true
      → steps_left (step om s w) + 1 ≡ steps_left s
  enabled-steps_left s cpu_thread alert h = omega (
    arith,
    enabled-own s cpu_thread alert h,
    apart-steps s cpu_thread dpu_thread refl,
    apart-steps s cpu_thread map_thread refl,
    apart-steps s cpu_thread reduce_thread refl,
  )
  enabled-steps_left s dpu_thread alert h = omega (
    arith,
    enabled-own s dpu_thread alert h,
    apart-steps s dpu_thread cpu_thread refl,
    apart-steps s dpu_thread map_thread refl,
    apart-steps s dpu_thread reduce_thread refl,
  )
  enabled-steps_left s map_thread alert h = omega (
    arith,
    enabled-own s map_thread alert h,
    apart-steps s map_thread cpu_thread refl,
    apart-steps s map_thread dpu_thread refl,
    apart-steps s map_thread reduce_thread refl,
  )
  enabled-steps_left s reduce_thread alert h = omega (
    arith,
    enabled-own s reduce_thread alert h,
    apart-steps s reduce_thread cpu_thread refl,
    apart-steps s reduce_thread dpu_thread refl,
    apart-steps s reduce_thread map_thread refl,
  )
