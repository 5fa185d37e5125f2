-- ===== src/Executor/Run/Inv.antt =====
-- What holds in every state of the pool: the tasks that a thread has finished, has at hand and has
-- in its queue make up the schedule's order; a complete task waited for its wakers; `dpuMutex_` is
-- held by the thread whose program counter says so.
pub mod Own
pub mod Step
pub mod Mutex
pub mod Keep
use Prim.Native.String.{String}
use meta_pb.Common.{ℕ, ◌≡◌, refl, List, [], ◌∷◌, ◌++◌, Bool, true, false, some, arith, map, In, All}
use meta_pb.Common.Real.{Real, max_num}
use meta_pb.Executor.Pool.{Worker, Task, waker, waits_for, all_dependencies_met}
use meta_pb.Executor.Run.{Pc, fetch, waiting, ready, holding, ran, closing, System}

abbrev pub ids : List Task → List ℕ
ids = map (λ t. t.id)

abbrev pub at_hand : Pc → List ℕ
at_hand fetch = []
at_hand (waiting t) = t.id ∷ []
at_hand (ready t) = t.id ∷ []
at_hand (holding t) = t.id ∷ []
at_hand (ran t) = t.id ∷ []
at_hand (closing t) = t.id ∷ []

abbrev pub finished_ids : List (ℕ × String) → List ℕ
finished_ids = map (λ e. e.0)

-- What a thread has finished, and what it has before it.
abbrev pub done : {R : Real} → System R → Worker → List ℕ
done s w = finished_ids (s.pool.timings w)

abbrev pub todo : {R : Real} → System R → Worker → List ℕ
todo s w = at_hand (s.pc w) ++ ids (s.pool.queue w)

-- All that task `x` of thread `w` waits for is complete.
abbrev pub WakersDone : {R : Real} → System R → Worker → ℕ → Type 0
WakersDone s w x =
    All (λ d. s.pool.is_completed (waker w) d ≡ true) (waits_for s.pool.dependencies w x)

-- Beyond its wait a thread has a task whose wakers are complete.
abbrev pub PassedDone : {R : Real} → System R → Worker → Pc → Type 0
PassedDone s w fetch = Unit
PassedDone s w (waiting t) = Unit
PassedDone s w (ready t) = WakersDone s w t.id
PassedDone s w (holding t) = WakersDone s w t.id
PassedDone s w (ran t) = WakersDone s w t.id
PassedDone s w (closing t) = WakersDone s w t.id

-- Between `dpuMutex_.lock()` and `dpuMutex_.unlock()`.
abbrev pub exclusive : Pc → Bool
exclusive (holding t) = t.is_dpu_related
exclusive (ran t) = t.is_dpu_related
exclusive _ = false

pub record Inv {R : Real} (order : List ℕ) (s : System R) : Type 0 where
  pub split : (w : Worker) → done s w ++ todo s w ≡ order
  pub marked : (w : Worker) (x : ℕ) → In x (done s w) → s.pool.is_completed w x ≡ true
  pub known : (w : Worker) (x : ℕ) → s.pool.is_completed w x ≡ true → In x (done s w)
  pub wakers : (w : Worker) (x : ℕ) → s.pool.is_completed w x ≡ true → WakersDone s w x
  pub passed : (w : Worker) → PassedDone s w (s.pc w)
  pub owner : (w : Worker) → exclusive (s.pc w) ≡ true → s.dpu_mutex ≡ some w
  pub held : (w : Worker) → s.dpu_mutex ≡ some w → exclusive (s.pc w) ≡ true

module _ (R : Real) where
  -- The test in `cv_.wait` answers yes exactly when all the tasks waited for are complete.
  pub met_iff :
      (completed : ℕ → Bool) (times : ℕ → R.Num) (deps : List ℕ) (last : R.Num)
      → ((all_dependencies_met R completed times deps last).0 ≡ true
          → All (λ d. completed d ≡ true) deps)
        × (All (λ d. completed d ≡ true) deps
            → (all_dependencies_met R completed times deps last).0 ≡ true)
  unfolding all_dependencies_met
  met_iff completed times [] last = (λ _. tt, λ _. refl)
  met_iff completed times (d ∷ deps) last =
      let ih = met_iff completed times deps (max_num R last (times d)) in
      (λ h. ground (arith, ih), λ h. ground (arith, ih))
