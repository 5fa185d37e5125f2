-- ===== src/Executor/Run/Progress.antt =====
-- When a thread can take a step that counts, for an order that is a topological one.
use meta_pb.Common.{
  ℕ, ◌≤◌, ◌<◌, ◌≡◌, ◌≢◌, refl, List, [], ◌∷◌, ◌++◌, arith, true, some, Bool-cases, ◌⊎◌, inl, inr,
  length, sym, ap, ◌∙◌, Option-cases, In, All, All-of, All-at, subst, dec_le, dec_lt, length-append,
}
use mathlib.Core.List.{append_assoc, append-nil}
use meta_pb.Common.Real.{Real}
use meta_pb.Executor.Pool.{
  Worker, cpu_thread, dpu_thread, map_thread, reduce_thread, Task, dependency_check, waker,
  waits_for,
}
use meta_pb.Executor.Run.{Pc, fetch, waiting, ready, holding, ran, closing, System}
use meta_pb.Executor.Run.Inv.{ids, at_hand, done, todo, WakersDone, exclusive, Inv, met_iff}
use meta_pb.Executor.Run.Measure.{enabled, enabled_at, steps_of, steps_left}

-- Every task comes after all that it depends on.
abbrev pub TopoAfter : (ℕ → List ℕ) → List ℕ → List ℕ → Type 0
TopoAfter deps seen [] = Unit
TopoAfter deps seen (x ∷ order) =
    All (λ d. In d seen) (deps x) × TopoAfter deps (seen ++ x ∷ []) order

abbrev pub IsTopological : (ℕ → List ℕ) → List ℕ → Type 0
IsTopological deps order = TopoAfter deps [] order

pub TopoAfter-split :
    (deps : ℕ → List ℕ) (seen pre : List ℕ) (x : ℕ) (rest : List ℕ)
    → TopoAfter deps seen (pre ++ x ∷ rest)
    → All (λ d. In d (seen ++ pre)) (deps x)
TopoAfter-split deps seen [] x rest h = rw append-nil h.0
TopoAfter-split deps seen (y ∷ pre) x rest h =
    rw (← append_assoc seen (y ∷ []) pre) (TopoAfter-split deps (seen ++ y ∷ []) pre x rest h.1)

-- Of two ways to cut a list, the shorter front part lies in the longer.
front-In : (a b c d : List ℕ) → a ++ b ≡ c ++ d → length a ≤ length c → (x : ℕ) → In x a → In x c
front-In [] b c d e h x m = absurd m
front-In (y ∷ a) b [] d e h x m = absurd (omega arith)
front-In (y ∷ a) b (z ∷ c) d e h x (inl k) = inl (k ∙ cc)
front-In (y ∷ a) b (z ∷ c) d e h x (inr m) = inr (front-In a b c d (cc) (omega arith) x m)

next-In : (a : List ℕ) (x : ℕ) (b c d : List ℕ) → a ++ x ∷ b ≡ c ++ d → length a < length c → In x c
next-In [] x b [] d e h = absurd (omega arith)
next-In [] x b (z ∷ c) d e h = inl (cc)
next-In (y ∷ a) x b [] d e h = absurd (omega arith)
next-In (y ∷ a) x b (z ∷ c) d e h = inr (next-In a x b c d (cc) (omega arith))

-- A thread is at its end, or has a task at hand that it waits for, or is enabled but for the mutex.
data Situation {R : Real} (s : System R) (w : Worker) : Type 0 where
  moves : enabled s w ≡ true → Situation s w
  locked_out : (t : Task) → s.pc w ≡ ready t → (v : Worker) → s.dpu_mutex ≡ some v → Situation s w
  ended : todo s w ≡ [] → steps_of s w ≡ 0 → Situation s w
  waits : (t : Task) → s.pc w ≡ waiting t → Situation s w

module _ {R : Real} where
  fetch-situation :
      (s : System R) (w : Worker) (q : List Task)
      → s.pc w ≡ fetch
      → s.pool.queue w ≡ q
      → Situation s w
  fetch-situation s w [] e f = ended (rw (e, f)) (rw (e, f) (omega arith))
  fetch-situation s w (t ∷ q) e f = moves (rw (e, f))

  ready-situation : (s : System R) (w : Worker) (t : Task) → s.pc w ≡ ready t → Situation s w
  ready-situation s w t e = elim (Bool-cases t.is_dpu_related) [
    | inl related ↦ elim (Option-cases s.dpu_mutex) [
      | inl free ↦ moves (rw (e, related, free))
      | inr (v, taken) ↦ locked_out t e v taken
    ]
    | inr unrelated ↦ moves (rw (e, unrelated))
  ]

  situation-at : (s : System R) (w : Worker) (c : Pc) → s.pc w ≡ c → Situation s w
  situation-at s w fetch e = fetch-situation s w (s.pool.queue w) e refl
  situation-at s w (waiting t) e = waits t e
  situation-at s w (ready t) e = ready-situation s w t e
  situation-at s w (holding t) e = moves (rw e)
  situation-at s w (ran t) e = moves (rw e)
  situation-at s w (closing t) e = moves (rw e)

  situation : (s : System R) (w : Worker) → Situation s w
  situation s w = situation-at s w (s.pc w) refl

  -- The holder of `dpuMutex_` is enabled.
  holder-at : (s : System R) (v : Worker) (c : Pc) → exclusive c ≡ true → enabled_at s v c ≡ true
  holder-at s v fetch h = cc
  holder-at s v (waiting t) h = cc
  holder-at s v (ready t) h = cc
  holder-at s v (holding t) h = refl
  holder-at s v (ran t) h = refl
  holder-at s v (closing t) h = cc

module _ {R : Real} {order : List ℕ} {s : System R} (inv : Inv order s)
    (topo : IsTopological s.pool.dependencies order) where
  abbrev behind : Worker → ℕ
  behind w = length (done s w)

  behind-le : (w : Worker) → behind w ≤ length order
  behind-le w = omega (arith, ap length (inv.split w), length-append (done s w) (todo s w))

  cut :
      (w : Worker) (t : Task) → s.pc w ≡ waiting t → done s w ++ t.id ∷ ids (s.pool.queue w) ≡ order
  cut w t e = ap (λ c. done s w ++ (at_hand c ++ ids (s.pool.queue w))) (sym e) ∙ inv.split w

  waits-enabled :
      (w : Worker) (t : Task) → s.pc w ≡ waiting t → WakersDone s w t.id → enabled s w ≡ true
  unfolding dependency_check
  waits-enabled w t e h = rw e (
      (met_iff R (s.pool.is_completed (waker w)) (s.pool.complete_time_ms (waker w))
          (waits_for s.pool.dependencies w t.id) (s.pool.last_waker_time_ms w t.id)).1
        h)

  -- The CPU or DPU thread: no further than its waker, it finds its dependencies complete.
  compute-enabled :
      (w : Worker) (t : Task)
      → waits_for s.pool.dependencies w t.id ≡ s.pool.dependencies t.id
      → s.pc w ≡ waiting t
      → behind w ≤ behind (waker w)
      → enabled s w ≡ true
  compute-enabled w t k e h = waits-enabled w t e (
      rw k (
        All-of _ _ λ d m. inv.marked (waker w) d (
          front-In (done s w) (t.id ∷ ids (s.pool.queue w)) (done s (waker w)) (todo s (waker w))
            (cut w t e ∙ sym (inv.split (waker w))) h d (All-at _ _ before d m))))
    where
      before : All (λ d. In d (done s w)) (s.pool.dependencies t.id)
      before =
          TopoAfter-split s.pool.dependencies [] (done s w) t.id (ids (s.pool.queue w))
            (subst (TopoAfter s.pool.dependencies []) (sym (cut w t e)) topo)

  -- The map or reduce thread: behind its waker, it finds its own task complete there.
  xfer-enabled :
      (w : Worker) (t : Task)
      → waits_for s.pool.dependencies w t.id ≡ t.id ∷ []
      → s.pc w ≡ waiting t
      → behind w < behind (waker w)
      → enabled s w ≡ true
  xfer-enabled w t k e h = waits-enabled w t e (
      rw k (
        inv.marked (waker w) t.id (
            next-In (done s w) t.id (ids (s.pool.queue w)) (done s (waker w)) (todo s (waker w))
              (cut w t e ∙ sym (inv.split (waker w))) h),
        tt,
      ))

  -- A thread that does not move is at its end or waits.
  abbrev Blocked : Worker → Type 0
  Blocked w =
      ((behind w ≡ length order) × (steps_of s w ≡ 0))
      ⊎ ((t : Task) × (s.pc w ≡ waiting t) × (behind w < length order))

  abbrev Moves : Type 0
  Moves = (w : Worker) × (enabled s w ≡ true)

  summary-of : (w : Worker) → Situation s w → Moves ⊎ Blocked w
  summary-of w (moves h) = inl (w, h)
  summary-of w (locked_out t e v h) = inl (v, holder-at s v (s.pc v) (inv.held v h))
  summary-of w (ended e z) = inr (
      inl (
        omega (arith, ap length (inv.split w), length-append (done s w) (todo s w), ap length e),
        z,
      ))
  summary-of w (waits t e) = inr (
      inr (
        t,
        e,
        omega
            (arith, ap length (cut w t e), length-append (done s w) (t.id ∷ ids (s.pool.queue w))),
      ))

  all_blocked :
      steps_left s ≢ 0
      → Blocked cpu_thread
      → Blocked dpu_thread
      → Blocked map_thread
      → Blocked reduce_thread
      → Moves
  all_blocked n c d m r = elim (dec_lt (behind map_thread) (behind cpu_thread)) [
    | yes map_late ↦ elim m [
      | inl (e, _) ↦ absurd (omega (arith, behind-le cpu_thread))
      | inr (t, e, _) ↦ (map_thread, xfer-enabled map_thread t refl e map_late)
    ]
    | no map_on ↦ elim (dec_lt (behind reduce_thread) (behind dpu_thread)) [
      | yes reduce_late ↦ elim r [
        | inl (e, _) ↦ absurd (omega (arith, behind-le dpu_thread))
        | inr (t, e, _) ↦ (reduce_thread, xfer-enabled reduce_thread t refl e reduce_late)
      ]
      | no reduce_on ↦ elim (dec_le (behind cpu_thread) (behind reduce_thread)) [
        | yes cpu_first ↦ elim c [
          | inr (t, e, _) ↦ (cpu_thread, compute-enabled cpu_thread t refl e cpu_first)
          | inl (ce, cz) ↦ elim d [
            | inr (t, e, _) ↦ (
              dpu_thread,
              compute-enabled dpu_thread t refl e (omega (arith, behind-le dpu_thread)),
            )
            | inl (de, dz) ↦ elim m [
              | inr (t, e, l) ↦ absurd (omega arith)
              | inl (me, mz) ↦ elim r [
                | inr (t, e, l) ↦ absurd (omega arith)
                | inl (re, rz) ↦ absurd (n (omega arith))
              ]
            ]
          ]
        ]
        | no reduce_first ↦ elim d [
          | inr (t, e, _) ↦ (dpu_thread, compute-enabled dpu_thread t refl e (omega arith))
          | inl (de, _) ↦ absurd (omega (arith, behind-le cpu_thread))
        ]
      ]
    ]
  ]

  -- While a step is left to be made, a thread can make one.
  pub no_deadlock : steps_left s ≢ 0 → (w : Worker) × (enabled s w ≡ true)
  no_deadlock n = elim (summary-of cpu_thread (situation s cpu_thread)) [
    | inl found ↦ found
    | inr c ↦ elim (summary-of dpu_thread (situation s dpu_thread)) [
      | inl found ↦ found
      | inr d ↦ elim (summary-of map_thread (situation s map_thread)) [
        | inl found ↦ found
        | inr m ↦ elim (summary-of reduce_thread (situation s reduce_thread)) [
          | inl found ↦ found
          | inr r ↦ all_blocked n c d m r
        ]
      ]
    ]
  ]
