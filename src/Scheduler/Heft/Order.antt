-- ===== src/Scheduler/Heft/Order.antt =====
-- The order of HEFT's schedules, and their runs on the compute pool.
use meta_pb.Common.{
  ℕ, Bool, suc, ◌*◌, ◌≤◌, ◌<◌, ◌≡◌, refl, sym, ◌∙◌, subst, List, [], ◌∷◌, ◌++◌, map, length, Option,
  none, some, In, In-append_cases, All, All-at, All-of, Distinct, inl, inr, true, ◌==◌, ==_iff,
  ==_refl, ◌⊎◌, Bool-cases,
}
use mathlib.Core.Bool.{false≢true}
use mathlib.Core.List.{flatten, append_assoc}
use meta_pb.Common.Real.{Real, Le, OrderLaws}
use meta_pb.Executor.Graph.{
  TaskGraph, Edge, Schedule, edges_into, edges_from, num_vertices, predecessors, successors,
}
use meta_pb.Executor.Perf.{PerfModel}
use meta_pb.Executor.Pool.{Worker}
use meta_pb.Executor.Parse.{ExecType}
use meta_pb.Executor.Run.Inv.{done}
use meta_pb.Executor.Run.Fair.{IsRound}
use meta_pb.Executor.Run.Progress.{TopoAfter, IsTopological}
use meta_pb.Executor.Workload.{after, fair_run_completes}
use meta_pb.Scheduler.Heft.{upward_rank, all_some, rank_cost, max_rank, heft_schedule}
use meta_pb.Scheduler.Heft.Rank.{
  all_some-In, rank_of_inv, upward_rank-more, max_rank-In, upward_rank_total,
}

module _ (R : Real) where
  -- `b` is not above `a`, where both are known.
  abbrev pub NotAbove : Option R.Num → Option R.Num → Type 0
  NotAbove (some a) (some b) = Le R b a
  NotAbove _ _ = Unit

  -- `std::sort` by falling rank: no task has a higher rank than one before it.
  abbrev pub IsSorted : (rank : ℕ → Option R.Num) → List ℕ → Type 0
  IsSorted rank [] = Unit
  IsSorted rank (u ∷ us) = All (λ v. NotAbove (rank u) (rank v)) us × IsSorted rank us

  -- What a list of the sources of the edges into a vertex holds stands for an edge.
  edges_into-In :
      (es : List (Edge R)) (d x : ℕ)
      → In d (map (λ e. e.source) (edges_into R x es))
      → (e : Edge R) × In e es × (e.source ≡ d) × (e.target ≡ x)
  edges_into-In [] d x m = absurd m
  edges_into-In (e ∷ es) d x m = elim (Bool-cases (e.target == x)) [
    | inl here ↦ found (λ k. edges_into-In es d x k) (rw here at m) here
    | inr other ↦ later (edges_into-In es d x (rw other at m))
  ]
    where
      later :
          (f : Edge R) × In f es × (f.source ≡ d) × (f.target ≡ x)
          → (f : Edge R) × In f (e ∷ es) × (f.source ≡ d) × (f.target ≡ x)
      later (f, k, s, t) = (f, inr k, s, t)

      found :
          (In d (map (λ e. e.source) (edges_into R x es))
            → (f : Edge R) × In f es × (f.source ≡ d) × (f.target ≡ x))
          → (d ≡ e.source) ⊎ In d (map (λ e. e.source) (edges_into R x es))
          → (e.target == x) ≡ true
          → (f : Edge R) × In f (e ∷ es) × (f.source ≡ d) × (f.target ≡ x)
      found rest (inl k) t = (e, inl refl, sym k, (==_iff e.target x).0 t)
      found rest (inr k) t = later (rest k)

  edges_from-In :
      (es : List (Edge R)) (e : Edge R)
      → In e es
      → In e.target (map (λ e. e.target) (edges_from R e.source es))
  edges_from-In [] e m = absurd m
  edges_from-In (f ∷ es) e (inl k) = rw (k, ==_refl f.source) (inl refl)
  edges_from-In (f ∷ es) e (inr m) = elim (Bool-cases (f.source == e.source)) [
    | inl y ↦ rw y (inr (edges_from-In es e m))
    | inr n ↦ rw n (edges_from-In es e m)
  ]

  predecessors-successors :
      (g : TaskGraph R) (d x : ℕ) → In d (predecessors R g x) → In x (successors R g d)
  predecessors-successors g d x m =
      let (e, k, s, t) = edges_into-In g.edges d x m in
      subst (λ u. In x (map (λ e. e.target) (edges_from R u g.edges))) s
        (subst (λ v. In v (map (λ e. e.target) (edges_from R e.source g.edges))) t
          (edges_from-In g.edges e k))

module _ {R : Real} (laws : OrderLaws R) (om : PerfModel R) (g : TaskGraph R) (fuel : ℕ) where
  -- The rank of a task is above those of its successors: its cost is positive, and large enough to
  -- change the rank that it is added to.
  abbrev pub CostsCount : Type 0
  CostsCount =
      (u v : ℕ) (rs : List R.Num)
      → In v (successors R g u)
      → all_some R om g (map (λ w. upward_rank R om g fuel w) (successors R g u)) ≡ some rs
      → R.lt (max_rank R om g rs R.zero) (R.add (rank_cost R om g u) (max_rank R om g rs R.zero))
        ≡ true

  -- The rank of `v` is below that of `u`.
  abbrev Below : Option R.Num → Option R.Num → Type 0
  Below (some b) (some a) = R.lt b a ≡ true
  Below _ _ = ⊥

  le_lt : (a b c : R.Num) → Le R a b → R.lt b c ≡ true → R.lt a c ≡ true
  le_lt a b c h k = elim (Bool-cases (R.lt a c)) [
    | inl y ↦ y
    | inr n ↦ absurd (false≢true (sym (laws.le_trans c a b n h) ∙ k))
  ]

  upward_rank-inv :
      (u : ℕ) (r : R.Num)
      → upward_rank R om g (suc fuel) u ≡ some r
      → (rs : List R.Num) × (all_some R om g
            (map (λ w. upward_rank R om g fuel w) (successors R g u))
          ≡ some rs)
        × (r ≡ R.add (rank_cost R om g u) (max_rank R om g rs R.zero))
  unfolding upward_rank
  upward_rank-inv u r e = rank_of_inv laws om g u _ r e

  upward_rank-Below :
      (u v : ℕ) (r : R.Num)
      → CostsCount
      → In v (successors R g u)
      → upward_rank R om g (suc fuel) u ≡ some r
      → Below (upward_rank R om g (suc fuel) v) (upward_rank R om g (suc fuel) u)
  upward_rank-Below u v r counts m e =
      let (rs, k, l) = upward_rank-inv u r e in
      let (r', at_v, m') =
        all_some-In laws om g (λ w. upward_rank R om g fuel w) (successors R g u) rs v k m in
      rw (e, upward_rank-more laws om g fuel v r' at_v)
        (le_lt r' (max_rank R om g rs R.zero) r (max_rank-In laws om g rs R.zero r' m')
          (subst (λ z. R.lt (max_rank R om g rs R.zero) z ≡ true) (sym l) (counts u v rs m k)))

  Below-irrefl : (a : Option R.Num) → ¬ Below a a
  Below-irrefl none h = h
  Below-irrefl (some a) h = false≢true (sym (laws.lt_irrefl a) ∙ h)

  Below-NotAbove : (a b : Option R.Num) → Below a b → ¬ NotAbove R a b
  Below-NotAbove none b h k = h
  Below-NotAbove (some a) none h k = h
  Below-NotAbove (some a) (some b) h k = false≢true (sym k ∙ h)

  -- A sorted list in which each task is below its predecessors, which it holds, is topological.
  sorted-TopoAfter :
      (rank : ℕ → Option R.Num) (seen rest : List ℕ)
      → ((d x : ℕ) → In d (predecessors R g x) → Below (rank x) (rank d))
      → ((d x : ℕ) → In d (predecessors R g x) → In d (seen ++ rest))
      → IsSorted R rank rest
      → TopoAfter (predecessors R g) seen rest
  sorted-TopoAfter rank seen [] below within sorted = tt
  sorted-TopoAfter rank seen (x ∷ rest) below within sorted = (
    All-of _ (predecessors R g x) (λ d m. behind d m (In-append_cases d seen _ (within d x m))),
    sorted-TopoAfter rank (seen ++ x ∷ []) rest below
        (λ d y m. rw (append_assoc seen (x ∷ []) rest) (within d y m)) sorted.1,
  )
    where
      behind : (d : ℕ) → In d (predecessors R g x) → In d seen ⊎ ((d ≡ x) ⊎ In d rest) → In d seen
      behind d m (inl s) = s
      behind d m (inr (inl e)) =
          absurd (Below-irrefl (rank x) (subst (λ y. Below (rank x) (rank y)) e (below d x m)))
      behind d m (inr (inr k)) =
          absurd (Below-NotAbove (rank x) (rank d) (below d x m) (All-at _ rest sorted.0 d k))

  module _ (depth : ℕ → ℕ) (falls : (u v : ℕ) → In v (successors R g u) → depth v < depth u)
      (deep : (u : ℕ) → depth u < suc fuel)
      (within : All (λ e. e.source < num_vertices R g) g.edges) (counts : CostsCount)
      (sorted : List ℕ) (whole : (v : ℕ) → v < num_vertices R g → In v sorted)
      (by_rank : IsSorted R (λ v. upward_rank R om g (suc fuel) v) sorted) where
    sorted-IsTopological : IsTopological (predecessors R g) sorted
    sorted-IsTopological =
        sorted-TopoAfter (λ v. upward_rank R om g (suc fuel) v) [] sorted
          (λ d x m.
            let (r, e) = upward_rank_total laws om g depth falls (suc fuel) d (deep d) in
            upward_rank-Below d x r counts (predecessors-successors R g d x m) e)
          (λ d x m.
            let (e, k, s, t) = edges_into-In R g.edges d x m in
            whole d (subst (λ u. u < num_vertices R g) s (All-at _ g.edges within e k)))
          by_rank

    -- Schedules in the order of HEFT's schedule (its own, those that the metaheuristic scheduler tries and
    -- the one that it returns) run to completion: in a graph without cycles, told by a depth that falls
    -- along each edge, where each cost raises a rank above those of the successors and all tasks have
    -- been sorted by falling rank, each once, after 24 rounds for each task that let every thread step,
    -- every thread has run every task once, in that order, and all are marked as complete. A sleeping
    -- thread is woken by `notify_all` or by a given spurious wake-up, if there are any, by nothing else.
    pub heft_run_completes :
        (max_val : R.Num) (heap : ℕ) (sched : Schedule R) (e : ExecType) (wakeups : List Bool)
        (rounds : List (List Worker))
        → Distinct sorted
        → sched.order ≡ (heft_schedule R om g max_val sorted).order
        → All IsRound rounds
        → 24 * length sorted ≤ length rounds
        → (w : Worker)
        → let s = after om heap g sched e wakeups (flatten rounds) in
          (done s w ≡ sorted) × All (λ x. s.pool.is_completed w x ≡ true) sorted
    unfolding heft_schedule
    heft_run_completes max_val heap sched e wakeups rounds distinct order fair enough w =
        let (run_all, complete) =
          fair_run_completes om heap g sched e wakeups (subst Distinct (sym order) distinct)
            (subst (IsTopological (predecessors R g)) (sym order) sorted-IsTopological) rounds fair
            (subst (λ xs. 24 * length xs ≤ length rounds) (sym order) enough) w in
        (
          run_all ∙ order,
          subst
              (All (λ x.
                (after om heap g sched e wakeups (flatten rounds)).pool.is_completed w x ≡ true))
              order complete,
        )
