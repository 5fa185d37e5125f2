-- ===== src/Scheduler/Meta/Choice.antt =====
-- Which optimizer the metaheuristic scheduler takes, and the schedule that it makes of its result.
use meta_pb.Common.{
  ℕ, zero, suc, ◌+◌, ◌<◌, ◌≡◌, refl, ap, ◌∙◌, List, [], ◌∷◌, ◌⊎◌, inl, inr, true, Option, none,
  some, get_or, map, length, All, arith, Bool-cases,
}
use meta_pb.Common.Real.{Real, Le, OrderLaws, lt_Le, lt_trans}
use meta_pb.Executor.Graph.{TaskGraph, Schedule, num_vertices}
use meta_pb.Optimizer.Search.{Point, Search}
use meta_pb.Scheduler.Meta.{best_optimizer, actual_ratios, schedule_at, meta_schedule}

module _ {R : Real} (laws : OrderLaws R) where
  -- Place `k` holds a least value, which is below `bound`.
  abbrev pub LeastAt : List R.Num → ℕ → R.Num → Type 0
  LeastAt vals k bound =
      (k < length vals)
      × (R.lt (get_or vals k R.zero) bound ≡ true)
      × All (λ v. Le R (get_or vals k R.zero) v) vals

  pub All-trans :
      (a b : R.Num) (vals : List R.Num)
      → Le R a b
      → All (λ v. Le R b v) vals
      → All (λ v. Le R a v) vals
  All-trans a b [] h k = tt
  All-trans a b (v ∷ vals) h k = (laws.le_trans a b v h k.0, All-trans a b vals h k.1)

  -- The loop keeps what it had, as nothing is below it, or ends with a least value.
  best_optimizer-cases :
      (vals : List R.Num) (i : ℕ) (best : Option ℕ) (bound : R.Num)
      → ((best_optimizer R vals i best bound ≡ best) × All (λ v. Le R bound v) vals)
        ⊎ ((k : ℕ) × (best_optimizer R vals i best bound ≡ some (i + k)) × LeastAt vals k bound)
  unfolding best_optimizer
  best_optimizer-cases [] i best bound = inl (refl, tt)
  best_optimizer-cases (v ∷ vals) i best bound = elim (Bool-cases (R.lt v bound)) [
    | inl y ↦ elim (best_optimizer-cases vals (suc i) (some i) v) [
      | inl (e, all) ↦
          inr (0, rw y (e ∙ ap some (omega arith)), (omega arith, y, (laws.lt_irrefl v, all)))
      | inr (k, e, (l, b, all)) ↦ inr (
        suc k,
        rw y (e ∙ ap some (omega arith)),
        (omega arith, lt_trans laws _ _ _ b y, (lt_Le laws _ _ b, all)),
      )
    ]
    | inr n ↦ elim (best_optimizer-cases vals (suc i) best bound) [
      | inl (e, all) ↦ inl (rw n e, (n, all))
      | inr (k, e, (l, b, all)) ↦ inr (
        suc k,
        rw n (e ∙ ap some (omega arith)),
        (omega arith, b, (laws.le_trans _ _ _ (lt_Le laws _ _ b) n, all)),
      )
    ]
  ]

  length-actual_ratios :
      (round : R.Num → R.Num) (p : Point R) (n i : ℕ) → length (actual_ratios R round p n i) ≡ n
  unfolding actual_ratios
  length-actual_ratios round p zero i = refl
  length-actual_ratios round p (suc zero) i = refl
  length-actual_ratios round p (suc (suc n)) i =
      ap suc (length-actual_ratios round p (suc n) (suc i))

  -- For best values that are ordered, none of them a NaN: if no search ends below the first bound there
  -- is no schedule. Otherwise there is one: in the order
  -- of HEFT, with a ratio for each vertex, of the best point of a search whose best value is the least
  -- of all, and below the bound.
  pub meta_schedule-best :
      (round : R.Num → R.Num) (first_best : R.Num) (g : TaskGraph R) (heft_order : List ℕ)
      (searches : List (Search R))
      → let vals = map (λ s. s.g_best_val) searches in
        let result = meta_schedule R round first_best g heft_order searches in
        ((result ≡ none) × All (λ v. Le R first_best v) vals)
        ⊎ ((k : ℕ) × (sched : Schedule R) × (result ≡ some sched)
            × LeastAt vals k first_best
            × (sched.order ≡ heft_order)
            × (length sched.offload_ratio ≡ num_vertices R g)
            × (sched.offload_ratio
                ≡ actual_ratios R round
                    (get_or (map (λ s. s.g_best_pt) searches) k [])
                    (num_vertices R g)
                    0))
  unfolding meta_schedule
  meta_schedule-best round first_best g heft_order searches =
      elim (best_optimizer-cases (map (λ s. s.g_best_val) searches) 0 none first_best) [
        | inl (e, all) ↦ inl (ap (schedule_at R round g heft_order searches) e, all)
        | inr (k, e, least) ↦ inr (
          k,
          _,
          ap (schedule_at R round g heft_order searches) (e ∙ ap some (omega arith)),
          least,
          refl,
          length-actual_ratios round _ (num_vertices R g) 0,
          refl,
        )
      ]
