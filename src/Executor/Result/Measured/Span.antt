-- ===== src/Executor/Result/Measured/Span.antt =====
-- The span of the recorded timings.
use meta_pb.Common.{
  ◌≡◌, ◌⊎◌, refl, List, [], ◌∷◌, map, In, In-append_left, In-append_right, In-append_cases, false,
  true, Bool-cases, inl, inr,
}
use meta_pb.Common.Real.{sum_from}
use meta_pb.Executor.Pool.{Worker, cpu_thread, dpu_thread, map_thread, reduce_thread}
use meta_pb.Utils.Stats.{Double}
use meta_pb.Executor.Result.Measured.{
  TimePoint, TaskTiming, add_durations, min_start, max_end, all_timings,
}

-- Time points are ordered.
pub record PointLaws (D : Double) (clock : TimePoint D) : Type 0 where
  pub irrefl : (a : clock.Point) → clock.before a a ≡ false
  pub asym : (a b : clock.Point) → clock.before a b ≡ true → clock.before b a ≡ false
  -- If `b` is not before `a` and `c` is not before `b`, then `c` is not before `a`.
  pub trans :
      (a b c : clock.Point)
      → clock.before b a ≡ false
      → clock.before c b ≡ false
      → clock.before c a ≡ false

module _ (D : Double) (clock : TimePoint D) (laws : PointLaws D clock) where
  min_start-le :
      (ts : List (TaskTiming D clock)) (p : clock.Point)
      → clock.before p (min_start D clock ts p) ≡ false
  unfolding min_start
  min_start-le [] p = laws.irrefl p
  min_start-le (t ∷ ts) p = elim (Bool-cases (clock.before t.start p)) [
    | inl y ↦ rw y (laws.trans _ _ _ (min_start-le ts t.start) (laws.asym t.start p y))
    | inr n ↦ rw n (min_start-le ts p)
  ]

  max_end-ge :
      (ts : List (TaskTiming D clock)) (p : clock.Point)
      → clock.before (max_end D clock ts p) p ≡ false
  unfolding max_end
  max_end-ge [] p = laws.irrefl p
  max_end-ge (t ∷ ts) p = elim (Bool-cases (clock.before p t.end)) [
    | inl y ↦ rw y (laws.trans _ _ _ (laws.asym p t.end y) (max_end-ge ts t.end))
    | inr n ↦ rw n (max_end-ge ts p)
  ]

  -- No recorded task begins before the start from which the time is counted.
  pub min_start-first :
      (ts : List (TaskTiming D clock)) (p : clock.Point) (t : TaskTiming D clock)
      → In t ts
      → clock.before t.start (min_start D clock ts p) ≡ false
  unfolding min_start
  min_start-first [] p t m = absurd m
  min_start-first (u ∷ ts) p t (inl e) = rw e (elim (Bool-cases (clock.before u.start p)) [
    | inl y ↦ rw y (min_start-le ts u.start)
    | inr n ↦ rw n (laws.trans _ _ _ (min_start-le ts p) n)
  ])
  min_start-first (u ∷ ts) p t (inr m) = min_start-first ts _ t m

  -- No recorded task ends after the end to which the time is counted.
  max_end-last :
      (ts : List (TaskTiming D clock)) (p : clock.Point) (t : TaskTiming D clock)
      → In t ts
      → clock.before (max_end D clock ts p) t.end ≡ false
  unfolding max_end
  max_end-last [] p t m = absurd m
  max_end-last (u ∷ ts) p t (inl e) = rw e (elim (Bool-cases (clock.before p u.end)) [
    | inl y ↦ rw y (max_end-ge ts u.end)
    | inr n ↦ rw n (laws.trans _ _ _ n (max_end-ge ts p))
  ])
  max_end-last (u ∷ ts) p t (inr m) = max_end-last ts _ t m

  -- The bound that is kept is the one at the start or that of a timing.
  min_start-attained :
      (ts : List (TaskTiming D clock)) (p : clock.Point)
      → (min_start D clock ts p ≡ p)
        ⊎ ((t : TaskTiming D clock) × In t ts × (min_start D clock ts p ≡ t.start))
  unfolding min_start
  min_start-attained [] p = inl refl
  min_start-attained (u ∷ ts) p = elim (Bool-cases (clock.before u.start p)) [
    | inl y ↦ rw y (elim (min_start-attained ts u.start) [
      | inl e ↦ inr (u, inl refl, e)
      | inr (t, m, e) ↦ inr (t, inr m, e)
    ])
    | inr n ↦
        rw n (elim (min_start-attained ts p) [ inl e ↦ inl e | inr (t, m, e) ↦ inr (t, inr m, e) ])
  ]

  max_end-attained :
      (ts : List (TaskTiming D clock)) (p : clock.Point)
      → (max_end D clock ts p ≡ p)
        ⊎ ((t : TaskTiming D clock) × In t ts × (max_end D clock ts p ≡ t.end))
  unfolding max_end
  max_end-attained [] p = inl refl
  max_end-attained (u ∷ ts) p = elim (Bool-cases (clock.before p u.end)) [
    | inl y ↦ rw y (elim (max_end-attained ts u.end) [
      | inl e ↦ inr (u, inl refl, e)
      | inr (t, m, e) ↦ inr (t, inr m, e)
    ])
    | inr n ↦
        rw n (elim (max_end-attained ts p) [ inl e ↦ inl e | inr (t, m, e) ↦ inr (t, inr m, e) ])
  ]

module _ (D : Double) (clock : TimePoint D) where
  -- A worker's timing among those of all four.
  pub In-all_timings :
      (timings : Worker → List (TaskTiming D clock)) (w : Worker) (t : TaskTiming D clock)
      → In t (timings w)
      → In t (all_timings D clock timings)
  In-all_timings timings cpu_thread t m = In-append_left t _ _ m
  In-all_timings timings dpu_thread t m =
      In-append_right t (timings cpu_thread) _ (In-append_left t _ _ m)
  In-all_timings timings map_thread t m =
      In-append_right t (timings cpu_thread) _
        (In-append_right t (timings dpu_thread) _ (In-append_left t _ _ m))
  In-all_timings timings reduce_thread t m =
      In-append_right t (timings cpu_thread) _
        (In-append_right t (timings dpu_thread) _ (In-append_right t (timings map_thread) _ m))

  all_timings-In :
      (timings : Worker → List (TaskTiming D clock)) (t : TaskTiming D clock)
      → In t (all_timings D clock timings)
      → (w : Worker) × In t (timings w)
  all_timings-In timings t m = elim (In-append_cases t (timings cpu_thread) _ m) [
    | inl c ↦ (cpu_thread, c)
    | inr m ↦ elim (In-append_cases t (timings dpu_thread) _ m) [
      | inl d ↦ (dpu_thread, d)
      | inr m ↦ elim (In-append_cases t (timings map_thread) _ m) [
        | inl x ↦ (map_thread, x)
        | inr r ↦ (reduce_thread, r)
      ]
    ]
  ]

  -- The least start, or `now` if no timing begins before it.
  abbrev pub IsFirst : (Worker → List (TaskTiming D clock)) → (now first : clock.Point) → Type 0
  IsFirst timings now first =
      (clock.before now first ≡ false)
      × ((w : Worker) (t : TaskTiming D clock)
          → In t (timings w)
          → clock.before t.start first ≡ false)
      × ((first ≡ now)
          ⊎ ((w : Worker) × (t : TaskTiming D clock) × In t (timings w) × (first ≡ t.start)))

  -- The greatest end, or the least time point if there is no timing.
  abbrev pub IsLast : (Worker → List (TaskTiming D clock)) → (last : clock.Point) → Type 0
  IsLast timings last =
      ((w : Worker) (t : TaskTiming D clock) → In t (timings w) → clock.before last t.end ≡ false)
      × ((last ≡ clock.least)
          ⊎ ((w : Worker) × (t : TaskTiming D clock) × In t (timings w) × (last ≡ t.end)))

  pub add_durations-sum_from :
      (ts : List (TaskTiming D clock)) (a : D.real.Num)
      → add_durations D clock ts a
        ≡ sum_from D.real a (map (λ (t : TaskTiming D clock). clock.seconds t.end t.start) ts)
  unfolding add_durations
  add_durations-sum_from [] a = refl
  add_durations-sum_from (t ∷ ts) a =
      add_durations-sum_from ts (D.real.add a (clock.seconds t.end t.start))

  pub min_start-IsFirst :
      PointLaws D clock
      → (timings : Worker → List (TaskTiming D clock)) (now : clock.Point)
      → IsFirst timings now (min_start D clock (all_timings D clock timings) now)
  min_start-IsFirst laws timings now = (
    min_start-le D clock laws (all_timings D clock timings) now,
    λ w t m.
        min_start-first D clock laws (all_timings D clock timings) now t
          (In-all_timings timings w t m),
    elim (min_start-attained D clock laws (all_timings D clock timings) now) [
      | inl e ↦ inl e
      | inr (t, m, e) ↦ let (w, k) = all_timings-In timings t m in inr (w, t, k, e)
    ],
  )

  pub max_end-IsLast :
      PointLaws D clock
      → (timings : Worker → List (TaskTiming D clock))
      → IsLast timings (max_end D clock (all_timings D clock timings) clock.least)
  max_end-IsLast laws timings = (
    λ w t m.
        max_end-last D clock laws (all_timings D clock timings) clock.least t
          (In-all_timings timings w t m),
    elim (max_end-attained D clock laws (all_timings D clock timings) clock.least) [
      | inl e ↦ inl e
      | inr (t, m, e) ↦ let (w, k) = all_timings-In timings t m in inr (w, t, k, e)
    ],
  )
