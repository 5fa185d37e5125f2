-- ===== src/Scheduler/Heft/Assign.antt =====
-- `scheduleTask`: the processor that finishes a task first, and when.
use meta_pb.Common.{
  ℕ, ◌≡◌, refl, sym, subst, List, [], ◌∷◌, true, false, some, In, inl, inr, Bool-cases, ==_refl,
  ◌⊎◌,
}
use meta_pb.Common.Real.{Real, Le, OrderLaws, AddLaws, max_num, max_num-left, max_num-right}
use meta_pb.Executor.Graph.{TaskGraph, Edge, in_edges}
use meta_pb.Executor.Perf.{PerfModel}
use meta_pb.Scheduler.Heft.{
  Processor, same_processor, cpu_processor, dpu_processor, Heft, transfer_cost, is_on,
  earliest_start, cost_on, finish_time, best_processor, schedule_task,
}

on_both : (P : Processor → Type 0) → P cpu_processor → P dpu_processor → (p : Processor) → P p
on_both P a b cpu_processor = a
on_both P a b dpu_processor = b

same_processor_refl : (p : Processor) → same_processor p p ≡ true
same_processor_refl cpu_processor = refl
same_processor_refl dpu_processor = refl

module _ {R : Real} (laws : OrderLaws R) (adds : AddLaws R) (om : PerfModel R) (g : TaskGraph R)
    (h : Heft R) where
  -- When the result of an edge's source has reached the other processor.
  abbrev pub arrival : Edge R → R.Num
  arrival e = R.add (h.info e.source).end_time (transfer_cost R om g e)

  earliest_start-base :
      (p : Processor) (es : List (Edge R)) (t : R.Num) → Le R t (earliest_start R om g h p es t)
  unfolding earliest_start
  earliest_start-base p [] t = laws.lt_irrefl t
  earliest_start-base p (e ∷ es) t =
      elim (Bool-cases (is_on R om g (h.info e.source).assigned_processor p)) [
        | inl y ↦ rw y (earliest_start-base p es t)
        | inr n ↦ rw n (
            laws.le_trans _ _ _ (max_num-left laws t (arrival e))
              (earliest_start-base p es (max_num R t (arrival e))))
      ]

  earliest_start-arrival :
      (p : Processor) (es : List (Edge R)) (t : R.Num) (e : Edge R)
      → In e es
      → is_on R om g (h.info e.source).assigned_processor p ≡ false
      → Le R (arrival e) (earliest_start R om g h p es t)
  unfolding earliest_start
  earliest_start-arrival p (d ∷ es) t e (inl q) n =
      subst (λ z. Le R (arrival e) (earliest_start R om g h p (z ∷ es) t)) q
        (rw n (
          laws.le_trans _ _ _ (max_num-right laws t (arrival e))
            (earliest_start-base p es (max_num R t (arrival e)))))
  earliest_start-arrival p (d ∷ es) t e (inr m) n = earliest_start-arrival p es _ e m n
  earliest_start-arrival p [] t e m n = absurd m

  module _ (tn : ℕ) (max_val : R.Num)
      (costs : (p : Processor) → Le R R.zero (cost_on R om g (h.info tn) p))
      (finite : R.lt (finish_time R om g h tn cpu_processor) max_val ≡ true) where
    abbrev finish : Processor → R.Num
    finish p = finish_time R om g h tn p

    abbrev best : Processor × R.Num
    best = best_processor R om g h tn (cpu_processor ∷ dpu_processor ∷ []) cpu_processor max_val

    best-cases :
        ((best ≡ (dpu_processor, finish dpu_processor))
          × Le R (finish dpu_processor) (finish cpu_processor))
        ⊎ ((best ≡ (cpu_processor, finish cpu_processor))
            × Le R (finish cpu_processor) (finish dpu_processor))
    unfolding best_processor
    best-cases = elim (Bool-cases (R.lt (finish dpu_processor) (finish cpu_processor))) [
      | inl y ↦ inl (rw (finite, y) refl, laws.lt_asym _ _ y)
      | inr n ↦ inr (rw (finite, n) refl, n)
    ]

    First : Processor × R.Num → Type 0
    First b = (b.1 ≡ finish b.0) × ((q : Processor) → Le R b.1 (finish q))

    dpu-First :
        Le R (finish dpu_processor) (finish cpu_processor)
        → First (dpu_processor, finish dpu_processor)
    unfolding First
    dpu-First k = (
      refl,
      λ q.
          on_both (λ p. Le R (finish dpu_processor) (finish p)) k
            (laws.lt_irrefl (finish dpu_processor)) q,
    )

    cpu-First :
        Le R (finish cpu_processor) (finish dpu_processor)
        → First (cpu_processor, finish cpu_processor)
    unfolding First
    cpu-First k = (
      refl,
      λ q.
          on_both (λ p. Le R (finish cpu_processor) (finish p))
            (laws.lt_irrefl (finish cpu_processor)) k q,
    )

    best-First : First best
    best-First = elim best-cases [
      | inl (e, k) ↦ subst First (sym e) (dpu-First k)
      | inr (e, k) ↦ subst First (sym e) (cpu-First k)
    ]

    finish-base : (p : Processor) → Le R (h.next_available_time p) (finish p)
    unfolding finish_time
    finish-base p =
        laws.le_trans _ _ _ (earliest_start-base p (in_edges R g tn) (h.next_available_time p))
          (adds.le_add _ _ (costs p))

    finish-arrival :
        (p : Processor) (e : Edge R)
        → In e (in_edges R g tn)
        → is_on R om g (h.info e.source).assigned_processor p ≡ false
        → Le R (arrival e) (finish p)
    unfolding finish_time
    finish-arrival p e m n =
        laws.le_trans _ _ _
          (earliest_start-arrival p (in_edges R g tn) (h.next_available_time p) e m n)
          (adds.le_add _ _ (costs p))

    -- For costs that are not negative and a finish below the largest `double`: the task goes to a
    -- processor, and its end is when that one finishes it, which is not after the other would. That is
    -- not before the processor was available nor before any result from the other processor has
    -- arrived, and the processor is available again from then on.
    pub schedule_task-earliest :
        let h' = schedule_task R om g max_val h tn in
        let end = (h'.info tn).end_time in
        (p : Processor) × ((h'.info tn).assigned_processor ≡ some p)
        × (end ≡ finish_time R om g h tn p)
        × ((q : Processor) → Le R end (finish_time R om g h tn q))
        × Le R (h.next_available_time p) end
        × (h'.next_available_time p ≡ end)
        × ((e : Edge R)
            → In e (in_edges R g tn)
            → is_on R om g (h.info e.source).assigned_processor p ≡ false
            → Le R (arrival e) end)
    unfolding schedule_task First
    schedule_task-earliest =
        let (e, least) = best-First in
        (
          best.0,
          rw (==_refl tn) refl,
          rw (==_refl tn) e,
          λ q. rw (==_refl tn) (least q),
          rw (==_refl tn, e) (finish-base best.0),
          rw (==_refl tn, same_processor_refl best.0) refl,
          λ d m n. rw (==_refl tn, e) (finish-arrival best.0 d m n),
        )
