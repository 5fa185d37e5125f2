-- ===== src/Operator/Samples/Train.antt =====
-- Training and deduction: what a trained operator answers.
use meta_pb.Common.{
  subst, List, ℕ, ◌*◌, ◌/◌, ◌%◌, ◌^◌, ◌≡◌, ◌≤◌, ◌<◌, Bool, true, false, Option, none, some,
  if◌then◌else◌, ◌==◌, arith, ◌∙◌, sym, ap, refl,
}
use meta_pb.Common.Real.{Real, ZeroLaws}
use meta_pb.Executor.Perf.{PerfStats}
use meta_pb.Operator.Samples.{
  deduce, Model, Arrays, train_loop, set_trained, train_new, train_model, load_model_cache,
  deduce_perf_cpu, deduce_perf_dpu,
}
use meta_pb.Operator.Samples.Loop.{
  trained-last, written, train_loop-samples, written-multiple, trained-multiple, train_loop-dpu,
}

module _ {R : Real} (only : Bool) (probe_cpu probe_dpu : ℕ → PerfStats R) (m : Model R)
    (upper : ℕ) where
  abbrev loop_from : ℕ → Option (Arrays R)
  loop_from cnt =
      train_loop R probe_cpu probe_dpu only 19 (upper / 15) upper cnt 0
        (record { cpu = m.cpu_perf_samples; dpu = m.dpu_perf_samples })

  -- Where no file is found the result is the loop's.
  train_new-loop : train_new R probe_cpu probe_dpu only m upper ≡ set_trained R upper (loop_from 0)
  unfolding train_new
  train_new-loop = refl

  train_model-new :
      (is_cpu_only : Bool) (dpu_file : Option (List (PerfStats R)))
      → train_model R true is_cpu_only none dpu_file probe_cpu probe_dpu m upper
        ≡ train_new R probe_cpu probe_dpu is_cpu_only m upper
  unfolding train_model load_model_cache
  train_model-new true dpu_file = refl
  train_model-new false none = refl
  train_model-new false (some rows) = refl

  train_model-loop :
      (dpu_file : Option (List (PerfStats R))) (cnt : ℕ) (b : Arrays R)
      → cnt ≡ 0
      → loop_from cnt ≡ some b
      → train_model R true only none dpu_file probe_cpu probe_dpu m upper
        ≡ set_trained R upper (some b)
  train_model-loop dpu_file cnt b z e =
      train_model-new only dpu_file
      ∙ train_new-loop
      ∙ ap (set_trained R upper) (ap loop_from (sym z) ∙ e)

-- The samples of a newly trained operator.
pub train_model-samples :
    {R : Real}
    → (only : Bool) (dpu_file : Option (List (PerfStats R))) (probe_cpu probe_dpu : ℕ → PerfStats R)
      (m : Model R) (upper : ℕ)
    → 15 ≤ upper
    → upper < 2 ^ 31
    → upper % 15 ≤ upper / 15
    → (t : Model R) × (train_model R true only none dpu_file probe_cpu probe_dpu m upper ≡ some t)
      × (t.deduce_page_blk_upper_bound ≡ upper)
      × ((i : ℕ) → i * (upper / 15) ≤ upper → t.cpu_perf_samples i ≡ probe_cpu (i * (upper / 15)))
      × (only ≡ false
          → (i : ℕ) → i * (upper / 15) ≤ upper
          → t.dpu_perf_samples i ≡ probe_dpu (i * (upper / 15)))
train_model-samples {R} only dpu_file probe_cpu probe_dpu m upper h s k =
    let (b, e, w) =
      train_loop-samples R probe_cpu probe_dpu only (upper / 15) upper (omega arith) (omega arith)
        (omega arith) s 19 0 (record { cpu = m.cpu_perf_samples; dpu = m.dpu_perf_samples })
        (omega arith) (omega arith) in
    (
      _,
      train_model-loop only probe_cpu probe_dpu m upper dpu_file (0 * (upper / 15)) b (omega arith)
          e,
      refl,
      λ i l.
          w i
          ∙ written-multiple R probe_cpu probe_dpu only (upper / 15) upper (omega arith)
              (omega arith) (omega arith) s m.cpu_perf_samples i l,
      λ both i l.
          train_loop-dpu probe_cpu probe_dpu (upper / 15) upper (omega arith) (omega arith)
            (omega arith) s (record { cpu = m.cpu_perf_samples; dpu = m.dpu_perf_samples }) b
            (subst
              (λ o.
                train_loop R probe_cpu probe_dpu o 19 (upper / 15) upper (0 * (upper / 15)) 0
                  (record { cpu = m.cpu_perf_samples; dpu = m.dpu_perf_samples })
                ≡ some b)
              both e)
            i
          ∙ written-multiple R probe_dpu probe_cpu false (upper / 15) upper (omega arith)
              (omega arith) (omega arith) s m.dpu_perf_samples i l,
    )

-- Without a cached model training ends with the bound it was called for.
pub train_model-bound :
    {R : Real}
    → (trainable only : Bool) (dpu_file : Option (List (PerfStats R)))
      (probe_cpu probe_dpu : ℕ → PerfStats R) (m : Model R) (upper : ℕ)
    → 15 ≤ upper
    → upper < 2 ^ 31
    → upper % 15 ≤ upper / 15
    → (t : Model R) × (train_model R trainable only none dpu_file probe_cpu probe_dpu m upper
        ≡ some t)
      × (t.deduce_page_blk_upper_bound ≡ upper)
unfolding train_model load_model_cache
train_model-bound false only dpu_file probe_cpu probe_dpu m upper h s k = (_, refl, refl)
train_model-bound true only dpu_file probe_cpu probe_dpu m upper h s k =
    let (t, e, bound, _, _) = train_model-samples only dpu_file probe_cpu probe_dpu m upper h s k in
    (t, e, bound)

-- What a trained array answers: on each step below the bound, and from the bound on.
abbrev pub Answers :
    {R : Real}
    → (ask : ℕ → Option (PerfStats R)) → (probe : ℕ → PerfStats R) → (old : PerfStats R)
    → (upper : ℕ) → Type 0
Answers ask probe old upper =
    ((i : ℕ) → i * (upper / 15) < upper → ask (i * (upper / 15)) ≡ some (probe (i * (upper / 15))))
    × ((cnt : ℕ)
        → upper ≤ cnt
        → ask cnt ≡ some (if upper % 15 == upper / 15 then probe (16 * (upper / 15)) else old))

-- An operator that is trainable and has no cached model is trained for an upper bound below 2 ^ 31
-- whose quotient by 15 is positive and no less than its remainder. Training succeeds. Then the
-- deduction for the CPU, for no page block or for a multiple of the step below the bound, is what was
-- measured there on the CPU. From the bound on it is what was measured at 16 steps where quotient and
-- remainder are equal, and otherwise the last entry that the array had before the training, which was
-- not written. For an operator that does not run on the CPU only, the same holds of the DPUs.
pub train_model-deduce :
    (R : Real) (laws : ZeroLaws R) (only : Bool) (dpu_file : Option (List (PerfStats R)))
    (probe_cpu probe_dpu : ℕ → PerfStats R) (m : Model R) (upper : ℕ)
    → 15 ≤ upper
    → upper < 2 ^ 31
    → upper % 15 ≤ upper / 15
    → (t : Model R) × (train_model R true only none dpu_file probe_cpu probe_dpu m upper ≡ some t)
      × Answers (deduce_perf_cpu R t) probe_cpu (m.cpu_perf_samples 16) upper
      × (only ≡ false → Answers (deduce_perf_dpu R t) probe_dpu (m.dpu_perf_samples 16) upper)
unfolding train_model train_new deduce_perf_cpu deduce_perf_dpu
train_model-deduce R laws only dpu_file probe_cpu probe_dpu m upper h s k =
    let (b, e, w) =
      train_loop-samples R probe_cpu probe_dpu only (upper / 15) upper (omega arith) (omega arith)
        (omega arith) s 19 0 (record { cpu = m.cpu_perf_samples; dpu = m.dpu_perf_samples })
        (omega arith) (omega arith) in
    (
      record {
        deduce_page_blk_upper_bound = upper;
        cpu_perf_samples = b.cpu;
        dpu_perf_samples = b.dpu;
        is_trained = true;
      },
      train_model-loop only probe_cpu probe_dpu m upper dpu_file (0 * (upper / 15)) b (omega arith)
          e,
      answers probe_cpu probe_dpu only b.cpu m.cpu_perf_samples w,
      λ both. answers probe_dpu probe_cpu false b.dpu m.dpu_perf_samples (
          train_loop-dpu probe_cpu probe_dpu (upper / 15) upper (omega arith) (omega arith)
            (omega arith) s (record { cpu = m.cpu_perf_samples; dpu = m.dpu_perf_samples }) b
            (subst
              (λ o.
                train_loop R probe_cpu probe_dpu o 19 (upper / 15) upper (0 * (upper / 15)) 0
                  (record { cpu = m.cpu_perf_samples; dpu = m.dpu_perf_samples })
                ≡ some b)
              both e)),
    )
  where
    answers :
        (probe other : ℕ → PerfStats R) (o : Bool) (samples old : ℕ → PerfStats R)
        → ((j : ℕ)
            → samples j
              ≡ written R probe other o
                  (upper / 15)
                  upper
                  (omega arith)
                  (omega arith)
                  (omega arith)
                  s
                  0
                  old
                  j)
        → Answers (deduce R samples upper) probe (old 16) upper
    answers probe other o samples old w = (
      λ i l.
          trained-multiple R probe other o (upper / 15) upper (omega arith) (omega arith)
            (omega arith) s laws samples old w i refl k l,
      λ cnt l.
          trained-last R probe other o (upper / 15) upper (omega arith) (omega arith) (omega arith)
            s samples old w cnt refl k l,
    )
