-- ===== src/Operator/Samples/Loop.antt =====
-- The loop of `trainModel`: which entries it writes, and what the deduction reads of them.
use meta_pb.Common.{
  ℕ_discrete, subst, ℕ, zero, suc, ◌+◌, ◌*◌, ◌/◌, ◌%◌, ◌^◌, ◌≡◌, ◌≤◌, ◌<◌, Bool, false, some, leb,
  if◌then◌else◌, ◌==◌, ◌&&◌, arith, ◌∙◌, sym, ap, refl, inl, inr, dec_le, Bool-cases,
}
use mathlib.Core.Option
use mathlib.Core.Option.{some-injective}
use meta_pb.Common.Real.{Real, ZeroLaws}
use meta_pb.Executor.Perf.{PerfStats}
use meta_pb.Operator.Pages.{u32}
use meta_pb.Operator.Samples.{
  interpolate, deduce, Arrays, take_sample, train_loop, perf_sample_point,
}
use meta_pb.Operator.Samples.Deduce.{deduce_defined, interpolate-mul}

pub index_le : (i q upper : ℕ) → 0 < q → upper < 17 * q → i * q ≤ upper → i ≤ 16
index_le i q upper p h k = grind arith

mul_past : (i q upper : ℕ) → upper < 17 * q → 17 ≤ i → upper < i * q
mul_past i q upper h k = grind arith

pub mul_mono : (i j q : ℕ) → i ≤ j → i * q ≤ j * q
mul_mono i j q h = grind arith

pub mul_next : (i q : ℕ) → (i + 1) * q ≡ i * q + q
mul_next i q = grind arith

module _ (R : Real) (probe_cpu probe_dpu : ℕ → PerfStats R) (only : Bool) (q upper : ℕ)
    (pos : 0 < q) (few : upper < 17 * q) (within : q ≤ upper) (small : upper < 2 ^ 31) where
  -- The entries that the rounds from `i` on write.
  abbrev pub written : ℕ → (ℕ → PerfStats R) → ℕ → PerfStats R
  written i old j = if leb i j && leb (j * q) upper then probe_cpu (j * q) else old j

  next_blocks : (i : ℕ) → i * q ≤ upper → u32 (i * q + q) ≡ (i + 1) * q
  next_blocks i h = omega (arith, mul_next i q)

  written-past : (i : ℕ) (old : ℕ → PerfStats R) (j : ℕ) → upper < i * q → old j ≡ written i old j
  written-past i old j h = ground (arith, mul_mono i j q)

  written-here :
      (i : ℕ) (a : Arrays R) (j : ℕ)
      → i * q ≤ upper
      → written (i + 1) (take_sample R probe_cpu probe_dpu only a i (i * q)).cpu j
        ≡ written i a.cpu j
  unfolding take_sample
  written-here i a j h = elim (ℕ_discrete i j) [
    | yes e ↦
        subst
          (λ k.
            written (i + 1) (take_sample R probe_cpu probe_dpu only a i (i * q)).cpu k
            ≡ written i a.cpu k)
          e (ground arith)
    | no n ↦ ground arith
  ]

  pub train_loop-samples :
      (fuel i : ℕ) (a : Arrays R)
      → fuel + i ≡ 19
      → i ≤ 17
      → (b : Arrays R) × (train_loop R probe_cpu probe_dpu only fuel q upper (i * q) i a ≡ some b)
        × ((j : ℕ) → b.cpu j ≡ written i a.cpu j)
  unfolding train_loop
  train_loop-samples zero i a f l = absurd (omega arith)
  train_loop-samples (suc fuel) i a f l = elim (dec_le (i * q) upper) [
    | no over ↦ (a, ground arith, λ j. written-past i a.cpu j (omega arith))
    | yes in_range ↦
        let room = index_le i q upper pos few in_range in
        let (b, e, w) =
          train_loop-samples fuel (i + 1) (take_sample R probe_cpu probe_dpu only a i (i * q))
            (omega arith) (omega arith) in
        (b, rw (next_blocks i in_range) (ground (arith, e)), λ j. w j ∙ written-here i a j in_range)
  ]

  -- What a trained array answers.
  pub written-multiple :
      (old : ℕ → PerfStats R) (i : ℕ) → i * q ≤ upper → written 0 old i ≡ probe_cpu (i * q)
  written-multiple old i h = ground arith

  pub trained-multiple :
      (laws : ZeroLaws R) (samples old : ℕ → PerfStats R)
      → ((j : ℕ) → samples j ≡ written 0 old j)
      → (i : ℕ) → upper / 15 ≡ q
      → upper % 15 ≤ q
      → i * q < upper
      → deduce R samples upper (i * q) ≡ some (probe_cpu (i * q))
  trained-multiple laws samples old w i e k h =
      elim (deduce_defined R samples upper (i * q) (omega arith) (omega arith)) [
        | inl (z, d) ↦
            d
            ∙ ap some (w 0 ∙ written-multiple old 0 (omega arith) ∙ ap probe_cpu (omega (arith, z)))
        | inr (inl (p, o, d)) ↦ absurd (omega arith)
        | inr (inr (p, l, f, d)) ↦
            d
            ∙ ap some (
                ap (λ step. interpolate R samples step (i * q)) e
                ∙ interpolate-mul R samples laws i q pos
                ∙ w i
                ∙ written-multiple old i (omega arith))
      ]

  pub trained-last :
      (samples old : ℕ → PerfStats R)
      → ((j : ℕ) → samples j ≡ written 0 old j)
      → (cnt : ℕ) → upper / 15 ≡ q
      → upper % 15 ≤ q
      → upper ≤ cnt
      → deduce R samples upper cnt ≡ some (if upper % 15 == q then probe_cpu (16 * q) else old 16)
  trained-last samples old w cnt e k h =
      elim (deduce_defined R samples upper cnt (omega arith) (omega arith)) [
        | inl (z, d) ↦ absurd (omega arith)
        | inr (inl (p, o, d)) ↦ d ∙ ap some (w 16 ∙ ground arith)
        | inr (inr (p, l, f, d)) ↦ absurd (omega arith)
      ]

-- What holds of the array of the CPU holds of that of the DPUs, if both are measured.
module _ {R : Real} (probe_cpu probe_dpu : ℕ → PerfStats R) where
  abbrev swapped : Arrays R → Arrays R
  swapped a = record { cpu = a.dpu; dpu = a.cpu }

  train_loop-swapped :
      (fuel step upper cnt i : ℕ) (a : Arrays R)
      → train_loop R probe_cpu probe_dpu false fuel step upper cnt i a
        ≡ Option.map swapped
            (train_loop R probe_dpu probe_cpu false fuel step upper cnt i (swapped a))
  unfolding train_loop take_sample
  train_loop-swapped zero step upper cnt i a = refl
  train_loop-swapped (suc fuel) step upper cnt i a = elim (Bool-cases (leb cnt upper)) [
    | inr over ↦ rw over refl
    | inl within ↦ elim (Bool-cases (leb i perf_sample_point)) [
      | inr past ↦ rw (within, past) refl
      | inl room ↦
          rw (within, room)
            (train_loop-swapped fuel step upper (u32 (cnt + step)) (i + 1)
              (take_sample R probe_cpu probe_dpu false a i cnt))
    ]
  ]

  pub train_loop-dpu :
      (q upper : ℕ) (pos : 0 < q) (few : upper < 17 * q) (within : q ≤ upper)
      (small : upper < 2 ^ 31) (a b : Arrays R)
      → train_loop R probe_cpu probe_dpu false 19 q upper (0 * q) 0 a ≡ some b
      → (j : ℕ)
      → b.dpu j ≡ written R probe_dpu probe_cpu false q upper pos few within small 0 a.dpu j
  train_loop-dpu q upper pos few within small a b e j =
      let (b', e', w) =
        train_loop-samples R probe_dpu probe_cpu false q upper pos few within small 19 0 (swapped a)
          (omega arith) (omega arith) in
      ap (λ (x : Arrays R). x.dpu j)
        (some-injective _ _
          (sym e ∙ train_loop-swapped 19 q upper (0 * q) 0 a ∙ ap (Option.map swapped) e'))
      ∙ w j
