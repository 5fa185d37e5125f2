-- ===== src/Operator/Samples/Deduce.antt =====
-- When a deduction is defined, and what it is at the ends of a step.
use meta_pb.Common.{
  ℕ, ◌-◌, ◌*◌, ◌/◌, ◌%◌, ◌≡◌, ◌≤◌, ◌<◌, none, some, arith, dec_le, ◌⊎◌, inl, inr, ◌≢◌, ◌↔◌, sym,
  ◌∙◌,
}
use mathlib.Core.Option.{none-ne-some}
use native.Mathlib.Nat.{mul-div_left, sub_self}
use meta_pb.Common.Real.{Real, ZeroLaws}
use meta_pb.Executor.Perf.{PerfStats}
use meta_pb.Operator.Samples.{perf_sample_point, interpolate, deduce}

index_fits : (n step : ℕ) → 0 < step → n < 16 * step → n / step < 16
index_fits n step h k = grind arith

index_past : (n step : ℕ) → 0 < step → 16 * step ≤ n → 16 ≤ n / step
index_past n step h k = grind arith

module _ (R : Real) (samples : ℕ → PerfStats R) where
  -- If the bound's quotient by 15 is positive and no less than its remainder, every deduction is
  -- defined: the first sample for no page block, the last one from the bound on, and in between the
  -- interpolation at the step that the page blocks lie in, one of the first sixteen.
  pub deduce_defined :
      (upper cnt : ℕ)
      → 15 ≤ upper
      → upper % 15 ≤ upper / 15
      → let step = upper / 15 in
        ((cnt ≡ 0) × (deduce R samples upper cnt ≡ some (samples 0)))
        ⊎ ((0 < cnt)
            × (upper ≤ cnt)
            × (deduce R samples upper cnt ≡ some (samples perf_sample_point)))
        ⊎ ((0 < cnt)
            × (cnt < upper)
            × (cnt / step < 16)
            × (deduce R samples upper cnt ≡ some (interpolate R samples step cnt)))
  unfolding deduce
  deduce_defined upper cnt h k = elim (dec_le cnt 0) [
    | yes z ↦ inl (omega arith, ground arith)
    | no p ↦ elim (dec_le upper cnt) [
      | yes b ↦ inr (inl (omega arith, b, ground arith))
      | no l ↦
          let fits = index_fits cnt (upper / 15) (omega arith) (omega arith) in
          inr (inr (omega arith, omega arith, fits, ground arith))
    ]
  ]

  -- On a sample's page blocks the interpolation is the sample.
  pub interpolate-mul :
      (laws : ZeroLaws R) (i step : ℕ)
      → 0 < step
      → interpolate R samples step (i * step) ≡ samples i
  unfolding interpolate
  interpolate-mul laws i step h =
      rw (mul-div_left i h, sub_self (i * step))
        (simp (laws.mul_zero, laws.zero_div, laws.add_zero))

  -- If the bound is below 15, or its remainder by 15 above its quotient, the deduction for one page
  -- block fewer than the bound divides by zero or reads past the samples.
  deduce_undefined :
      (upper : ℕ)
      → 2 ≤ upper
      → (upper < 15) ⊎ (upper / 15 < upper % 15)
      → deduce R samples upper (upper - 1) ≡ none
  unfolding deduce
  deduce_undefined upper h k = ground (arith, index_past (upper - 1) (upper / 15))

  -- For an upper bound of at least two page blocks, the deduction is defined for every number of page
  -- blocks exactly if the bound is at least 15 and its remainder by 15 is not above its quotient.
  pub deduce_total :
      (upper : ℕ)
      → 2 ≤ upper
      → ((cnt : ℕ) → deduce R samples upper cnt ≢ none) ↔ ((15 ≤ upper) × (upper % 15 ≤ upper / 15))
  deduce_total upper h = (λ total. (at_least total, fits total), λ k cnt. defined k cnt)
    where
      Total : Type 0
      Total = (cnt : ℕ) → deduce R samples upper cnt ≢ none

      at_least : Total → 15 ≤ upper
      at_least total = elim (dec_le 15 upper) [
        | yes y ↦ y
        | no n ↦ absurd (total (upper - 1) (deduce_undefined upper h (inl (omega arith))))
      ]

      fits : Total → upper % 15 ≤ upper / 15
      fits total = elim (dec_le (upper % 15) (upper / 15)) [
        | yes y ↦ y
        | no n ↦ absurd (total (upper - 1) (deduce_undefined upper h (inr (omega arith))))
      ]

      defined :
          (15 ≤ upper) × (upper % 15 ≤ upper / 15) → (cnt : ℕ) → deduce R samples upper cnt ≢ none
      defined k cnt e = elim (deduce_defined upper cnt k.0 k.1) [
        | inl (_, d) ↦ none-ne-some _ (sym e ∙ d)
        | inr (inl (_, _, d)) ↦ none-ne-some _ (sym e ∙ d)
        | inr (inr (_, _, _, d)) ↦ none-ne-some _ (sym e ∙ d)
      ]
