-- ===== src/Operator/Samples.antt =====
-- `OperatorBase` of include/Operator/OperatorBase.hpp and src/Operator/OperatorBase.cpp: the samples
-- of an operator's performance, their training, and the interpolation between them. `none` is what
-- C++ leaves undefined: a division by zero, or an index past the end of an array.
pub mod Deduce
pub mod Loop
pub mod Train
pub mod File
pub mod Probing
use mathlib.Core.Option
use meta_pb.Common.{
  List, [], ◌∷◌, ℕ, zero, suc, ◌+◌, ◌-◌, ◌*◌, ◌/◌, Bool, true, false, Option, none, some, leb,
  if◌then◌else◌, ◌==◌, not, ◌&&◌,
}
use meta_pb.Common.Real.{Real}
use meta_pb.Operator.Pages.{u32}
use meta_pb.Executor.Perf.{PerfStats, zero_perf, perf_add, perf_sub, perf_mul, perf_div}

abbrev pub perf_sample_point : ℕ
perf_sample_point = 16

-- The arrays `CPUPerfSamples` and `DPUPerfSamples`, of `PERF_SAMPLE_POINT + 1` entries each. The
-- source's `isTrained` is one flag of all operators, which the model keeps for each as it is written.
pub record Model (R : Real) : Type 0 where
  pub deduce_page_blk_upper_bound : ℕ
  pub cpu_perf_samples : ℕ → PerfStats R
  pub dpu_perf_samples : ℕ → PerfStats R
  pub is_trained : Bool

module _ (R : Real) where
  -- A model as it is constructed.
  abbrev pub untrained : Model R
  untrained = record {
    deduce_page_blk_upper_bound = 0;
    cpu_perf_samples = λ _. zero_perf R;
    dpu_perf_samples = λ _. zero_perf R;
    is_trained = false;
  }

  -- The value on the line through the samples at both ends of a step.
  unfoldable pub interpolate : (ℕ → PerfStats R) → (step cnt : ℕ) → PerfStats R
  unfolding perf_add perf_sub perf_mul perf_div
  interpolate samples step cnt =
      let index = cnt / step in
      let x0 = index * step in
      let x1 = x0 + step in
      let y0 = samples index in
      let y1 = samples (index + 1) in
      perf_add R y0 (perf_div R (perf_mul R (perf_sub R y1 y0) (cnt - x0)) (x1 - x0))

  -- `deducePerfCPU` and `deducePerfDPU`, which differ in the array.
  unfoldable pub deduce : (ℕ → PerfStats R) → (upper cnt : ℕ) → Option (PerfStats R)
  unfolding interpolate
  deduce samples upper cnt =
      let step = upper / (perf_sample_point - 1) in
      if cnt == 0
      then some (samples 0)
      else if leb upper cnt
      then some (samples perf_sample_point)
      else if step == 0
      then none
      else if leb perf_sample_point (cnt / step)
      then none
      else some (interpolate samples step cnt)

  unfoldable pub deduce_perf_cpu : Model R → ℕ → Option (PerfStats R)
  deduce_perf_cpu m cnt = deduce m.cpu_perf_samples m.deduce_page_blk_upper_bound cnt

  unfoldable pub deduce_perf_dpu : Model R → ℕ → Option (PerfStats R)
  deduce_perf_dpu m cnt = deduce m.dpu_perf_samples m.deduce_page_blk_upper_bound cnt

  infixl 5 ◌>>=◌
  abbrev ◌>>=◌ : {A B : Type 0} → Option A → (A → Option B) → Option B
  none >>= f = none
  some a >>= f = f a

  -- `samples[i] = y`.
  abbrev pub set_sample : (ℕ → PerfStats R) → ℕ → PerfStats R → ℕ → PerfStats R
  set_sample samples i y j = if i == j then y else samples j

  -- The arrays in the loop of `trainModel`; `none` after a write past their end, or when the fuel has
  -- run out.
  pub record Arrays : Type 0 where
    pub cpu : ℕ → PerfStats R
    pub dpu : ℕ → PerfStats R

  -- What `trainModel` sets after its loop.
  abbrev pub set_trained : ℕ → Option Arrays → Option (Model R)
  set_trained upper none = none
  set_trained upper (some a) = some (record {
    deduce_page_blk_upper_bound = upper;
    cpu_perf_samples = a.cpu;
    dpu_perf_samples = a.dpu;
    is_trained = true;
  })

  module _ (probe_cpu probe_dpu : ℕ → PerfStats R) (is_cpu_only : Bool) where
    -- `execCPUwithProbe` and `execDPUwithProbe` measure; their results are parameters.
    unfoldable pub take_sample : Arrays → ℕ → ℕ → Arrays
    take_sample a i cnt = record {
      cpu = set_sample a.cpu i (probe_cpu cnt);
      dpu = if is_cpu_only then a.dpu else set_sample a.dpu i (probe_dpu cnt);
    }

    unfoldable pub train_loop : (fuel step upper cnt sample_idx : ℕ) → Arrays → Option Arrays
    unfolding take_sample
    train_loop zero step upper cnt i a = none
    train_loop (suc fuel) step upper cnt i a =
        let rest = train_loop fuel step upper (u32 (cnt + step)) (i + 1) (take_sample a i cnt) in
        if leb cnt upper then (if leb i perf_sample_point then rest else none) else some a

    -- `trainModel` where no cached model is found; 19 rounds are one more than the arrays allow.
    unfoldable pub train_new : Model R → ℕ → Option (Model R)
    train_new m upper = set_trained upper (
        train_loop 19 (upper / (perf_sample_point - 1)) upper 0 0
          (record { cpu = m.cpu_perf_samples; dpu = m.dpu_perf_samples }))

  -- The rows of a file of samples, read into an array from its start.
  unfoldable pub load_perf_samples :
      (ℕ → PerfStats R) → ℕ → List (PerfStats R) → Option (ℕ → PerfStats R)
  load_perf_samples dst i [] = some dst
  load_perf_samples dst i (row ∷ rows) =
      let rest = load_perf_samples (set_sample dst i row) (i + 1) rows in
      if leb i perf_sample_point then rest else none

  abbrev loaded : Model R → ℕ → Model R × Bool
  loaded m upper = (record m { is_trained = true; deduce_page_blk_upper_bound = upper }, true)

  -- `loadModelCacheIfExist`: a file is its rows, `none` if it is not there. An operator that is not
  -- trainable needs no file.
  unfoldable pub load_model_cache :
      (is_trainable is_cpu_only : Bool)
      → (cpu_file dpu_file : Option (List (PerfStats R))) → Model R
      → ℕ
      → Option (Model R × Bool)
  unfolding load_perf_samples
  load_model_cache false only cpu_file dpu_file m upper = some (loaded m upper)
  load_model_cache true only none dpu_file m upper = some (m, false)
  load_model_cache true true (some rows) dpu_file m upper =
      Option.map (λ c. loaded (record m { cpu_perf_samples = c }) upper)
        (load_perf_samples m.cpu_perf_samples 0 rows)
  load_model_cache true false (some rows) none m upper =
      Option.map (λ c. (record m { cpu_perf_samples = c }, false))
        (load_perf_samples m.cpu_perf_samples 0 rows)
  load_model_cache true false (some rows) (some rows') m upper = do
    c ← load_perf_samples m.cpu_perf_samples 0 rows
    d ← load_perf_samples m.dpu_perf_samples 0 rows'
    some (loaded (record m { cpu_perf_samples = c; dpu_perf_samples = d }) upper)

  -- `trainModel`.
  unfoldable pub train_model :
      (is_trainable is_cpu_only : Bool)
      → (cpu_file dpu_file : Option (List (PerfStats R))) → (probe_cpu probe_dpu : ℕ → PerfStats R)
      → Model R
      → ℕ
      → Option (Model R)
  unfolding load_model_cache train_new
  train_model is_trainable only cpu_file dpu_file probe_cpu probe_dpu m upper = do
    (m', found) ← load_model_cache is_trainable only cpu_file dpu_file m upper
    if not found && is_trainable then train_new probe_cpu probe_dpu only m' upper else some m'
