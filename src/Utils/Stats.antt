-- ===== src/Utils/Stats.antt =====
-- `Stats` of include/utils/Stats.hpp: running statistics of a sequence of values. `Double` adds to the
-- numbers what the statistics need of `double`: the square root, and the largest and the least value.
pub mod Bounds
use meta_pb.Common.{ℕ, ◌+◌, ◌-◌, ◌^◌, if◌then◌else◌, ◌==◌, List, [], ◌∷◌}
use meta_pb.Common.Real.{Real}
use meta_pb.Operator.Pages.{u64}

pub record Double : Type 1 where
  pub real : Real
  pub sqrt : real.Num → real.Num
  pub largest : real.Num
  pub lowest : real.Num

pub record Stats (D : Double) : Type 0 where
  pub rep : ℕ
  pub mean : D.real.Num
  pub variance : D.real.Num
  pub std_var : D.real.Num
  pub upper_bound : D.real.Num
  pub lower_bound : D.real.Num
  pub upper_bias : D.real.Num
  pub lower_bias : D.real.Num
  pub sum : D.real.Num

module _ (D : Double) where
  open D use {real, sqrt, largest, lowest}
  open real use {Num, zero, one, add, sub, mul, div, lt, of_ℕ}

  -- `Stats()`
  unfoldable pub no_stats : Stats D
  no_stats = record {
    rep = 0;
    mean = zero;
    variance = zero;
    std_var = zero;
    upper_bound = lowest;
    lower_bound = largest;
    upper_bias = zero;
    lower_bias = zero;
    sum = zero;
  }

  -- The variance after a value other than the first; `rep` counts it already.
  unfoldable pub next_variance : ℕ → Num → Num → Num → Num
  next_variance rep prev_mean prev_var new_val =
      add (div (mul (of_ℕ (u64 (rep + 2 ^ 64 - 2))) prev_var) (of_ℕ (u64 (rep + 2 ^ 64 - 1))))
        (div (mul (sub new_val prev_mean) (sub new_val prev_mean)) (of_ℕ rep))

  unfoldable pub add_value : Num → Stats D → Stats D
  add_value new_val s =
      let rep : ℕ = u64 (s.rep + 1) in
      let mean : Num = add s.mean (mul (div one (of_ℕ rep)) (sub new_val s.mean)) in
      let variance : Num =
        if rep == 1 then s.variance else next_variance rep s.mean s.variance new_val in
      let upper_bound : Num = if lt s.upper_bound new_val then new_val else s.upper_bound in
      let lower_bound : Num = if lt new_val s.lower_bound then new_val else s.lower_bound in
      record {
        rep = rep;
        mean = mean;
        variance = variance;
        std_var = if rep == 1 then s.std_var else sqrt variance;
        upper_bound = upper_bound;
        lower_bound = lower_bound;
        upper_bias = sub upper_bound mean;
        lower_bias = sub mean lower_bound;
        sum = add s.sum new_val;
      }

  -- The statistics of values, in the order in which they are added.
  unfoldable pub add_values : List Num → Stats D → Stats D
  add_values [] s = s
  add_values (x ∷ xs) s = add_values xs (add_value x s)
