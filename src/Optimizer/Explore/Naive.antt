-- ===== src/Optimizer/Explore/Naive.antt =====
-- `OptimizerNaive` of include/Optimizer/OptimizerNaive.hpp and implements/OptimizerNaive.cpp. Its
-- `iterCounter` is never written, so that the probabilities are the same in each exploration; the
-- draws of both distributions are parameters.
use meta_pb.Common.{ℕ, suc, ◌-◌, [], ◌∷◌, Bool, if◌then◌else◌, length}
use meta_pb.Common.Real.{Real}
use meta_pb.Optimizer.Search.{Point, Frame, Search, back, Derived}
use meta_pb.Optimizer.Explore.{Math, Limits, at, negate, point_of, limited}

-- The explorations made so far.
pub record Drift : Type 0 where
  pub rounds : ℕ

-- The draws of `noiseDist` for a point, and of `ratioDist` for a point and a dimension, in a round.
pub record Noise (R : Real) : Type 0 where
  pub is_noise : ℕ → ℕ → Bool
  pub ratio_dist : ℕ → ℕ → ℕ → R.Num

module _ (R : Real) (math : Math R) (l : Limits R) (noise : Noise R) (optima : Point R) where
  open R use {add, sub, mul, div, lt}

  unfoldable pub drift_velocity : Drift → Point R → ℕ → ℕ → R.Num
  drift_velocity t point i dim =
      let noisy = noise.is_noise t.rounds i in
      let chance = noise.ratio_dist t.rounds i dim in
      let diff = sub (at R optima dim) (at R point dim) in
      let velocity =
        if noisy then math.ceil (mul (negate R diff) chance) else math.ceil (mul diff chance) in
      let ration = mul (div diff (R.of_ℕ (l.iter_num - 0 - 1))) (R.of_ℕ 20) in
      if lt ration velocity then (if noisy then negate R ration else ration) else velocity

  unfoldable pub drift_point : Drift → Point R → ℕ → Point R
  unfolding drift_velocity limited point_of
  drift_point t point i =
      point_of R (λ dim. limited R l dim (add (at R point dim) (drift_velocity t point i dim)))
        (length point) 0

  -- The loop over the points of the last frame.
  unfoldable pub drift_frame : Drift → Frame R → ℕ → Frame R
  unfolding drift_point
  drift_frame t [] i = []
  drift_frame t (p ∷ ps) i = drift_point t p i ∷ drift_frame t ps (suc i)

  unfoldable pub explore_naive : Search R → Drift → Frame R × Drift
  unfolding drift_frame
  explore_naive s t = (drift_frame t (back R s.pt_history) 0, record { rounds = suc t.rounds })

  abbrev pub optimizer_naive : Derived R
  optimizer_naive = record { State = Drift; extraction = λ s t. t; exploration = explore_naive }
