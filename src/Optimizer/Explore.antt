-- ===== src/Optimizer/Explore.antt =====
-- The four derived optimizers of include/Optimizer: `OptimizerPSO`, `OptimizerAOA`, `OptimizerRSA` and
-- `OptimizerNaive`, for `float` arguments and values, and the first frame that the constructor of
-- `OptimizerBase` draws. The draws from the random distributions are a sequence, of which each
-- exploration takes its part; each optimizer counts the draws it has taken.
pub mod Swarm
pub mod Arithmetic
pub mod Reptile
pub mod Naive
pub mod Bounds
use meta_pb.Common.{ℕ, zero, suc, List, [], ◌∷◌, Option, none, some, if◌then◌else◌, get_or, ltb}
use meta_pb.Common.Real.{Real}
use meta_pb.Optimizer.Search.{Point, Frame}

-- The functions and constants of the C library that the explorations use.
pub record Math (R : Real) : Type 0 where
  pub pow : R.Num → R.Num → R.Num
  pub atan : R.Num → R.Num
  pub exp : R.Num → R.Num
  pub ceil : R.Num → R.Num
  pub pi : R.Num
  pub dbl_min : R.Num

-- What the constructor of `OptimizerBase` keeps.
pub record Limits (R : Real) : Type 0 where
  pub lower_limits : Point R
  pub upper_limits : Point R
  pub dim_num : ℕ
  pub point_num : ℕ
  pub iter_num : ℕ

module _ (R : Real) where
  -- A decimal fraction, which the compiler rounds as the division does.
  abbrev pub ratio : ℕ → ℕ → R.Num
  ratio a b = R.div (R.of_ℕ a) (R.of_ℕ b)

  abbrev pub negate : R.Num → R.Num
  negate a = R.sub R.zero a

  abbrev pub at : List R.Num → ℕ → R.Num
  at xs i = get_or xs i R.zero

  -- The two last assignments of an exploration to a coordinate.
  unfoldable pub clamp : (lower upper : R.Num) → R.Num → R.Num
  clamp lower upper x =
      let y = if R.lt upper x then upper else x in if R.lt y lower then lower else y

  -- The loop over the dimensions, for the coordinates from `i` on.
  unfoldable pub point_of : (ℕ → R.Num) → (n i : ℕ) → Point R
  point_of coordinate zero i = []
  point_of coordinate (suc n) i = coordinate i ∷ point_of coordinate n (suc i)

  -- The loop over the points.
  unfoldable pub frame_of : (ℕ → Point R) → (n i : ℕ) → Frame R
  frame_of point zero i = []
  frame_of point (suc n) i = point i ∷ frame_of point n (suc i)

  module _ (l : Limits R) where
    -- A coordinate that an exploration proposes, brought into the limits of its dimension.
    unfoldable pub limited : ℕ → R.Num → R.Num
    unfolding clamp
    limited dim x = clamp (at l.lower_limits dim) (at l.upper_limits dim) x

    unfoldable pub grid_point : ℕ → Point R
    unfolding point_of
    grid_point i =
        point_of
          (λ dim. R.add (at l.lower_limits dim) (
            R.div (R.mul (R.sub (at l.upper_limits dim) (at l.lower_limits dim)) (R.of_ℕ i))
              (R.of_ℕ 10)))
          l.dim_num 0

    -- The constructor's first frame: points drawn between the limits, of which ten points of a grid
    -- take the place of the first ten; with fewer than ten points it writes out of bounds.
    unfoldable pub first_frm : (drawn : ℕ → ℕ → R.Num) → Option (Frame R)
    unfolding grid_point point_of frame_of
    first_frm drawn =
        if ltb l.point_num 10
        then none
        else some (
            frame_of (λ i. if ltb i 10 then grid_point i else point_of (drawn i) l.dim_num 0)
              l.point_num 0)
