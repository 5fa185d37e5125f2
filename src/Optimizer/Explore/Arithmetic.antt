-- ===== src/Optimizer/Explore/Arithmetic.antt =====
-- `OptimizerAOA` of include/Optimizer/OptimizerAOA.hpp and implements/OptimizerAOA.cpp.
use meta_pb.Common.{ℕ, suc, ◌+◌, ◌*◌, List, ◌∷◌, if◌then◌else◌}
use meta_pb.Common.Real.{Real}
use meta_pb.Optimizer.Search.{Point, Frame, Search, back, Derived}
use meta_pb.Optimizer.Explore.{Math, Limits, at, negate, ratio, point_of, frame_of, limited}

pub record Arithmetic (R : Real) : Type 0 where
  pub curr_iter_idx : ℕ
  pub g_worst_val : R.Num
  pub g_worst_pt : Point R
  pub arg_w : R.Num
  pub arg_mop : R.Num
  pub draws : ℕ

module _ (R : Real) (math : Math R) (l : Limits R) (random : ℕ → R.Num) where
  open R use {one, add, sub, mul, div, lt}

  abbrev arg_alpha : R.Num
  arg_alpha = ratio R 1 2

  abbrev arg_mu : R.Num
  arg_mu = ratio R 1 2

  -- The worst point, over the last frame.
  unfoldable pub worst : Frame R → List R.Num → Point R → R.Num → Point R × R.Num
  worst (p ∷ ps) (v ∷ vs) q w = if lt w v then worst ps vs p v else worst ps vs q w
  worst _ _ q w = (q, w)

  unfoldable pub extract_arithmetic : Search R → Arithmetic R → Arithmetic R
  unfolding worst
  extract_arithmetic s t =
      let idx = suc t.curr_iter_idx in
      let x = R.of_ℕ idx in
      let bad = worst (back R s.pt_history) (back R s.val_history) t.g_worst_pt t.g_worst_val in
      record t {
        curr_iter_idx = idx;
        arg_w =
            add (add (mul (div (negate R (R.of_ℕ 2)) math.pi) (math.atan x)) one)
              (mul (ratio R 1 2) (math.exp (div (negate R x) (R.of_ℕ 5))));
        arg_mop = sub one (
            div (math.pow x (div one arg_alpha))
              (math.pow (R.of_ℕ l.iter_num) (div one arg_alpha)));
        g_worst_pt = bad.0;
        g_worst_val = bad.1;
      }

  -- The draw `r1` of a coordinate; `r2` and `r3` are the next ones.
  abbrev first_draw : Arithmetic R → ℕ → ℕ → ℕ
  first_draw t i dim = t.draws + 3 * (i * l.dim_num + dim)

  -- What the four branches propose for point `i` in a dimension.
  unfoldable pub propose_arithmetic : Search R → Arithmetic R → ℕ → ℕ → R.Num
  propose_arithmetic s t i dim =
      let upper = at R l.upper_limits dim in
      let lower = at R l.lower_limits dim in
      let moa =
        add (ratio R 2 10)
          (mul (R.of_ℕ t.curr_iter_idx) (div (ratio R 8 10) (R.of_ℕ l.iter_num))) in
      let r1 = random (first_draw t i dim) in
      let r2 = random (first_draw t i dim + 1) in
      let r3 = random (first_draw t i dim + 2) in
      let best = at R s.g_best_pt dim in
      let scale = add (mul (sub upper lower) arg_mu) lower in
      if lt r1 moa
      then (if lt (ratio R 1 2) r2
          then mul (div best (add t.arg_mop math.dbl_min)) scale
          else mul (mul best t.arg_mop) scale)
      else (if lt (ratio R 1 2) r3
          then sub best (mul t.arg_mop scale)
          else add best (mul t.arg_mop scale))

  unfoldable pub explore_arithmetic : Search R → Arithmetic R → Frame R × Arithmetic R
  unfolding propose_arithmetic frame_of point_of limited
  explore_arithmetic s t = (
    frame_of R (λ i. point_of R (λ dim. limited R l dim (propose_arithmetic s t i dim)) l.dim_num 0)
        l.point_num 0,
    record t { draws = t.draws + 3 * (l.point_num * l.dim_num) },
  )

  abbrev pub optimizer_aoa : Derived R
  optimizer_aoa = record {
    State = Arithmetic R;
    extraction = extract_arithmetic;
    exploration = explore_arithmetic;
  }
