-- ===== src/Optimizer/Explore/Reptile.antt =====
-- `OptimizerRSA` of include/Optimizer/OptimizerRSA.hpp and implements/OptimizerRSA.cpp.
use meta_pb.Common.{ℕ, suc, ◌+◌, ◌*◌, ◌/◌, [], ◌&&◌, if◌then◌else◌, get_or, leb, ltb}
use meta_pb.Common.Real.{Real}
use meta_pb.Optimizer.Search.{Point, Frame, Search, back, Derived}
use meta_pb.Optimizer.Explore.{Math, Limits, at, ratio, point_of, frame_of, limited}

pub record Reptile (R : Real) : Type 0 where
  pub curr_iter_idx : ℕ
  pub evo_sense : R.Num
  pub draws : ℕ

-- The draws of `dist01`, `choice` and `evoScaleDist`, and `std::reduce`, whose order of additions is
-- not fixed; and what C++ reads from the best point while it is empty: any value, for each read.
pub record Chances (R : Real) : Type 0 where
  pub random : ℕ → R.Num
  pub choice : ℕ → ℕ
  pub evo_scale : ℕ → R.Num
  pub reduce : Point R → R.Num
  pub stray : ℕ → R.Num

module _ (R : Real) (math : Math R) (l : Limits R) (c : Chances R) where
  open R use {one, add, sub, mul, div}

  abbrev arg_alpha : R.Num
  arg_alpha = ratio R 1 10

  abbrev arg_beta : R.Num
  arg_beta = ratio R 5 1000

  unfoldable pub extract_reptile : Search R → Reptile R → Reptile R
  extract_reptile s t =
      let idx = suc t.curr_iter_idx in
      record t {
        curr_iter_idx = idx;
        evo_sense = mul (c.evo_scale idx) (sub one (div (R.of_ℕ idx) (R.of_ℕ l.iter_num)));
      }

  abbrev draw : Reptile R → ℕ → ℕ → ℕ
  draw t i dim = t.draws + (i * l.dim_num + dim)

  -- What the four stages propose for point `i` in a dimension.
  unfoldable pub propose_reptile : Search R → Reptile R → ℕ → ℕ → R.Num
  propose_reptile s t i dim =
      let frame = back R s.pt_history in
      let mine = get_or frame i [] in
      let chosen = at R (get_or frame (c.choice (draw t i dim)) []) dim in
      let chance = c.random (draw t i dim) in
      let best = get_or s.g_best_pt dim (c.stray (draw t i dim)) in
      let mean = div (c.reduce mine) (R.of_ℕ l.dim_num) in
      let dim_range = sub (at R l.upper_limits dim) (at R l.lower_limits dim) in
      let r = sub best (div chosen (add best math.dbl_min)) in
      let p =
        add arg_alpha (div (sub (at R mine dim) mean) (add (mul best dim_range) math.dbl_min)) in
      let eta = mul best p in
      let idx = t.curr_iter_idx in
      if leb idx (l.iter_num / 4)
      then sub (sub best (mul eta arg_beta)) (mul r chance)
      else if leb idx (l.iter_num / 2) && ltb (l.iter_num / 4) idx
      then mul (mul (mul best chosen) t.evo_sense) chance
      else if leb idx (3 * l.iter_num / 4) && ltb (l.iter_num / 2) idx
      then mul (mul best p) chance
      else sub (sub best (mul eta math.dbl_min)) (mul r chance)

  unfoldable pub explore_reptile : Search R → Reptile R → Frame R × Reptile R
  unfolding propose_reptile frame_of point_of limited
  explore_reptile s t = (
    frame_of R (λ i. point_of R (λ dim. limited R l dim (propose_reptile s t i dim)) l.dim_num 0)
        l.point_num 0,
    record t { draws = t.draws + l.point_num * l.dim_num },
  )

  abbrev pub optimizer_rsa : Derived R
  optimizer_rsa = record {
    State = Reptile R;
    extraction = extract_reptile;
    exploration = explore_reptile;
  }
