-- ===== src/Optimizer/Explore/Swarm.antt =====
-- `OptimizerPSO` of include/Optimizer/OptimizerPSO.hpp and implements/OptimizerPSO.cpp.
use meta_pb.Common.{ℕ, suc, ◌+◌, ◌*◌, List, [], ◌∷◌, if◌then◌else◌, get_or, replicate}
use meta_pb.Common.Real.{Real}
use meta_pb.Optimizer.Search.{Point, Frame, Search, back, Derived}
use meta_pb.Optimizer.Explore.{Limits, at, negate, point_of, frame_of, limited}

pub record Swarm (R : Real) : Type 0 where
  pub v_max : R.Num
  pub omega : R.Num
  pub dt : R.Num
  pub ego : R.Num
  pub p_best_pts : List (Point R)
  pub p_best_vals : List R.Num
  pub velocities : List (Point R)
  pub draws : ℕ

-- `stray` is what C++ reads from a best point that is still empty: any value, for each read.
module _ (R : Real) (l : Limits R) (random stray : ℕ → R.Num) where
  open R use {add, sub, mul, div, lt}

  -- The constructor, on velocities drawn between -`vMax` and `vMax`.
  unfoldable pub start_swarm :
      (v_max omega dt ego max_val : R.Num) → (drawn : ℕ → ℕ → R.Num) → Swarm R
  unfolding frame_of point_of
  start_swarm v_max omega dt ego max_val drawn = record {
    v_max = v_max;
    omega = omega;
    dt = dt;
    ego = ego;
    p_best_pts = replicate l.point_num [];
    p_best_vals = replicate l.point_num max_val;
    velocities =
        frame_of R
          (λ i.
            point_of R
              (λ dim. mul (drawn i dim) (sub (at R l.upper_limits dim) (at R l.lower_limits dim)))
              l.dim_num 0)
          l.point_num 0;
    draws = 0;
  }

  -- The loop of `extraction`, over the values and the points of the last frame, from place `i` on.
  unfoldable pub remember :
      Frame R → List R.Num → List (Point R) → List R.Num → List (Point R) × List R.Num
  remember (p ∷ ps) (v ∷ vs) (q ∷ qs) (w ∷ ws) =
      let rest = remember ps vs qs ws in
      if lt v w then (p ∷ rest.0, v ∷ rest.1) else (q ∷ rest.0, w ∷ rest.1)
  remember _ _ qs ws = (qs, ws)

  unfoldable pub extract_swarm : Search R → Swarm R → Swarm R
  unfolding remember
  extract_swarm s t =
      let best = remember (back R s.pt_history) (back R s.val_history) t.p_best_pts t.p_best_vals in
      record t { p_best_pts = best.0; p_best_vals = best.1 }

  -- The draw `r1` of a coordinate; `r2` is the next one.
  abbrev first_draw : Swarm R → ℕ → ℕ → ℕ
  first_draw t i dim = t.draws + 2 * (i * l.dim_num + dim)

  -- The new velocity of point `i` in a dimension.
  unfoldable pub new_velocity : Search R → Swarm R → ℕ → ℕ → R.Num
  new_velocity s t i dim =
      let mine = at R (get_or (back R s.pt_history) i []) dim in
      let r1 = random (first_draw t i dim) in
      let r2 = random (suc (first_draw t i dim)) in
      let v_upper = mul t.v_max (sub (at R l.upper_limits dim) (at R l.lower_limits dim)) in
      let v_lower = negate R v_upper in
      let v =
        add
          (add (mul t.omega (at R (get_or t.velocities i []) dim)) (
            mul (mul r1 t.ego)
              (sub (get_or (get_or t.p_best_pts i []) dim (stray (first_draw t i dim))) mine)))
          (mul (div r2 t.ego)
            (sub (get_or s.g_best_pt dim (stray (suc (first_draw t i dim)))) mine)) in
      let w = if lt v_upper v then v_upper else v in if lt w v_lower then v_lower else w

  unfoldable pub swarm_coordinate : Search R → Swarm R → ℕ → ℕ → R.Num
  unfolding new_velocity limited
  swarm_coordinate s t i dim =
      limited R l dim
        (add (at R (get_or (back R s.pt_history) i []) dim) (mul (new_velocity s t i dim) t.dt))

  unfoldable pub explore_swarm : Search R → Swarm R → Frame R × Swarm R
  unfolding swarm_coordinate frame_of point_of
  explore_swarm s t = (
    frame_of R (λ i. point_of R (swarm_coordinate s t i) l.dim_num 0) l.point_num 0,
    record t {
      velocities = frame_of R (λ i. point_of R (new_velocity s t i) l.dim_num 0) l.point_num 0;
      draws = t.draws + 2 * (l.point_num * l.dim_num);
    },
  )

  abbrev pub optimizer_pso : Derived R
  optimizer_pso = record {
    State = Swarm R;
    extraction = extract_swarm;
    exploration = explore_swarm;
  }
