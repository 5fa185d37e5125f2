-- ===== src/Optimizer/Explore/Bounds.antt =====
-- The explorations and the limits of the search.
use meta_pb.Common.{
  ℕ, zero, suc, ◌≡◌, refl, ap, List, [], ◌∷◌, inl, inr, length, All, Bool-cases, false,
}
use meta_pb.Common.Real.{Real, Le}
use meta_pb.Optimizer.Search.{Point, Frame, Search, exec, back}
use meta_pb.Optimizer.Search.Exec.{exec-frames}
use meta_pb.Optimizer.Explore.{Math, Limits, at, clamp, point_of, frame_of, limited}
use meta_pb.Optimizer.Explore.Swarm.{Swarm}
use meta_pb.Optimizer.Explore.Arithmetic.{Arithmetic}
use meta_pb.Optimizer.Explore.Reptile.{Reptile}
use meta_pb.Optimizer.Explore.Naive.{
  explore_naive, drift_frame, drift_point, optimizer_naive, Drift, Noise,
}

module _ {R : Real} (l : Limits R) where
  -- No coordinate, from dimension `i` on, compares below its lower or above its upper limit.
  abbrev pub InLimits : ℕ → Point R → Type 0
  InLimits i [] = Unit
  InLimits i (x ∷ xs) =
      Le R (at R l.lower_limits i) x × Le R x (at R l.upper_limits i) × InLimits (suc i) xs

  -- The limits are the right way round.
  abbrev pub Ordered : Type 0
  Ordered = (dim : ℕ) → Le R (at R l.lower_limits dim) (at R l.upper_limits dim)

  -- A frame of `pointNum` points with `dimNum` coordinates each, all within the limits.
  abbrev pub Proper : Frame R → Type 0
  Proper frame =
      (length frame ≡ l.point_num) × All (λ p. (length p ≡ l.dim_num) × InLimits 0 p) frame

  pub length-frame_of : (point : ℕ → Point R) (n i : ℕ) → length (frame_of R point n i) ≡ n
  unfolding frame_of
  length-frame_of point zero i = refl
  length-frame_of point (suc n) i = ap suc (length-frame_of point n (suc i))

  -- No number compares below itself. The order need not be total: a NaN compares with nothing.
  module _ (lt_irrefl : (a : R.Num) → R.lt a a ≡ false) (ordered : Ordered) where
    clamp-Le :
        (lower upper x : R.Num)
        → Le R lower upper
        → Le R lower (clamp R lower upper x) × Le R (clamp R lower upper x) upper
    unfolding clamp
    clamp-Le lower upper x h = elim (Bool-cases (R.lt upper x)) [
      | inl y ↦ rw (y, h) (h, lt_irrefl upper)
      | inr n ↦ elim (Bool-cases (R.lt x lower)) [
        | inl y ↦ rw (n, y) (lt_irrefl lower, h)
        | inr k ↦ rw (n, k) (k, n)
      ]
    ]

    point_of-InLimits :
        (x : ℕ → R.Num) (n i : ℕ) → InLimits i (point_of R (λ dim. limited R l dim (x dim)) n i)
    unfolding point_of limited
    point_of-InLimits x zero i = tt
    point_of-InLimits x (suc n) i =
        let (lo, hi) = clamp-Le (at R l.lower_limits i) (at R l.upper_limits i) (x i) (ordered i) in
        (lo, hi, point_of-InLimits x n (suc i))

    drift_frame-InLimits :
        (math : Math R) (noise : Noise R) (optima : Point R) (t : Drift) (frame : Frame R) (i : ℕ)
        → All (InLimits 0) (drift_frame R math l noise optima t frame i)
    unfolding drift_frame drift_point
    drift_frame-InLimits math noise optima t [] i = tt
    drift_frame-InLimits math noise optima t (p ∷ ps) i =
        (point_of-InLimits _ (length p) 0, drift_frame-InLimits math noise optima t ps (suc i))

    module _ (evaluate : Frame R → List R.Num) (math : Math R) (n : ℕ) (s : Search R) where
      -- The naive optimizer, for any draws, explores only points of which no coordinate compares below
      -- its lower or above its upper limit, if it starts on such points, the lower limits are not above
      -- the upper ones and no number compares below itself.
      pub exec-InLimits :
          (noise : Noise R) (optima : Point R) (drift : Drift)
          → All (λ frame. All (InLimits 0) frame) s.pt_history
          → All
              (λ frame. All (InLimits 0) frame)
              (exec R evaluate (optimizer_naive R math l noise optima) n s drift).0.pt_history
      unfolding explore_naive
      exec-InLimits noise optima drift h =
          exec-frames evaluate (optimizer_naive R math l noise optima)
            (λ frame. All (InLimits 0) frame)
            (λ s' t. drift_frame-InLimits math noise optima t (back R s'.pt_history) 0) n s drift h
