-- ===== src/Scheduler/Meta/Searches/Found.antt =====
-- The searches of the three optimizers end, each with a best point.
use meta_pb.Common.{
  ℕ, suc, ◌<◌, ◌≡◌, refl, List, [], ◌∷◌, map, length, Option, some, ltb, if◌then◌else◌, In, All,
  arith,
}
use meta_pb.Common.Real.{Real, OrderLaws}
use meta_pb.Optimizer.Search.{Point, Frame, Search, Derived, first_frame, exec}
use meta_pb.Optimizer.Search.Cache.{Respects}
use meta_pb.Optimizer.Search.Best.{Least, Attained}
use meta_pb.Optimizer.Search.Exec.{exec-optimum}
use meta_pb.Optimizer.Explore.{Math, Limits, ratio, grid_point, point_of, first_frm, frame_of}
use meta_pb.Optimizer.Explore.Swarm.{Swarm, optimizer_pso, start_swarm, explore_swarm}
use meta_pb.Optimizer.Explore.Arithmetic.{Arithmetic, optimizer_aoa, explore_arithmetic}
use meta_pb.Optimizer.Explore.Reptile.{Reptile, optimizer_rsa, explore_reptile}
use meta_pb.Optimizer.Explore.Bounds.{length-frame_of}
use meta_pb.Scheduler.Meta.Searches.{
  Draws, all_searches, v_max, start_arithmetic, start_reptile, meta_limits, limits, search_from,
  run_optimizers,
}

module _ {R : Real} where
  -- A point of a frame that one of the searches has explored.
  abbrev pub Explored : List (Search R) → Point R → Type 0
  Explored ss p = (s : Search R) × (frame : Frame R) × In s ss × In frame s.pt_history × In p frame

module _ {R : Real} (laws : OrderLaws R) (f : Point R → R.Num) (max_val : R.Num) where
  -- What holds of each search that has ended.
  abbrev pub Found : Search R → Type 0
  Found s = Least laws f max_val s.pt_history s × Attained laws f max_val s.pt_history s

  module _ (math : Math R) (draws : Draws R) (min_val : R.Num) (respects : Respects R f)
      (evaluate : Frame R → List R.Num) (pointwise : (ps : Frame R) → evaluate ps ≡ map f ps)
      (n_task rounds : ℕ) where
    searched-Found :
        (d : Derived R) (t : d.State) (frame : Frame R)
        → ((s : Search R) (t : d.State) → 0 < length (d.exploration s t).0)
        → 0 < length frame
        → Found (exec R evaluate d (suc rounds) (first_frame R max_val frame) t).0
    searched-Found d t frame fills l =
        let (n, v, least, attained) =
          exec-optimum laws f max_val respects evaluate pointwise d fills rounds frame t l in
        (least, attained)

    abbrev meta : Limits R
    meta = limits R math draws max_val min_val evaluate n_task (suc rounds)

    filled : (point : ℕ → Point R) → 0 < length (frame_of R point 32 0)
    filled point = omega (arith, length-frame_of meta point 32 0)

    first_frm-some :
        (drawn : ℕ → ℕ → R.Num)
        → (frame : Frame R) × (first_frm R meta drawn ≡ some frame) × (0 < length frame)
    unfolding first_frm meta_limits
    first_frm-some drawn = (
      frame_of R (λ i. if ltb i 10 then grid_point R meta i else point_of R (drawn i) n_task 0) 32
          0,
      refl,
      filled (λ i. if ltb i 10 then grid_point R meta i else point_of R (drawn i) n_task 0),
    )

    search_from-Found :
        (d : Derived R) (t : d.State) (drawn : ℕ → ℕ → R.Num)
        → ((s : Search R) (t : d.State) → 0 < length (d.exploration s t).0)
        → (s : Search R) × (search_from R math draws max_val min_val evaluate n_task
              (suc rounds)
              d
              t
              (first_frm R meta drawn)
            ≡ some s)
          × Found s
    search_from-Found d t drawn fills =
        let (frame, e, l) = first_frm-some drawn in
        (
          (exec R evaluate d (suc rounds) (first_frame R max_val frame) t).0,
          rw e refl,
          searched-Found d t frame fills l,
        )

    all_found :
        (o o' o'' : Option (Search R)) (a b c : Search R)
        → o ≡ some a
        → o' ≡ some b
        → o'' ≡ some c
        → all_searches R math draws max_val min_val evaluate n_task (suc rounds) o o' o''
          ≡ some (a ∷ b ∷ c ∷ [])
    all_found o o' o'' a b c e h k = rw (e, h, k) refl

    pso_fills :
        (s : Search R) (t : Swarm R)
        → 0 < length (explore_swarm R meta draws.pso_random draws.chances.stray s t).0
    unfolding explore_swarm meta_limits frame_of
    pso_fills s t = omega arith

    aoa_fills :
        (s : Search R) (t : Arithmetic R)
        → 0 < length (explore_arithmetic R math meta draws.aoa_random s t).0
    unfolding explore_arithmetic meta_limits frame_of
    aoa_fills s t = omega arith

    rsa_fills :
        (s : Search R) (t : Reptile R)
        → 0 < length (explore_reptile R math meta draws.chances s t).0
    unfolding explore_reptile meta_limits frame_of
    rsa_fills s t = omega arith

    pub run_optimizers-Found :
        (ss : List (Search R)) × (run_optimizers R math draws max_val min_val evaluate n_task
            (suc rounds)
          ≡ some ss)
        × All Found ss
    unfolding run_optimizers
    run_optimizers-Found =
        let (a, e, p) =
          search_from-Found (optimizer_pso R meta draws.pso_random draws.chances.stray)
            (start_swarm R meta draws.pso_random draws.chances.stray
              (v_max R math draws max_val min_val (suc rounds)) (ratio R 8 10) (ratio R 7 100)
              (ratio R 6 10) max_val draws.velocities)
            draws.pso_points pso_fills in
        let (b, h, q) =
          search_from-Found (optimizer_aoa R math meta draws.aoa_random)
            (start_arithmetic R math draws max_val min_val) draws.aoa_points aoa_fills in
        let (c, k, r) =
          search_from-Found (optimizer_rsa R math meta draws.chances)
            (start_reptile R math draws max_val min_val) draws.rsa_points rsa_fills in
        (a ∷ b ∷ c ∷ [], all_found _ _ _ a b c e h k, (p, (q, (r, tt))))
