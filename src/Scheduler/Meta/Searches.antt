-- ===== src/Scheduler/Meta/Searches.antt =====
-- `MetaScheduler::schedule` as a whole: the three optimizers over `evalSchedules`, and the choice among
-- them. The random draws are parameters, and so are the limits of `float`.
pub mod Found
use Prim.Native.String.{String}
use meta_pb.Common.{ℕ, zero, List, [], ◌∷◌, Option, none, some, get_elem?, map, replicate}
use meta_pb.Common.Real.{Real}
use meta_pb.Executor.Graph.{TaskGraph, Schedule, num_vertices}
use meta_pb.Optimizer.Search.{
  Point, Frame, Search, Derived, first_frame, exec, get_cumulate_points_history,
}
use meta_pb.Optimizer.Explore.{Math, Limits, ratio, negate, first_frm}
use meta_pb.Optimizer.Explore.Swarm.{optimizer_pso, start_swarm}
use meta_pb.Optimizer.Explore.Arithmetic.{Arithmetic, optimizer_aoa}
use meta_pb.Optimizer.Explore.Reptile.{Reptile, Chances, optimizer_rsa}
use meta_pb.Scheduler.Meta.{best_optimizer, meta_schedule}

-- The draws of the optimizers, by point and dimension for first frames and first velocities, and one
-- by one in the explorations; and what the members hold that no initialiser sets.
pub record Draws (R : Real) : Type 0 where
  pub pso_points : ℕ → ℕ → R.Num
  pub aoa_points : ℕ → ℕ → R.Num
  pub rsa_points : ℕ → ℕ → R.Num
  pub velocities : ℕ → ℕ → R.Num
  pub pso_random : ℕ → R.Num
  pub aoa_random : ℕ → R.Num
  pub chances : Chances R
  pub unset : R.Num

-- `OptimizerInfos`; the histories have their back first.
pub record OptimizerInfos (R : Real) : Type 0 where
  pub optimizer_name : String
  pub total_pt_frm : Frame R
  pub converge_pt_frm : List (Point R)
  pub total_val_hist : List (List R.Num)
  pub converge_val_frm : List R.Num

module _ (R : Real) (math : Math R) (draws : Draws R) (max_val min_val : R.Num) where
  open R use {zero, mul, div, of_ℕ}

  -- The limits, and the numbers of dimensions, points and rounds.
  unfoldable pub meta_limits : (n_task opt_iter_max : ℕ) → Limits R
  meta_limits n_task opt_iter_max = record {
    lower_limits = replicate n_task (negate R (of_ℕ 100));
    upper_limits = replicate n_task (of_ℕ 100);
    dim_num = n_task;
    point_num = 32;
    iter_num = opt_iter_max;
  }

  abbrev pub dt : R.Num
  dt = ratio R 7 100

  -- `2 * (200.0 / (OptIterMax * dt))`.
  abbrev pub v_max : ℕ → R.Num
  v_max opt_iter_max = mul (of_ℕ 2) (div (of_ℕ 200) (mul (of_ℕ opt_iter_max) dt))

  -- The members of a new `OptimizerAOA`; `gWorstVal` is `numeric_limits::min()`.
  abbrev pub start_arithmetic : Arithmetic R
  start_arithmetic = record {
    curr_iter_idx = 0;
    g_worst_val = min_val;
    g_worst_pt = [];
    arg_w = draws.unset;
    arg_mop = draws.unset;
    draws = 0;
  }

  abbrev pub start_reptile : Reptile R
  start_reptile = record { curr_iter_idx = 0; evo_sense = draws.unset; draws = 0 }

  module _ (evaluate : Frame R → List R.Num) (n_task opt_iter_max : ℕ) where
    abbrev pub limits : Limits R
    limits = meta_limits n_task opt_iter_max

    -- A constructor's first frame, and `exec`.
    abbrev pub search_from : (d : Derived R) → d.State → Option (Frame R) → Option (Search R)
    search_from d t none = none
    search_from d t (some frame) =
        some (exec R evaluate d opt_iter_max (first_frame R max_val frame) t).0

    abbrev pub all_searches :
        Option (Search R) → Option (Search R) → Option (Search R) → Option (List (Search R))
    all_searches (some a) (some b) (some c) = some (a ∷ b ∷ c ∷ [])
    all_searches _ _ _ = none

    -- `oVec`, after each has run.
    unfoldable pub run_optimizers : Option (List (Search R))
    run_optimizers =
        all_searches
          (search_from (optimizer_pso R limits draws.pso_random draws.chances.stray)
            (start_swarm R limits draws.pso_random draws.chances.stray (v_max opt_iter_max)
              (ratio R 8 10) dt (ratio R 6 10) max_val draws.velocities)
            (first_frm R limits draws.pso_points))
          (search_from (optimizer_aoa R math limits draws.aoa_random) start_arithmetic
            (first_frm R limits draws.aoa_points))
          (search_from (optimizer_rsa R math limits draws.chances) start_reptile
            (first_frm R limits draws.rsa_points))

  abbrev pub schedule_of :
      (round : R.Num → R.Num)
      → (first_best : R.Num) → TaskGraph R
      → (heft_order : List ℕ) → Option (List (Search R))
      → Option (Schedule R)
  schedule_of round first_best g heft_order none = none
  schedule_of round first_best g heft_order (some searches) =
      meta_schedule R round first_best g heft_order searches

  -- `schedule`; `firstBest` is 666666666.6.
  unfoldable pub run_meta :
      (round : R.Num → R.Num)
      → (first_best : R.Num) → (evaluate : Frame R → List R.Num) → (g : TaskGraph R)
      → (heft_order : List ℕ) → (opt_iter_max : ℕ) → Option (Schedule R)
  unfolding meta_schedule
  run_meta round first_best evaluate g heft_order opt_iter_max =
      schedule_of round first_best g heft_order
        (run_optimizers evaluate (num_vertices R g) opt_iter_max)

abbrev pub optimizer_names : List String
optimizer_names = "PSO" ∷ "AOA" ∷ "RSA" ∷ []

module _ (R : Real) where
  abbrev pub infos_of : Option String → Option (Search R) → Option (OptimizerInfos R)
  infos_of (some name) (some s) = some (record {
    optimizer_name = name;
    total_pt_frm = get_cumulate_points_history R s;
    converge_pt_frm = s.g_best_pt_hist;
    total_val_hist = s.val_history;
    converge_val_frm = s.g_best_val_hist;
  })
  infos_of _ _ = none

  abbrev pub infos_at : List (Search R) → Option ℕ → Option (OptimizerInfos R)
  infos_at searches none = none
  infos_at searches (some i) = infos_of (get_elem? optimizer_names i) (get_elem? searches i)

  -- `optInfo`, of the optimizer that is chosen.
  unfoldable pub opt_info : (first_best : R.Num) → List (Search R) → Option (OptimizerInfos R)
  unfolding best_optimizer get_cumulate_points_history
  opt_info first_best searches =
      infos_at searches (best_optimizer R (map (λ s. s.g_best_val) searches) 0 none first_best)
