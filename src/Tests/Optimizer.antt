-- ===== src/Tests/Optimizer.antt =====
-- A search over two points of one dimension.
use meta_pb.Common.{
  ℕ, zero, suc, ◌+◌, ◌≡◌, ◌<◌, refl, List, [], ◌∷◌, false, All, arith, map, length, get_or,
}
use mathlib.Core.Bool.{false≢true}
use meta_pb.Optimizer.Search.{Point, Frame, Search, first_frame, exploitation, exec, lex_lt}
use meta_pb.Optimizer.Search.Cache.{Sound, Respects, exploitation-Sound}
use meta_pb.Optimizer.Search.Best.{Least, Attained}
use meta_pb.Optimizer.Search.Exec.{exec-optimum}
use meta_pb.Optimizer.Explore.{Limits, Math, frame_of}
use meta_pb.Optimizer.Explore.Swarm.{Swarm, optimizer_pso, start_swarm, explore_swarm}
use meta_pb.Optimizer.Explore.Arithmetic.{Arithmetic}
use meta_pb.Optimizer.Explore.Reptile.{Reptile, Chances}
use meta_pb.Optimizer.Explore.Naive.{Drift, Noise, optimizer_naive}
use meta_pb.Optimizer.Explore.Bounds.{InLimits, Ordered, exec-InLimits}
use meta_pb.Tests.Numbers.{nat_real, nat_order}

-- The first coordinate, doubled.
abbrev cost : Point nat_real → ℕ
cost p = get_or p 0 0 + get_or p 0 0

cost-Respects : Respects nat_real cost
unfolding lex_lt
cost-Respects [] [] h = refl
cost-Respects [] (b ∷ ys) h = absurd (false≢true h)
cost-Respects (a ∷ xs) [] h = absurd (false≢true h)
cost-Respects (a ∷ xs) (b ∷ ys) h = ground arith

abbrev limits : Limits nat_real
limits = record {
  lower_limits = 1 ∷ [];
  upper_limits = 9 ∷ [];
  dim_num = 1;
  point_num = 2;
  iter_num = 4;
}

limits-Ordered : Ordered limits
limits-Ordered zero = refl
limits-Ordered (suc dim) = refl

abbrev frame : Frame nat_real
frame = (5 ∷ []) ∷ (3 ∷ []) ∷ []

abbrev random : ℕ → ℕ
random i = i

abbrev stray : ℕ → ℕ
stray i = i

abbrev swarm : Swarm nat_real
swarm = start_swarm nat_real limits random stray 1 1 1 1 1000 (λ i dim. i)

abbrev search : Search nat_real
search = first_frame nat_real 1000 frame

abbrev evaluate : Frame nat_real → List ℕ
evaluate ps = map cost ps

fills :
    (s : Search nat_real) (t : Swarm nat_real)
    → 0 < length (explore_swarm nat_real limits random stray s t).0
unfolding explore_swarm frame_of
fills s t = omega arith

exploitation-Sound_example :
    let s' = exploitation nat_real evaluate search in
    (s'.val_history ≡ (10 ∷ 6 ∷ []) ∷ []) × Sound nat_real cost s'.pt2val
exploitation-Sound_example =
    exploitation-Sound nat_real cost cost-Respects evaluate search (λ ps. refl) tt

exec-optimum_example :
    let s =
      (exec nat_real evaluate (optimizer_pso nat_real limits random stray) 3 search swarm).0 in
    (length s.pt_history ≡ 3)
    × (s.val_history ≡ map (map cost) s.pt_history)
    × Least nat_order cost 1000 s.pt_history s
    × Attained nat_order cost 1000 s.pt_history s
exec-optimum_example =
    exec-optimum nat_order cost 1000 cost-Respects evaluate (λ ps. refl)
      (optimizer_pso nat_real limits random stray) fills 2 frame swarm (omega arith)

abbrev pub math : Math nat_real
math = record { pow = λ a b. a; atan = λ a. a; exp = λ a. a; ceil = λ a. a; pi = 3; dbl_min = 1 }

abbrev pub chances : Chances nat_real
chances = record {
  random = random;
  choice = λ i. 0;
  evo_scale = λ i. 1;
  reduce = λ p. get_or p 0 0;
  stray = stray;
}

abbrev arithmetic : Arithmetic nat_real
arithmetic = record {
  curr_iter_idx = 0;
  g_worst_val = 0;
  g_worst_pt = [];
  arg_w = 0;
  arg_mop = 0;
  draws = 0;
}

abbrev reptile : Reptile nat_real
reptile = record { curr_iter_idx = 0; evo_sense = 0; draws = 0 }

abbrev drift : Drift
drift = record { rounds = 0 }

abbrev noise : Noise nat_real
noise = record { is_noise = λ t i. false; ratio_dist = λ t i dim. 1 }

exec-InLimits_example :
    All
      (λ fr. All (InLimits limits 0) fr)
      (exec nat_real evaluate
        (optimizer_naive nat_real math limits noise (4 ∷ []))
        3
        search
        drift).0.pt_history
exec-InLimits_example =
    exec-InLimits limits nat_order.lt_irrefl limits-Ordered evaluate math 3 search noise (4 ∷ [])
      drift (((refl, refl, tt), ((refl, refl, tt), tt)), tt)
