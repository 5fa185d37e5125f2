-- ===== src/Optimizer/Search.antt =====
-- `OptimizerBase` of include/Optimizer/OptimizerBase.hpp and implements/OptimizerBase.cpp, for `float`
-- arguments and values: the cache of evaluated points, the histories, and the loop of `exec`. A frame
-- holds `pointNum` points, over which the loops go. A history is a list with its back first.
pub mod Cache
pub mod Best
pub mod Exec
use meta_pb.Common.{
  ℕ, zero, suc, List, [], ◌∷◌, Bool, true, false, not, ◌&&◌, Option, none, some, if◌then◌else◌,
  get_or, set, map,
}
use meta_pb.Common.Real.{Real}

module _ (R : Real) where
  abbrev pub Point : Type 0
  Point = List R.Num

  abbrev pub Frame : Type 0
  Frame = List Point

  -- `std::lexicographical_compare`, by which `pt2Val` is ordered.
  unfoldable pub lex_lt : Point → Point → Bool
  lex_lt [] [] = false
  lex_lt [] (b ∷ ys) = true
  lex_lt (a ∷ xs) [] = false
  lex_lt (a ∷ xs) (b ∷ ys) =
      let rest = lex_lt xs ys in if R.lt a b then true else if R.lt b a then false else rest

  -- The keys that a map takes for one.
  abbrev pub same_point : Point → Point → Bool
  same_point a b = not (lex_lt a b) && not (lex_lt b a)

  -- A `std::map` is the list of its entries in the order of the keys.
  abbrev pub Cache : Type 0
  Cache = List (Point × R.Num)

  unfoldable pub find : Cache → Point → Option R.Num
  find [] p = none
  find ((q, v) ∷ m) p = let rest = find m p in if same_point q p then some v else rest

  -- `pt2Val[p] = v`.
  unfoldable pub insert : Cache → Point → R.Num → Cache
  unfolding lex_lt
  insert [] p v = (p, v) ∷ []
  insert ((q, w) ∷ m) p v =
      let rest = insert m p v in
      if lex_lt q p then (q, w) ∷ rest else if lex_lt p q then (p, v) ∷ (q, w) ∷ m else (q, v) ∷ m

  pub record Search : Type 0 where
    pub pt_history : List Frame
    pub val_history : List (List R.Num)
    pub pt2val : Cache
    pub g_best_pt : Point
    pub g_best_val : R.Num
    pub g_best_pt_hist : List Point
    pub g_best_val_hist : List R.Num

  -- An optimizer on its first frame; `max_val` is `std::numeric_limits<float>::max()`.
  abbrev pub first_frame : (max_val : R.Num) → Frame → Search
  first_frame max_val frame = record {
    pt_history = frame ∷ [];
    val_history = [];
    pt2val = [];
    g_best_pt = [];
    g_best_val = max_val;
    g_best_pt_hist = [];
    g_best_val_hist = [];
  }

  -- `back()` of a history.
  abbrev pub back {ℓ} : {A : Type ℓ} → List (List A) → List A
  back [] = []
  back (frame ∷ frames) = frame

  -- What the first loop of `exploitation` fills.
  pub record Collected : Type 0 where
    pub result : List R.Num
    pub new_points : Frame
    pub new_pt_idx : List ℕ

  abbrev pub collect_one : Option R.Num → ℕ → Point → Collected → Collected
  collect_one (some v) i p c = record c { result = v ∷ c.result }
  collect_one none i p c = record {
    result = R.zero ∷ c.result;
    new_points = p ∷ c.new_points;
    new_pt_idx = i ∷ c.new_pt_idx;
  }

  unfoldable pub collect : Cache → ℕ → Frame → Collected
  unfolding find
  collect m i [] = record { result = []; new_points = []; new_pt_idx = [] }
  collect m i (p ∷ ps) = collect_one (find m p) i p (collect m (suc i) ps)

  -- Its second loop: the results that are new go to their places and into the cache.
  unfoldable pub write_back : List R.Num → Cache → List R.Num → Frame → List ℕ → List R.Num × Cache
  unfolding insert
  write_back result m (v ∷ vs) (p ∷ ps) (i ∷ is) =
      write_back (set result i v) (insert m p v) vs ps is
  write_back result m _ _ _ = (result, m)

  module _ (evaluate : Frame → List R.Num) where
    unfoldable pub exploitation : Search → Search
    unfolding collect write_back
    exploitation s =
        let c = collect s.pt2val 0 (back s.pt_history) in
        let w = write_back c.result s.pt2val (evaluate c.new_points) c.new_points c.new_pt_idx in
        record s { val_history = w.0 ∷ s.val_history; pt2val = w.1 }

  -- The index of a least value, from place `i` on and against that at `idx`.
  unfoldable pub best_from : List R.Num → ℕ → List R.Num → ℕ → ℕ
  best_from vals i [] idx = idx
  best_from vals i (v ∷ vs) idx =
      best_from vals (suc i) vs (if R.lt v (get_or vals idx R.zero) then i else idx)

  abbrev pub keep_best : Search → Bool → R.Num → Point → Search
  keep_best s better v p =
      let best_pt = if better then p else s.g_best_pt in
      let best_val = if better then v else s.g_best_val in
      record s {
        g_best_pt = best_pt;
        g_best_val = best_val;
        g_best_pt_hist = best_pt ∷ s.g_best_pt_hist;
        g_best_val_hist = best_val ∷ s.g_best_val_hist;
      }

  unfoldable pub converge_logging : Search → Search
  unfolding best_from
  converge_logging s =
      let vals = back s.val_history in
      let idx = best_from vals 0 vals 0 in
      let v = get_or vals idx R.zero in
      keep_best s (R.lt v s.g_best_val) v (get_or (back s.pt_history) idx [])

  -- `getCumulatePointsHistory`.
  unfoldable pub get_cumulate_points_history : Search → Frame
  get_cumulate_points_history s = map (λ entry. entry.0) s.pt2val

  -- What a derived optimizer adds: its own members, random numbers included, and its overrides. The
  -- exploration yields the frame that it pushes.
  pub record Derived : Type 1 where
    pub State : Type 0
    pub extraction : Search → State → State
    pub exploration : Search → State → Frame × State

  -- The two calls of the base in a round: a frame is evaluated and logged.
  unfoldable pub assess : (Frame → List R.Num) → Search → Search
  unfolding exploitation converge_logging
  assess evaluate s = converge_logging (exploitation evaluate s)

  module _ (evaluate : Frame → List R.Num) (d : Derived) where
    abbrev pub explore : Search → d.State → Search × d.State
    explore s t =
        let (frame, t') = d.exploration s t in (record s { pt_history = frame ∷ s.pt_history }, t')

    -- `exec`, with the iterations that remain.
    unfoldable pub exec : ℕ → Search → d.State → Search × d.State
    unfolding assess
    exec zero s t = (s, t)
    exec (suc zero) s t = let s' = assess evaluate s in (s', d.extraction s' t)
    exec (suc (suc n)) s t =
        let s' = assess evaluate s in
        let next = explore s' (d.extraction s' t) in exec (suc n) next.0 next.1
