-- ===== src/Optimizer/Search/Exec.antt =====
-- `exec`: what the search has found when it ends, whatever the derived optimizer explores.
use meta_pb.Common.{
  All, ℕ, zero, suc, ◌+◌, ◌<◌, ◌≡◌, refl, sym, ap, ◌∙◌, subst, List, [], ◌∷◌, map, length, inl,
  arith,
}
use meta_pb.Common.Real.{Real, OrderLaws}
use meta_pb.Optimizer.Search.{
  Point, Frame, Search, back, first_frame, exploitation, converge_logging, Derived, assess, explore,
  exec,
}
use meta_pb.Optimizer.Search.Cache.{Sound, Respects, exploitation-Sound}
use meta_pb.Optimizer.Search.Best.{Least, Attained, converge_logging-best}

module _ {R : Real} (laws : OrderLaws R) (f : Point R → R.Num) (max_val : R.Num)
    (respects : Respects R f) (evaluate : Frame R → List R.Num)
    (pointwise : (ps : Frame R) → evaluate ps ≡ map f ps) where
  -- The frames before the last one are evaluated, and the best point is theirs.
  record Searched (frames : List (Frame R)) (s : Search R) : Type 0 where
    values : s.val_history ≡ map (map f) frames
    sound : Sound R f s.pt2val
    least : Least laws f max_val frames s
    attained : Attained laws f max_val frames s

  assess-Searched :
      (s : Search R) (frame : Frame R) (frames : List (Frame R))
      → s.pt_history ≡ frame ∷ frames
      → 0 < length frame
      → Searched frames s
      → Searched (frame ∷ frames) (assess R evaluate s)
  unfolding assess exploitation converge_logging Least Attained
  assess-Searched s frame frames e h inv =
      let (v, sound) = exploitation-Sound R f respects evaluate s pointwise inv.sound in
      let last = ap (back R) e in
      let (least, attained) =
        converge_logging-best laws f max_val (exploitation R evaluate s) frame frames h last
          (ap (back R) v ∙ ap (map f) last) inv.least inv.attained in
      record {
        values = v ∙ rw (last, inv.values) refl;
        sound = sound;
        least = least;
        attained = attained;
      }

  module _ (d : Derived R)
      (fills : (s : Search R) (t : d.State) → 0 < length (d.exploration s t).0) where
    exec-Searched :
        (n : ℕ) (s : Search R) (t : d.State) (frame : Frame R) (frames : List (Frame R))
        → s.pt_history ≡ frame ∷ frames
        → 0 < length frame
        → Searched frames s
        → let s' = (exec R evaluate d (suc n) s t).0 in
          Searched s'.pt_history s' × (length s'.pt_history ≡ length frames + suc n)
    unfolding exec assess exploitation converge_logging Least Attained
    exec-Searched zero s t frame frames e h inv = (
      subst (λ fs. Searched fs (assess R evaluate s)) (sym e)
          (assess-Searched s frame frames e h inv),
      ap length e ∙ omega arith,
    )
    exec-Searched (suc n) s t frame frames e h inv =
        let s' = assess R evaluate s in
        let t' = d.extraction s' t in
        let next = d.exploration s' t' in
        let inv' = assess-Searched s frame frames e h inv in
        let (done, count) =
          exec-Searched n (explore R evaluate d s' t').0 next.1 next.0 (frame ∷ frames)
            (ap (λ fs. next.0 ∷ fs) e) (fills s' t')
            (record {
              values = inv'.values;
              sound = inv'.sound;
              least = inv'.least;
              attained = inv'.attained;
            }) in
        (done, count ∙ omega arith)

    -- Let the evaluation yield `f` of each point, keys of the cache that count as one have one value,
    -- and every frame hold a point. After `n + 1` rounds there are `n + 1` frames, the values in the
    -- history are those of `f`, the global optimum is not above the value of any point explored, and
    -- it is the value of the optimal point, one of those explored, or still the value it starts with.
    pub exec-optimum :
        (n : ℕ) (frame : Frame R) (t : d.State)
        → 0 < length frame
        → let s = (exec R evaluate d (suc n) (first_frame R max_val frame) t).0 in
          (length s.pt_history ≡ suc n)
          × (s.val_history ≡ map (map f) s.pt_history)
          × Least laws f max_val s.pt_history s
          × Attained laws f max_val s.pt_history s
    unfolding Least Attained
    exec-optimum n frame t h =
        let (done, count) =
          exec-Searched n (first_frame R max_val frame) t frame [] refl h
            (record { values = refl; sound = tt; least = λ fr m. absurd m; attained = inl refl }) in
        (count ∙ omega arith, done.values, done.least, done.attained)

-- A property of frames that the first one has and every exploration provides holds of all frames.
pub exec-frames :
    {R : Real}
    → (evaluate : Frame R → List R.Num) (d : Derived R) (P : Frame R → Type 0)
    → ((s : Search R) (t : d.State) → P (d.exploration s t).0)
    → (n : ℕ) (s : Search R) (t : d.State) → All P s.pt_history
    → All P (exec R evaluate d n s t).0.pt_history
unfolding exec assess exploitation converge_logging
exec-frames evaluate d P provides zero s t h = h
exec-frames evaluate d P provides (suc zero) s t h = h
exec-frames {R = R} evaluate d P provides (suc (suc n)) s t h =
    let s' = assess R evaluate s in
    let t' = d.extraction s' t in
    exec-frames evaluate d P provides (suc n) (explore R evaluate d s' t').0 (d.exploration s' t').1
      (provides s' t', h)
