-- ===== src/Optimizer/Search/Best.antt =====
-- `convergeLogging`: a least value of a frame, and the best point so far.
use meta_pb.Common.{
  ℕ, zero, suc, ◌<◌, ◌≡◌, refl, sym, ap, ◌∙◌, subst, List, [], ◌∷◌, ◌++◌, Bool, true, false, ◌⊎◌,
  inl, inr, get_or, map, length, length-map, length-append, In, arith, Bool-cases,
}
use mathlib.Core.List.{append_assoc}
use meta_pb.Common.Real.{Real, Le, OrderLaws}
use meta_pb.Optimizer.Search.{Point, Frame, Search, back, best_from, keep_best, converge_logging}

get_or-append :
    {A : Type 0} (pre : List A) (x : A) (xs : List A) (d : A)
    → get_or (pre ++ x ∷ xs) (length pre) d ≡ x
get_or-append [] x xs d = refl
get_or-append (p ∷ pre) x xs d = get_or-append pre x xs d

get_or-map :
    {A B : Type 0} (f : A → B) (xs : List A) (i : ℕ) (a : A) (b : B)
    → i < length xs
    → get_or (map f xs) i b ≡ f (get_or xs i a)
get_or-map f [] i a b h = absurd (omega arith)
get_or-map f (x ∷ xs) zero a b h = refl
get_or-map f (x ∷ xs) (suc i) a b h = get_or-map f xs i a b (omega arith)

get_or-In : {A : Type 0} (xs : List A) (i : ℕ) (a : A) → i < length xs → In (get_or xs i a) xs
get_or-In [] i a h = absurd (omega arith)
get_or-In (x ∷ xs) zero a h = inl refl
get_or-In (x ∷ xs) (suc i) a h = inr (get_or-In xs i a (omega arith))

In-map : {A B : Type 0} (f : A → B) (a : A) (xs : List A) → In a xs → In (f a) (map f xs)
In-map f a (x ∷ xs) (inl e) = inl (ap f e)
In-map f a (x ∷ xs) (inr m) = inr (In-map f a xs m)
In-map f a [] m = absurd m

module _ {R : Real} (laws : OrderLaws R) where
  le_refl : (a : R.Num) → Le R a a
  le_refl a = laws.lt_irrefl a

  lt_le : (a b : R.Num) → R.lt a b ≡ true → Le R a b
  lt_le a b h = laws.lt_asym a b h

  -- The index at the end is in range, and its value is not above the first one or any behind it.
  best_from-least :
      (vals pre vs : List R.Num) (i idx : ℕ)
      → vals ≡ pre ++ vs
      → length pre ≡ i
      → idx < length vals
      → let r = best_from R vals i vs idx in
        (r < length vals)
        × Le R (get_or vals r R.zero) (get_or vals idx R.zero)
        × ((v : R.Num) → In v vs → Le R (get_or vals r R.zero) v)
  unfolding best_from
  best_from-least vals pre [] i idx e n h = (h, le_refl _, λ v m. absurd m)
  best_from-least vals pre (v ∷ vs) i idx e n h =
      let at_i =
        sym (ap (λ j. get_or vals j R.zero) n)
        ∙ ap (λ zs. get_or zs (length pre) R.zero) e
        ∙ get_or-append pre v vs R.zero in
      let e' = e ∙ sym (append_assoc pre (v ∷ []) vs) in
      let n' = length-append pre (v ∷ []) ∙ omega (arith, n) in
      let in_range =
        subst (λ k. i < k) (sym (ap length e ∙ length-append pre (v ∷ vs))) (omega (arith, n)) in
      elim (Bool-cases (R.lt v (get_or vals idx R.zero))) [
        | inl y ↦
            let (r, b, all) = best_from-least vals (pre ++ v ∷ []) vs (suc i) i e' n' in_range in
            let b' =
              subst (λ w. Le R (get_or vals (best_from R vals (suc i) vs i) R.zero) w) at_i b in
            rw y (
              r,
              laws.le_trans _ _ _ b' (lt_le _ _ y),
              λ w m. elim m [ inl q ↦ rw q b' | inr k ↦ all w k ],
            )
        | inr o ↦
            let (r, b, all) = best_from-least vals (pre ++ v ∷ []) vs (suc i) idx e' n' h in
            rw o (r, b, λ w m. elim m [ inl q ↦ rw q (laws.le_trans _ _ _ b o) | inr k ↦ all w k ])
      ]

  -- Over a whole frame that is not empty.
  best_from-frame :
      (vals : List R.Num)
      → 0 < length vals
      → let r = best_from R vals 0 vals 0 in
        (r < length vals) × ((v : R.Num) → In v vals → Le R (get_or vals r R.zero) v)
  best_from-frame vals h =
      let (r, b, all) = best_from-least vals [] vals 0 0 refl refl h in (r, all)

  module _ (f : Point R → R.Num) (max_val : R.Num) where
    -- The best value is below `max_val` and the value of the best point, a point of the frames, or
    -- there is none yet.
    unfoldable pub Attained : List (Frame R) → Search R → Type 0
    Attained frames s =
        (s.g_best_val ≡ max_val)
        ⊎ ((s.g_best_val ≡ f s.g_best_pt)
            × ((frame : Frame R) × In frame frames × In s.g_best_pt frame))

    -- The best value is not above that of any point of the frames.
    unfoldable pub Least : List (Frame R) → Search R → Type 0
    Least frames s =
        (frame : Frame R) → In frame frames → (p : Point R) → In p frame → Le R s.g_best_val (f p)

    module _ (s : Search R) (frame : Frame R) (frames : List (Frame R))
        (nonempty : 0 < length frame) (last : back R s.pt_history ≡ frame)
        (values : back R s.val_history ≡ map f frame) where
      best_index : ℕ
      best_index = best_from R (map f frame) 0 (map f frame) 0

      best_index-lt : best_index < length frame
      unfolding best_index
      best_index-lt =
          subst (λ k. best_index < k) (length-map f frame)
            (best_from-frame (map f frame)
              (subst (λ k. 0 < k) (sym (length-map f frame)) nonempty)).0

      best_point : Point R
      best_point = get_or frame best_index []

      best_value : get_or (map f frame) best_index R.zero ≡ f best_point
      unfolding best_point
      best_value = get_or-map f frame best_index [] R.zero best_index-lt

      best_point-least : (p : Point R) → In p frame → Le R (f best_point) (f p)
      unfolding best_index
      best_point-least p m =
          subst (λ v. Le R v (f p)) best_value
            ((best_from-frame (map f frame)
                (subst (λ k. 0 < k) (sym (length-map f frame)) nonempty)).1
              (f p) (In-map f p frame m))

      converge_logging-keep :
          converge_logging R s
          ≡ keep_best R s (R.lt (f best_point) s.g_best_val) (f best_point) best_point
      unfolding converge_logging best_index best_point
      converge_logging-keep = rw (last, values, best_value) refl

      keep_best-best :
          (better : Bool)
          → R.lt (f best_point) s.g_best_val ≡ better
          → Least frames s
          → Attained frames s
          → Least (frame ∷ frames) (keep_best R s better (f best_point) best_point)
            × Attained (frame ∷ frames) (keep_best R s better (f best_point) best_point)
      unfolding Least Attained best_point
      keep_best-best true e least attained = (
        λ fr m p k. elim m [
          | inl q ↦ best_point-least p (subst (λ z. In p z) q k)
          | inr m' ↦ laws.le_trans _ _ _ (lt_le _ _ e) (least fr m' p k)
        ],
        inr (refl, (frame, inl refl, get_or-In frame best_index [] best_index-lt)),
      )
      keep_best-best false e least attained = (
        λ fr m p k. elim m [
          | inl q ↦ laws.le_trans _ _ _ e (best_point-least p (subst (λ z. In p z) q k))
          | inr m' ↦ least fr m' p k
        ],
        elim attained [ inl z ↦ inl z | inr (z, (fr, m, k)) ↦ inr (z, (fr, inr m, k)) ],
      )

      pub converge_logging-best :
          Least frames s
          → Attained frames s
          → Least (frame ∷ frames) (converge_logging R s)
            × Attained (frame ∷ frames) (converge_logging R s)
      converge_logging-best least attained =
          subst (λ z. Least (frame ∷ frames) z × Attained (frame ∷ frames) z)
            (sym converge_logging-keep)
            (keep_best-best (R.lt (f best_point) s.g_best_val) refl least attained)
