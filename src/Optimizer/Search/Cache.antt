-- ===== src/Optimizer/Search/Cache.antt =====
-- `exploitation` and its cache.
use meta_pb.Common.{
  ℕ, suc, ◌≡◌, refl, sym, ap, ◌∙◌, subst, List, [], ◌∷◌, ◌++◌, true, Option, none, some, set, map,
  length, All, arith, inl, inr, Bool-cases, length-append, if_true, if_false,
}
use mathlib.Core.List.{append_assoc}
use mathlib.Core.Option.{some-injective}
use meta_pb.Common.Real.{Real}
use meta_pb.Optimizer.Search.{
  Point, Frame, Cache, lex_lt, same_point, find, insert, Search, back, Collected, collect_one,
  collect, write_back, exploitation,
}

-- The write at the end of a prefix.
set-append :
    {A : Type 0} (pre : List A) (x y : A) (xs : List A)
    → set (pre ++ x ∷ xs) (length pre) y ≡ (pre ++ y ∷ []) ++ xs
set-append [] x y xs = refl
set-append (p ∷ pre) x y xs = ap (λ zs. p ∷ zs) (set-append pre x y xs)

length-snoc : {A : Type 0} (xs : List A) (x : A) → length (xs ++ x ∷ []) ≡ suc (length xs)
length-snoc xs x = length-append xs (x ∷ []) ∙ omega arith

module _ (R : Real) (f : Point R → R.Num) where
  -- Every entry of the cache is the value of its key.
  abbrev pub Sound : Cache R → Type 0
  Sound m = All (λ entry. f entry.0 ≡ entry.1) m

  -- Keys that the cache takes for one have one value.
  abbrev pub Respects : Type 0
  Respects = (a b : Point R) → same_point R a b ≡ true → f a ≡ f b

  module _ (respects : Respects) where
    find-Sound : (m : Cache R) (p : Point R) (v : R.Num) → Sound m → find R m p ≡ some v → f p ≡ v
    unfolding find
    find-Sound [] p v h e = absurd (grind arith)
    find-Sound ((q, w) ∷ m) p v h e = elim (Bool-cases (same_point R q p)) [
      | inl y ↦
          sym (respects q p y)
          ∙ h.0
          ∙ some-injective w v (sym (if_true (same_point R q p) (some w) (find R m p) y) ∙ e)
      | inr n ↦ find-Sound m p v h.1 (sym (if_false (same_point R q p) (some w) (find R m p) n) ∙ e)
    ]

    insert-Sound :
        (m : Cache R) (p : Point R) (v : R.Num) → Sound m → f p ≡ v → Sound (insert R m p v)
    unfolding insert
    insert-Sound [] p v h e = (e, tt)
    insert-Sound ((q, w) ∷ m) p v h e = elim (Bool-cases (lex_lt R q p)) [
      | inl y ↦ rw y (h.0, insert-Sound m p v h.1 e)
      | inr n ↦ elim (Bool-cases (lex_lt R p q)) [
        | inl y ↦ rw (n, y) (e, h)
        | inr n' ↦ rw (n, n') (respects q p (rw (n, n') refl) ∙ e, h.1)
      ]
    ]

    write_back-Sound :
        (result : List R.Num) (m : Cache R) (ps : Frame R) (is : List ℕ)
        → Sound m
        → Sound (write_back R result m (map f ps) ps is).1
    unfolding write_back
    write_back-Sound result m [] is h = h
    write_back-Sound result m (p ∷ ps) [] h = h
    write_back-Sound result m (p ∷ ps) (i ∷ is) h =
        write_back-Sound (set result i (f p)) (insert R m p (f p)) ps is
          (insert-Sound m p (f p) h refl)

    written : List R.Num → Cache R → Collected R → List R.Num
    unfolding write_back
    written result m c = (write_back R result m (map f c.new_points) c.new_points c.new_pt_idx).0

    -- One point behind the results of a prefix, where the rest is known to be right behind a longer
    -- one.
    collect_one_values :
        (o : Option R.Num) (p : Point R) (c : Collected R) (pre vs : List R.Num) (m : Cache R)
        → ((v : R.Num) → o ≡ some v → f p ≡ v)
        → ((x : R.Num) (m' : Cache R)
            → written ((pre ++ x ∷ []) ++ c.result) m' c ≡ (pre ++ x ∷ []) ++ vs)
        → let d = collect_one R o (length pre) p c in
          written (pre ++ d.result) m d ≡ pre ++ f p ∷ vs
    unfolding written write_back
    collect_one_values (some v) p c pre vs m k more =
        ap (λ zs. written zs m c) (sym (append_assoc pre (v ∷ []) c.result))
        ∙ more v m
        ∙ append_assoc pre (v ∷ []) vs
        ∙ ap (λ y. pre ++ y ∷ vs) (sym (k v refl))
    collect_one_values none p c pre vs m k more =
        ap (λ zs. written zs (insert R m p (f p)) c) (set-append pre R.zero (f p) c.result)
        ∙ more (f p) (insert R m p (f p))
        ∙ append_assoc pre (f p ∷ []) vs

    -- The two loops together, behind the results of a prefix.
    collect_values :
        (m m' : Cache R) (ps : Frame R) (pre : List R.Num) (n : ℕ)
        → length pre ≡ n
        → Sound m
        → let c = collect R m n ps in written (pre ++ c.result) m' c ≡ pre ++ map f ps
    unfolding collect written write_back
    collect_values m m' [] pre n e h = refl
    collect_values m m' (p ∷ ps) pre n e h =
        let c = collect R m (suc n) ps in
        subst
          (λ i.
            let d = collect_one R (find R m p) i p c in
            written (pre ++ d.result) m' d ≡ pre ++ f p ∷ map f ps)
          e
          (collect_one_values (find R m p) p c pre (map f ps) m' (λ v q. find-Sound m p v h q)
            (λ x m''.
              collect_values m m'' ps (pre ++ x ∷ []) (suc n) (length-snoc pre x ∙ ap suc e) h))

    -- If the evaluation yields `f` of each point, and the cache holds only values of `f`, the frame's
    -- values are those of `f`, cached or not, and the cache again holds only values of `f`.
    pub exploitation-Sound :
        (evaluate : Frame R → List R.Num) (s : Search R)
        → ((ps : Frame R) → evaluate ps ≡ map f ps)
        → Sound s.pt2val
        → let s' = exploitation R evaluate s in
          (s'.val_history ≡ map f (back R s.pt_history) ∷ s.val_history) × Sound s'.pt2val
    unfolding exploitation written
    exploitation-Sound evaluate s k h =
        let c = collect R s.pt2val 0 (back R s.pt_history) in
        rw (k c.new_points) (
          ap (λ vs. vs ∷ s.val_history)
              (collect_values s.pt2val s.pt2val (back R s.pt_history) [] 0 refl h),
          write_back-Sound c.result s.pt2val c.new_points c.new_pt_idx h,
        )
