-- ===== src/Utils/Stats/Bounds.antt =====
-- Counts and bounds of the statistics of a sequence.
use meta_pb.Common.{
  suc, ◌+◌, ◌^◌, ◌<◌, ◌≡◌, ◌⊎◌, refl, sym, ap, ◌∙◌, true, List, [], ◌∷◌, length, In, inl, inr,
  arith, Bool-cases,
}
use mathlib.Core.Bool.{false≢true}
use meta_pb.Common.Real.{OrderLaws, Le, max_num, min_num, max_num-left, max_num-right}
use meta_pb.Utils.Stats.{Double, Stats, no_stats, add_value, add_values}

module _ (D : Double) (laws : OrderLaws D.real) where
  open D.real use {Num, lt}

  max_num_cases : (a b : Num) → (max_num D.real a b ≡ a) ⊎ (max_num D.real a b ≡ b)
  max_num_cases a b = elim (Bool-cases (lt a b)) [
    | inl y ↦ inr (rw y refl)
    | inr n ↦ inl (rw n refl)
  ]

  min_num_cases : (a b : Num) → (min_num D.real a b ≡ a) ⊎ (min_num D.real a b ≡ b)
  min_num_cases a b = elim (Bool-cases (lt b a)) [
    | inl y ↦ inr (rw y refl)
    | inr n ↦ inl (rw n refl)
  ]

  min_num-left : (a b : Num) → Le D.real (min_num D.real a b) a
  min_num-left a b = elim (Bool-cases (lt b a)) [
    | inl y ↦ rw y (laws.lt_asym b a y)
    | inr n ↦ rw n (laws.lt_irrefl a)
  ]

  min_num-right : (a b : Num) → Le D.real (min_num D.real a b) b
  min_num-right a b = elim (Bool-cases (lt b a)) [
    | inl y ↦ rw y (laws.lt_irrefl b)
    | inr n ↦ rw n n
  ]

  add_values-rep :
      (xs : List Num) (s : Stats D)
      → s.rep + length xs < 2 ^ 64
      → (add_values D xs s).rep ≡ s.rep + length xs
  unfolding add_values add_value
  add_values-rep [] s h = omega arith
  add_values-rep (x ∷ xs) s h =
      omega (arith, h, add_values-rep xs (add_value D x s) (omega (arith, h)))

  upper_grows :
      (xs : List Num) (s : Stats D) → Le D.real s.upper_bound (add_values D xs s).upper_bound
  unfolding add_values add_value
  upper_grows [] s = laws.lt_irrefl s.upper_bound
  upper_grows (x ∷ xs) s =
      laws.le_trans _ _ _ (max_num-left laws s.upper_bound x) (upper_grows xs (add_value D x s))

  upper_above :
      (xs : List Num) (s : Stats D) (x : Num)
      → In x xs
      → Le D.real x (add_values D xs s).upper_bound
  unfolding add_values add_value
  upper_above [] s x p = absurd p
  upper_above (y ∷ xs) s x (inl e) =
      rw e (
        laws.le_trans _ _ _ (max_num-right laws s.upper_bound y) (upper_grows xs (add_value D y s)))
  upper_above (y ∷ xs) s x (inr p) = upper_above xs (add_value D y s) x p

  upper_from :
      (xs : List Num) (s : Stats D)
      → ((add_values D xs s).upper_bound ≡ s.upper_bound) ⊎ In (add_values D xs s).upper_bound xs
  unfolding add_values add_value
  upper_from [] s = inl refl
  upper_from (x ∷ xs) s = elim (upper_from xs (add_value D x s)) [
    | inr p ↦ inr (inr p)
    | inl e ↦ elim (max_num_cases s.upper_bound x) [
      | inl old ↦ inl (e ∙ old)
      | inr new ↦ inr (inl (e ∙ new))
    ]
  ]

  lower_falls :
      (xs : List Num) (s : Stats D) → Le D.real (add_values D xs s).lower_bound s.lower_bound
  unfolding add_values add_value
  lower_falls [] s = laws.lt_irrefl s.lower_bound
  lower_falls (x ∷ xs) s =
      laws.le_trans _ _ _ (lower_falls xs (add_value D x s)) (min_num-left s.lower_bound x)

  lower_below :
      (xs : List Num) (s : Stats D) (x : Num)
      → In x xs
      → Le D.real (add_values D xs s).lower_bound x
  unfolding add_values add_value
  lower_below [] s x p = absurd p
  lower_below (y ∷ xs) s x (inl e) =
      rw e (laws.le_trans _ _ _ (lower_falls xs (add_value D y s)) (min_num-right s.lower_bound y))
  lower_below (y ∷ xs) s x (inr p) = lower_below xs (add_value D y s) x p

  lower_from :
      (xs : List Num) (s : Stats D)
      → ((add_values D xs s).lower_bound ≡ s.lower_bound) ⊎ In (add_values D xs s).lower_bound xs
  unfolding add_values add_value
  lower_from [] s = inl refl
  lower_from (x ∷ xs) s = elim (lower_from xs (add_value D x s)) [
    | inr p ↦ inr (inr p)
    | inl e ↦ elim (min_num_cases s.lower_bound x) [
      | inl old ↦ inl (e ∙ old)
      | inr new ↦ inr (inl (e ∙ new))
    ]
  ]

-- What `Stats` reports of fewer than 2 ^ 64 values, each between the least and the largest `double`
-- and at least one of them: how many they are, and as bounds a value that none exceeds and one that
-- none is below.
pub add_values_bounds :
    (D : Double) (x : D.real.Num) (xs : List D.real.Num)
    → OrderLaws D.real
    → suc (length xs) < 2 ^ 64
    → ((y : D.real.Num)
        → In y (x ∷ xs)
        → (D.real.lt D.lowest y ≡ true) × (D.real.lt y D.largest ≡ true))
    → let s = add_values D (x ∷ xs) (no_stats D) in
      (s.rep ≡ suc (length xs))
      × In s.upper_bound (x ∷ xs)
      × In s.lower_bound (x ∷ xs)
      × ((y : D.real.Num) → In y (x ∷ xs) → Le D.real y s.upper_bound × Le D.real s.lower_bound y)
unfolding no_stats
add_values_bounds D x xs laws few range = (
  omega (arith, add_values-rep D laws (x ∷ xs) (no_stats D) (omega (arith, few))),
  elim (upper_from D laws (x ∷ xs) (no_stats D)) [
    | inr p ↦ p
    | inl e ↦
        absurd (
          false≢true
            (sym (above x (inl refl)) ∙ ap (λ u. D.real.lt u x) e ∙ (range x (inl refl)).0))
  ],
  elim (lower_from D laws (x ∷ xs) (no_stats D)) [
    | inr p ↦ p
    | inl e ↦
        absurd (
          false≢true
            (sym (below x (inl refl)) ∙ ap (λ u. D.real.lt x u) e ∙ (range x (inl refl)).1))
  ],
  (λ y p. (above y p, below y p)),
)
  where
    above :
        (y : D.real.Num)
        → In y (x ∷ xs)
        → Le D.real y (add_values D (x ∷ xs) (no_stats D)).upper_bound
    above y p = upper_above D laws (x ∷ xs) (no_stats D) y p

    below :
        (y : D.real.Num)
        → In y (x ∷ xs)
        → Le D.real (add_values D (x ∷ xs) (no_stats D)).lower_bound y
    below y p = lower_below D laws (x ∷ xs) (no_stats D) y p
