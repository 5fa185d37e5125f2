-- ===== src/Utils/Report/Correct.antt =====
-- The correction of a report by the report of the bias.
use meta_pb.Common.{
  ◌≡◌, Option, none, some, List, [], ◌∷◌, length, All, Bool-cases, inl, inr, arith,
}
use meta_pb.Common.Real.{Real, Le, OrderLaws}
use meta_pb.Utils.Stats.{Double, Stats, no_stats}
use meta_pb.Utils.Report.{
  ItemData, singular, plural, ReportItem, Report, correct, correct_each, subtract_data,
  subtract_item, subtract_items, subtract_report, as_plural, renew, cons_item, with_items,
}
use meta_pb.Utils.Metrics.Fit.{Succeeds, with_first_total}

-- Subtracting what is not above does not go below zero.
pub record SubLaws (R : Real) : Type 0 where
  pub sub_nonneg : (a b : R.Num) → Le R b a → Le R R.zero (R.sub a b)

module _ (D : Double) where
  open D.real use {Num}

  -- The two items have been measured alike.
  abbrev pub IsAlike : ItemData D → ItemData D → Type 0
  IsAlike (singular x) (singular y) = Unit
  IsAlike (plural xs) (plural ys) = length xs ≡ length ys
  IsAlike _ _ = ⊥

  abbrev pub AllAlike : List (ReportItem D) → List (ReportItem D) → Type 0
  AllAlike [] [] = Unit
  AllAlike (x ∷ xs) (y ∷ ys) = IsAlike x.value y.value × AllAlike xs ys
  AllAlike _ _ = ⊥

  -- No mean is negative.
  abbrev pub HasMeans : ItemData D → Type 0
  HasMeans (singular s) = Le D.real D.real.zero s.mean
  HasMeans (plural v) = All (λ s. Le D.real D.real.zero s.mean) v

module _ (D : Double) (order : OrderLaws D.real) (laws : SubLaws D.real) where
  correct_mean : (x y : Stats D) → Le D.real D.real.zero (correct D x y).mean
  unfolding correct no_stats
  correct_mean x y = elim (Bool-cases (D.real.lt x.mean y.mean)) [
    | inl b ↦ rw b (order.lt_irrefl D.real.zero)
    | inr n ↦ rw n (laws.sub_nonneg x.mean y.mean n)
  ]

  correct_each_means :
      (xs ys : List (Stats D))
      → length xs ≡ length ys
      → Succeeds (All (λ s. Le D.real D.real.zero s.mean)) (correct_each D xs ys)
  unfolding correct_each
  correct_each_means [] ys e = tt
  correct_each_means (x ∷ xs) [] e = absurd (omega (arith, e))
  correct_each_means (x ∷ xs) (y ∷ ys) e =
      with_first_total _ _ (correct D x y) (correct_each D xs ys) (λ v h. (correct_mean x y, h))
        (correct_each_means xs ys (omega (arith, e)))

  as_plural_means :
      (o : Option (List (Stats D)))
      → Succeeds (All (λ s. Le D.real D.real.zero s.mean)) o
      → Succeeds (HasMeans D) (as_plural D o)
  as_plural_means none h = h
  as_plural_means (some v) h = h

  subtract_data_means :
      (d e : ItemData D) → IsAlike D d e → Succeeds (HasMeans D) (subtract_data D d e)
  unfolding subtract_data
  subtract_data_means (singular x) (singular y) h = correct_mean x y
  subtract_data_means (singular x) (plural ys) h = absurd h
  subtract_data_means (plural xs) (singular y) h = absurd h
  subtract_data_means (plural xs) (plural ys) h = as_plural_means _ (correct_each_means xs ys h)

  cons_means :
      (x : ReportItem D) (o : Option (ItemData D)) (o' : Option (List (ReportItem D)))
      → Succeeds (HasMeans D) o
      → Succeeds (All (λ i. HasMeans D i.value)) o'
      → Succeeds (All (λ i. HasMeans D i.value)) (cons_item D (renew D x o) o')
  cons_means x none o' h k = absurd h
  cons_means x (some d) none h k = absurd k
  cons_means x (some d) (some xs) h k = (h, k)

  subtract_items_means :
      (xs ys : List (ReportItem D))
      → AllAlike D xs ys
      → Succeeds (All (λ i. HasMeans D i.value)) (subtract_items D (length ys) xs ys)
  unfolding subtract_items subtract_item
  subtract_items_means [] [] h = tt
  subtract_items_means [] (y ∷ ys) h = absurd h
  subtract_items_means (x ∷ xs) [] h = absurd h
  subtract_items_means (x ∷ xs) (y ∷ ys) h =
      cons_means x _ _ (subtract_data_means x.value y.value h.0) (subtract_items_means xs ys h.1)

  with_items_means :
      (r : Report D) (o : Option (List (ReportItem D)))
      → Succeeds (All (λ i. HasMeans D i.value)) o
      → Succeeds (λ r'. All (λ i. HasMeans D i.value) r'.report_items) (with_items D r o)
  with_items_means r none h = h
  with_items_means r (some xs) h = h

-- Correcting a report by one whose items have been measured alike, as many as it says, never fails,
-- and no mean of the corrected report is negative, in an item of one `Stats` or of several: what is
-- below the bias is purged.
pub subtract_report_means :
    (D : Double) (lhs rhs : Report D)
    → OrderLaws D.real
    → SubLaws D.real
    → AllAlike D lhs.report_items rhs.report_items
    → rhs.item_num ≡ length rhs.report_items
    → Succeeds (λ r. All (λ i. HasMeans D i.value) r.report_items) (subtract_report D lhs rhs)
unfolding subtract_report
subtract_report_means D lhs rhs order laws alike e = rw e (
    with_items_means D order laws lhs _
      (subtract_items_means D order laws lhs.report_items rhs.report_items alike))
