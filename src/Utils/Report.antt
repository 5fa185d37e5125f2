-- ===== src/Utils/Report.antt =====
-- include/utils/ReportUtils.hpp: items of a report, which hold one `Stats` or a vector of them, and
-- reports. `none` is a `std::bad_variant_access`, or an access behind the end of a vector.
pub mod Correct
use Prim.Native.String.{String}
use meta_pb.Common.{
  ℕ, zero, suc, Option, none, some, List, [], ◌∷◌, if◌then◌else◌, length, replicate,
}
use meta_pb.Utils.Stats.{Double, Stats, no_stats, add_value}

-- `std::variant<Stats, vector<Stats>>`
pub data ItemData (D : Double) : Type 0 where
  singular : Stats D → ItemData D
  plural : List (Stats D) → ItemData D

pub record ReportItem (D : Double) : Type 0 where
  pub name : String
  pub value : ItemData D

pub record Report (D : Double) : Type 0 where
  pub item_num : ℕ
  pub report_items : List (ReportItem D)

abbrev pub with_first {ℓ} : {A : Type ℓ} → A → Option (List A) → Option (List A)
with_first x none = none
with_first x (some xs) = some (x ∷ xs)

module _ (D : Double) where
  open D.real use {Num, sub, mul, lt, of_ℕ}

  -- `reportItem()`: the first alternative of the variant.
  unfoldable pub new_item : ReportItem D
  new_item = record { name = ""; value = singular (no_stats D) }

  -- `addData(const double &)`
  unfoldable pub add_datum : Num → ItemData D → Option (ItemData D)
  add_datum x (singular s) = some (singular (add_value D x s))
  add_datum x (plural v) = none

  -- `vec[i].add(newData[i])` for each item of `vec`.
  unfoldable pub add_each : List (Stats D) → List Num → Option (List (Stats D))
  add_each [] xs = some []
  add_each (s ∷ v) [] = none
  add_each (s ∷ v) (x ∷ xs) = with_first (add_value D x s) (add_each v xs)

  abbrev pub as_plural : Option (List (Stats D)) → Option (ItemData D)
  as_plural none = none
  as_plural (some v) = some (plural v)

  -- `addData(const vector<double> &)`: what held one `Stats` becomes a vector of new ones.
  unfoldable pub add_data : List Num → ItemData D → Option (ItemData D)
  add_data xs (singular s) = as_plural (add_each (replicate (length xs) (no_stats D)) xs)
  add_data xs (plural v) = as_plural (add_each v xs)

  -- The correction of `operator-=`, with its purging of noise.
  unfoldable pub correct : Stats D → Stats D → Stats D
  correct mine rhs = if lt mine.mean rhs.mean then no_stats D else record {
    rep = mine.rep;
    mean = sub mine.mean rhs.mean;
    variance = mine.variance;
    std_var = mine.std_var;
    upper_bound = sub mine.upper_bound rhs.mean;
    lower_bound = sub mine.lower_bound rhs.mean;
    upper_bias = mine.upper_bias;
    lower_bias = mine.lower_bias;
    sum = sub mine.sum (mul (of_ℕ mine.rep) rhs.mean);
  }

  unfoldable pub correct_each : List (Stats D) → List (Stats D) → Option (List (Stats D))
  correct_each [] ys = some []
  correct_each (x ∷ xs) [] = none
  correct_each (x ∷ xs) (y ∷ ys) = with_first (correct x y) (correct_each xs ys)

  unfoldable pub subtract_data : ItemData D → ItemData D → Option (ItemData D)
  subtract_data (singular x) (singular y) = some (singular (correct x y))
  subtract_data (singular x) (plural ys) = none
  subtract_data (plural xs) (singular y) = none
  subtract_data (plural xs) (plural ys) = as_plural (correct_each xs ys)

  abbrev pub renew : ReportItem D → Option (ItemData D) → Option (ReportItem D)
  renew item none = none
  renew item (some d) = some (record { name = item.name; value = d })

  unfoldable pub subtract_item : ReportItem D → ReportItem D → Option (ReportItem D)
  subtract_item x y = renew x (subtract_data x.value y.value)

  abbrev pub cons_item :
      Option (ReportItem D) → Option (List (ReportItem D)) → Option (List (ReportItem D))
  cons_item none xs = none
  cons_item (some x) xs = with_first x xs

  -- The loop of the reports' `operator-=`, `n` rounds.
  unfoldable pub subtract_items :
      ℕ → List (ReportItem D) → List (ReportItem D) → Option (List (ReportItem D))
  subtract_items zero xs ys = some xs
  subtract_items (suc n) (x ∷ xs) (y ∷ ys) = cons_item (subtract_item x y) (subtract_items n xs ys)
  subtract_items (suc n) (x ∷ xs) [] = none
  subtract_items (suc n) [] ys = none

  abbrev pub with_items : Report D → Option (List (ReportItem D)) → Option (Report D)
  with_items r none = none
  with_items r (some xs) = some (record { item_num = r.item_num; report_items = xs })

  -- `operator-`
  unfoldable pub subtract_report : Report D → Report D → Option (Report D)
  subtract_report lhs rhs =
      with_items lhs (subtract_items rhs.item_num lhs.report_items rhs.report_items)

  -- `Report(socketN, itemNum)`
  unfoldable pub new_report : ℕ → Report D
  new_report item_num = record { item_num = item_num; report_items = replicate item_num new_item }

  -- `Report()`, as `std::map` makes it of a missing key: its numbers are 0.
  unfoldable pub empty_report : Report D
  empty_report = record { item_num = 0; report_items = [] }
