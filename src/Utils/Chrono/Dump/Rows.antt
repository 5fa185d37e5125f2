-- ===== src/Utils/Chrono/Dump/Rows.antt =====
-- The files of a dump read back as their rows.
use Prim.Native.String.{String}
use text.Mathlib.Text.{◌==◌ as str_eq}
use meta_pb.Common.{
  ℕ, zero, suc, ◌<◌, ◌≡◌, refl, sym, ap, ◌∙◌, List, [], ◌∷◌, ◌++◌, length, Option, none, some,
  get_elem?, All, Bool-cases, inl, inr, arith,
}
use mathlib.Core.Option.{some-injective, none-ne-some}
use meta_pb.Common.Real.{OrderLaws}
use meta_pb.Utils.Stats.{Double, Stats}
use meta_pb.Utils.Report.{
  ItemData, singular, plural, ReportItem, Report, renew, cons_item, with_items, subtract_item,
  subtract_items, subtract_report,
}
use meta_pb.Utils.Report.Correct.{SubLaws, AllAlike, subtract_report_means}
use meta_pb.Utils.Metrics.{Pcm}
use meta_pb.Utils.Metrics.Fit.{Succeeds-some}
use meta_pb.Utils.Chrono.{Clock, ChronoTrigger, bias_name}
use meta_pb.Utils.Chrono.Dump.{
  dump_header, stats_row, socket_rows, item_rows, rows_at, corrected, complete_data, append_rows,
}
use meta_pb.Utils.Csv.Fields.{IsField, IsRow, all_fields-IsField}
use meta_pb.Utils.Lines.{Text, codes, comma, newline}
use meta_pb.Utils.Lines.Laws.{Without-append}

All-append : {A : Type 0} (P : A → Type 0) (xs ys : List A) → All P xs → All P ys → All P (xs ++ ys)
All-append P [] ys h k = k
All-append P (x ∷ xs) ys h k = (h.0, All-append P xs ys h.1 k)

module _ (D : Double) where
  length-cons_item :
      (x : ReportItem D) (o : Option (ItemData D)) (o' : Option (List (ReportItem D))) (n : ℕ)
      → ((zs : List (ReportItem D)) → o' ≡ some zs → length zs ≡ n)
      → (zs : List (ReportItem D)) → cons_item D (renew D x o) o' ≡ some zs
      → length zs ≡ suc n
  length-cons_item x none o' n h zs e = absurd (none-ne-some zs e)
  length-cons_item x (some d) none n h zs e = absurd (none-ne-some zs e)
  length-cons_item x (some d) (some xs) n h zs e =
      ap length (sym (some-injective _ _ e)) ∙ ap suc (h xs refl)

  length-subtract_items :
      (n : ℕ) (xs ys zs : List (ReportItem D))
      → subtract_items D n xs ys ≡ some zs
      → length zs ≡ length xs
  unfolding subtract_items subtract_item
  length-subtract_items zero xs ys zs e = ap length (sym (some-injective _ _ e))
  length-subtract_items (suc n) (x ∷ xs) (y ∷ ys) zs e =
      length-cons_item x _ (subtract_items D n xs ys) (length xs)
        (λ zs k. length-subtract_items n xs ys zs k) zs e
  length-subtract_items (suc n) (x ∷ xs) [] zs e = absurd (none-ne-some zs e)
  length-subtract_items (suc n) [] ys zs e = absurd (none-ne-some zs e)

  length-with_items :
      (r r' : Report D) (o : Option (List (ReportItem D))) (n : ℕ)
      → ((zs : List (ReportItem D)) → o ≡ some zs → length zs ≡ n)
      → with_items D r o ≡ some r'
      → length r'.report_items ≡ n
  length-with_items r r' none n h e = absurd (none-ne-some r' e)
  length-with_items r r' (some zs) n h e =
      ap (λ (q : Report D). length q.report_items) (sym (some-injective _ _ e)) ∙ h zs refl

  length-AllAlike : (xs ys : List (ReportItem D)) → AllAlike D xs ys → length xs ≡ length ys
  length-AllAlike [] [] h = refl
  length-AllAlike [] (y ∷ ys) h = absurd h
  length-AllAlike (x ∷ xs) [] h = absurd h
  length-AllAlike (x ∷ xs) (y ∷ ys) h = ap suc (length-AllAlike xs ys h.1)

  item_in_range :
      (xs : List (ReportItem D)) (i : ℕ)
      → i < length xs
      → (x : ReportItem D) × (get_elem? xs i ≡ some x)
  item_in_range [] i h = absurd (omega arith)
  item_in_range (x ∷ xs) zero h = (x, refl)
  item_in_range (x ∷ xs) (suc i) h = item_in_range xs i (omega arith)

  -- Numbers are written without commas and newlines.
  pub record PlainTexts (to_string : D.real.Num → Text) (to_text : ℕ → Text) : Type 0 where
    pub plain_num : (a : D.real.Num) → IsField (to_string a)
    pub plain_nat : (n : ℕ) → IsField (to_text n)

  module _ (to_string : D.real.Num → Text) (to_text : ℕ → Text)
      (plain : PlainTexts to_string to_text) where
    stats_row-IsRow :
        (name : Text) (s : Stats D) → IsField name → IsRow (stats_row D to_string to_text name s)
    unfolding stats_row
    stats_row-IsRow name s h = (
      h,
      (
        plain.plain_nat _,
        (
          plain.plain_num _,
          (
            plain.plain_num _,
            (
              plain.plain_num _,
              (
                plain.plain_num _,
                (
                  plain.plain_num _,
                  (plain.plain_num _, (plain.plain_num _, (plain.plain_num _, tt))),
                ),
              ),
            ),
          ),
        ),
      ),
    )

    socket_name-IsField :
        (name : Text) (i : ℕ) → IsField name → IsField (name ++ (codes "_" ++ to_text i))
    socket_name-IsField name i h = (
      Without-append comma name _ h.0 (omega arith, (plain.plain_nat i).0),
      Without-append newline name _ h.1 (omega arith, (plain.plain_nat i).1),
    )

    socket_rows-IsRow :
        (name : Text) (i : ℕ) (v : List (Stats D))
        → IsField name
        → All IsRow (socket_rows D to_string to_text name i v)
    unfolding socket_rows
    socket_rows-IsRow name i [] h = tt
    socket_rows-IsRow name i (s ∷ v) h =
        (stats_row-IsRow _ s (socket_name-IsField name i h), socket_rows-IsRow name (suc i) v h)

    item_rows-IsRow :
        (name : Text) (d : ItemData D)
        → IsField name
        → All IsRow (item_rows D to_string to_text name d)
    unfolding item_rows
    item_rows-IsRow name (singular s) h = (stats_row-IsRow name s h, tt)
    item_rows-IsRow name (plural v) h = socket_rows-IsRow name 0 v h

  -- The reports that `names` have can be corrected: each name's is measured like the bias.
  abbrev pub Measured : (ct_report : String → Option (Report D)) → Report D → String → Type 0
  Measured ct_report bias name =
      (r : Report D) × (ct_report name ≡ some r)
      × AllAlike D r.report_items bias.report_items
      × IsField (codes name)

  length-subtract_report :
      (lhs rhs r : Report D)
      → subtract_report D lhs rhs ≡ some r
      → length r.report_items ≡ length lhs.report_items
  unfolding subtract_report
  length-subtract_report lhs rhs r e =
      length-with_items lhs r (subtract_items D rhs.item_num lhs.report_items rhs.report_items)
        (length lhs.report_items)
        (λ zs k. length-subtract_items rhs.item_num lhs.report_items rhs.report_items zs k) e

  module _ (to_string : D.real.Num → Text) (to_text : ℕ → Text)
      (plain : PlainTexts to_string to_text) (order : OrderLaws D.real) (laws : SubLaws D.real)
      (bias : Report D) (counted : bias.item_num ≡ length bias.report_items) where
    corrected-report :
        (name : String) (r : Report D)
        → AllAlike D r.report_items bias.report_items
        → (r' : Report D) × (corrected D to_string to_text name r bias ≡ some r')
          × (length r'.report_items ≡ length bias.report_items)
    unfolding corrected
    corrected-report name r alike = elim (Bool-cases (str_eq name bias_name)) [
      | inl b ↦ rw b (r, refl, length-AllAlike r.report_items bias.report_items alike)
      | inr b ↦ rw b (
          let (r', e, h) =
            Succeeds-some _ (subtract_report D r bias)
              (subtract_report_means D r bias order laws alike counted) in
          (
            r',
            e,
            length-subtract_report r bias r' e
                ∙ length-AllAlike r.report_items bias.report_items alike,
          ))
    ]

    abbrev pub IsTable : Option (List (List Text)) → Type 0
    IsTable o = (rows : List (List Text)) × (o ≡ some rows) × All IsRow rows

    rows_at-IsTable :
        (name : String) (tag : ℕ)
        → tag < length bias.report_items
        → (r : Report D) → AllAlike D r.report_items bias.report_items
        → IsField (codes name)
        → IsTable (
            rows_at D to_string to_text
              (codes name)
              tag
              (corrected D to_string to_text name r bias))
    rows_at-IsTable name tag h r alike field =
        let (r', e, l) = corrected-report name r alike in
        let (item, k) = item_in_range r'.report_items tag (omega (arith, h, l)) in
        (
          item_rows D to_string to_text (codes name) item.value,
          rw (e, k) refl,
          item_rows-IsRow to_string to_text plain (codes name) item.value field,
        )

    append_rows-IsTable :
        (a b : Option (List (List Text)))
        → IsTable a
        → IsTable b
        → IsTable (append_rows D to_string to_text a b)
    append_rows-IsTable a b (x, e, h) (y, k, l) = (x ++ y, rw (e, k) refl, All-append IsRow x y h l)

    module _ (pcm : Pcm D) (clock : Clock D) (ct : ChronoTrigger D pcm clock)
        (has_bias : ct.task2report bias_name ≡ some bias) (tag : ℕ)
        (in_range : tag < length bias.report_items) where
      pub complete_data-IsTable :
          (names : List String)
          → All (Measured ct.task2report bias) names
          → IsTable (complete_data D to_string to_text pcm clock ct names tag)
      unfolding complete_data
      complete_data-IsTable [] h = ([], refl, tt)
      complete_data-IsTable (name ∷ names) ((r, e, alike, field), h) =
          rw (e, has_bias)
            (append_rows-IsTable _ _ (rows_at-IsTable name tag in_range r alike field)
              (complete_data-IsTable names h))

pub dump_header-IsRow : IsRow dump_header
dump_header-IsRow = all_fields-IsField dump_header refl
