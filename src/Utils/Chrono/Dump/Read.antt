-- ===== src/Utils/Chrono/Dump/Read.antt =====
-- What the files of a dump hold, read back.
use Prim.Native.String.{String}
use text.Mathlib.Text.{◌==◌ as str_eq}
use text.Mathlib.TextPositions.{eq_refl}
use meta_pb.Common.{
  ℕ, suc, ◌+◌, ◌<◌, ◌≡◌, refl, sym, ap, ◌∙◌, List, [], ◌∷◌, length, map, false, Option, some, All,
  Bool-cases, inl, inr, if_true, if_false, arith,
}
use meta_pb.Common.Real.{OrderLaws}
use meta_pb.Utils.Stats.{Double}
use meta_pb.Utils.Report.{Report}
use meta_pb.Utils.Report.Correct.{SubLaws}
use meta_pb.Utils.Metrics.{all_metrics, Pcm}
use meta_pb.Utils.Metrics.Fit.{Succeeds-some}
use meta_pb.Utils.Metrics.Gathered.{AllGathered, length-AllGathered, AllGathered-AllAlike}
use meta_pb.Utils.Chrono.{Clock, Probe, ChronoTrigger, bias_name}
use meta_pb.Utils.Chrono.Measured.{report_of, IsReading}
use meta_pb.Utils.Chrono.Dump.{
  dump_header, metric_names, dump_file, complete_data, csv_of, dump_metric, bias_correction_repeat,
  measure_bias, dump_files, files_of, dump_all_report,
}
use meta_pb.Utils.Chrono.Dump.Rows.{PlainTexts, Measured, complete_data-IsTable, dump_header-IsRow}
use meta_pb.Utils.Chrono.Dump.Bias.{Reports, IsReady, WithBias, measure_bias_first}
use meta_pb.Utils.Csv.Fields.{IsField, fields, write_csv-fields}
use meta_pb.Utils.Lines.{Text, codes, lines}

module _ (D : Double) (pcm : Pcm D) (clock : Clock D) (n : ℕ) where
  -- A name that a file can show, of the bias or of a task that has been measured.
  abbrev pub IsReported : Reports D pcm clock n → String → Type 0
  IsReported reports name =
      IsField (codes name)
      × (str_eq name bias_name ≡ false
          → (r : Report D) × (reports name ≡ some r)
            × AllGathered D pcm n all_metrics r.report_items)

  -- After the measurement of the bias every name's report can be corrected.
  IsReported-Measured :
      (before after : Reports D pcm clock n) (bias : Report D)
      → AllGathered D pcm n all_metrics bias.report_items
      → WithBias D pcm clock n before bias after
      → (name : String) → IsReported before name
      → Measured D after bias name
  IsReported-Measured before after bias ok with_bias name h =
      elim (Bool-cases (str_eq name bias_name)) [
        | inl e ↦ (
          bias,
          with_bias name ∙ if_true (str_eq name bias_name) (some bias) (before name) e,
          AllGathered-AllAlike D pcm n all_metrics bias.report_items bias.report_items ok ok,
          h.0,
        )
        | inr e ↦
            let (r, k, gathered) = h.1 e in
            (
              r,
              with_bias name ∙ if_false (str_eq name bias_name) (some bias) (before name) e ∙ k,
              AllGathered-AllAlike D pcm n all_metrics r.report_items bias.report_items gathered ok,
              h.0,
            )
      ]

  All-Measured :
      (before after : Reports D pcm clock n) (bias : Report D)
      → AllGathered D pcm n all_metrics bias.report_items
      → WithBias D pcm clock n before bias after
      → (names : List String) → All (IsReported before) names
      → All (Measured D after bias) names
  All-Measured before after bias ok k [] h = tt
  All-Measured before after bias ok k (name ∷ names) h = (
    IsReported-Measured before after bias ok k name h.0,
    All-Measured before after bias ok k names h.1,
  )

  module _ (to_string : D.real.Num → Text) (to_text : ℕ → Text) where
    -- The file of a metric: its name, and its rows under the header.
    abbrev pub IsFile :
        (path : Text)
        → ChronoTrigger D pcm clock
        → (names : List String) → (tag : ℕ) → Text
        → Text × Option Text
        → Type 0
    IsFile path ct names tag metric file =
        (file.0 ≡ dump_file path metric)
        × ((rows : List (List Text)) × (complete_data D to_string to_text pcm clock ct names tag
              ≡ some rows)
            × (text : Text) × (file.1 ≡ some text)
            × (map fields (lines text) ≡ dump_header ∷ rows))

    abbrev pub AreFiles :
        (path : Text)
        → ChronoTrigger D pcm clock
        → (names : List String) → (tag : ℕ) → List Text
        → List (Text × Option Text)
        → Type 0
    AreFiles path ct names tag [] [] = Unit
    AreFiles path ct names tag (m ∷ ms) (f ∷ fs) =
        IsFile path ct names tag m f × AreFiles path ct names (suc tag) ms fs
    AreFiles path ct names tag _ _ = ⊥

    module _ (plain : PlainTexts D to_string to_text) (order : OrderLaws D.real)
        (laws : SubLaws D.real) (path : Text) (names : List String) (ct : ChronoTrigger D pcm clock)
        (bias : Report D) (counted : bias.item_num ≡ length bias.report_items)
        (has_bias : ct.task2report bias_name ≡ some bias)
        (measured : All (Measured D ct.task2report bias) names) where
      dump_metric-IsFile :
          (tag : ℕ) (metric : Text)
          → tag < length bias.report_items
          → IsFile path ct names tag metric
              (dump_file path metric, dump_metric D to_string to_text pcm clock ct names tag)
      unfolding dump_metric
      dump_metric-IsFile tag metric h =
          let (rows, e, k) =
            complete_data-IsTable D to_string to_text plain order laws bias counted pcm clock ct
              has_bias tag h names measured in
          let (text, w, r) = write_csv-fields rows dump_header dump_header-IsRow k in
          (refl, (rows, e, text, ap (csv_of D to_string to_text) e ∙ w, r))

      dump_files-AreFiles :
          (tag : ℕ) (metrics : List Text)
          → tag + length metrics ≡ length bias.report_items
          → AreFiles path ct names tag metrics
              (dump_files D to_string to_text pcm clock path ct names tag metrics)
      unfolding dump_files
      dump_files-AreFiles tag [] h = tt
      dump_files-AreFiles tag (m ∷ ms) h = (
        dump_metric-IsFile tag m (omega (arith, h)),
        dump_files-AreFiles (suc tag) ms (omega (arith, h)),
      )

-- Where each name to dump is that of the bias or of a task that has been measured, and holds no comma and
-- no newline, and neither do the texts of the numbers, a dump with counters of the same number of
-- sockets at each reading never fails: the bias is measured 100 times, the other reports stay, and
-- there is a file for each of the 13 metrics, named after it in the path, whose text reads back,
-- line by line and field by field, as the header and the rows of the corrected reports of that metric.
pub dump_all_report-files :
    (D : Double) (pcm : Pcm D) (clock : Clock D) (n : ℕ) (to_string : D.real.Num → Text)
    (to_text : ℕ → Text)
    → PlainTexts D to_string to_text
    → OrderLaws D.real
    → SubLaws D.real
    → (path : Text) (names : List String) (readings : ℕ → Probe D pcm clock × Probe D pcm clock)
      (ct : ChronoTrigger D pcm clock)
    → ((i : ℕ) → IsReading D pcm clock n (readings i).0 × IsReading D pcm clock n (readings i).1)
    → IsReady D pcm clock n (report_of D pcm clock bias_name ct)
    → All (IsReported D pcm clock n ct.task2report) names
    → (after : ChronoTrigger D pcm clock) × (measure_bias D pcm clock bias_correction_repeat
          readings
          (some ct)
        ≡ some after)
      × ((name : String)
          → str_eq name bias_name ≡ false
          → after.task2report name ≡ ct.task2report name)
      × (files : List (Text × Option Text)) × (dump_all_report D to_string to_text pcm clock path
            names readings ct
          ≡ some files)
      × AreFiles D pcm clock n to_string to_text path after names 0 metric_names files
unfolding dump_all_report
dump_all_report-files D pcm clock n to_string to_text plain order laws path names readings ct
      sockets ready reported =
    let (after, e, (bias, ok, kept)) =
      Succeeds-some _ (measure_bias D pcm clock bias_correction_repeat readings (some ct)) (
        measure_bias_first D pcm clock n ct.task2report readings sockets 99 ct
          (ready, λ name h. refl)) in
    let many : length bias.report_items ≡ 13 =
      length-AllGathered D pcm n all_metrics bias.report_items ok.0 in
    (
      after,
      e,
      λ name h. kept name ∙ if_false (str_eq name bias_name) (some bias) (ct.task2report name) h,
      dump_files D to_string to_text pcm clock path after names 0 metric_names,
      ap (files_of D to_string to_text pcm clock path names) e,
      dump_files-AreFiles D pcm clock n to_string to_text plain order laws path names after bias
          (ok.1 ∙ sym many)
          (kept bias_name
            ∙ if_true (str_eq bias_name bias_name) (some bias) (ct.task2report bias_name)
                (eq_refl bias_name))
          (All-Measured D pcm clock n ct.task2report after.task2report bias ok.0 kept names
            reported)
          0 metric_names (sym many),
    )
