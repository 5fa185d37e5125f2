-- ===== src/Utils/Chrono/Dump.antt =====
-- `dumpAllReport` of src/utils/ChronoTrigger.cpp: the text of a file for each metric. The names are the
-- keys of `task2Report` in the map's order, the bias's included. `std::to_string` is a parameter. `none`
-- is a failure of the reports' operations, or what C++ leaves undefined.
pub mod Rows
pub mod Bias
pub mod Read
use Prim.Native.String.{String}
use text.Mathlib.Text.{◌==◌ as str_eq}
use meta_pb.Common.{
  ℕ, zero, suc, ◌==◌, List, [], ◌∷◌, ◌++◌, map, Bool, false, not, ◌&&◌, if◌then◌else◌, Option, none,
  some, get_elem?,
}
use meta_pb.Utils.Stats.{Double, Stats}
use meta_pb.Utils.Report.{
  ItemData, singular, plural, ReportItem, Report, empty_report, subtract_report,
}
use meta_pb.Utils.Metrics.{Pcm}
use meta_pb.Utils.Chrono.{Clock, Probe, ChronoTrigger, or_else, bias_name, tick, tock}
use meta_pb.Utils.Csv.{write_csv}
use meta_pb.Utils.Lines.{Text, codes}

abbrev pub bias_correction_repeat : ℕ
bias_correction_repeat = 100

abbrev pub dump_header : List Text
dump_header = map codes (
    "taskName" ∷ "repeat" ∷ "sum" ∷ "mean" ∷ "variance" ∷ "stdVar" ∷ "upperBound" ∷ "lowerBound"
    ∷ "upperBias" ∷ "lowerBias" ∷ [])

-- `metricNameMap`, in the order of the metrics.
abbrev pub metric_names : List Text
metric_names = map codes (
    "TimeConsume_ns" ∷ "FrontendBoundRatio" ∷ "BackendBoundRatio" ∷ "CoreBoundRatio"
    ∷ "MemoryBoundRatio" ∷ "SpeculationBoundRatio" ∷ "LLCHitRate" ∷ "LLCOccupancyTrail"
    ∷ "TotalDRAMCTRLRead_Bytes" ∷ "TotalDRAMCTRLWrite_Bytes" ∷ "CPUPowerConsumption_Joule"
    ∷ "DRAMPowerConsumption_Joule" ∷ "QPITrafficRatio" ∷ [])

-- `path.ends_with("/")`.
unfoldable pub ends_with_slash : Text → Bool
ends_with_slash [] = false
ends_with_slash (c ∷ []) = c == 47
ends_with_slash (c ∷ (d ∷ t)) = ends_with_slash (d ∷ t)

unfoldable pub dump_file : (path metric_name : Text) → Text
unfolding ends_with_slash
dump_file path metric_name =
    (if ends_with_slash path then path else path ++ codes "/") ++ (metric_name ++ codes ".csv")

module _ (D : Double) (pcm : Pcm D) (clock : Clock D) where
  abbrev pub bias_round :
      Probe D pcm clock × Probe D pcm clock
      → Option (ChronoTrigger D pcm clock)
      → Option (ChronoTrigger D pcm clock)
  bias_round p none = none
  bias_round p (some ct) = tock D pcm clock bias_name p.1 (tick D pcm clock bias_name p.0 ct)

  -- The measurements of the bias; 100 of them in `dumpAllReport`.
  unfoldable pub measure_bias :
      ℕ
      → (readings : ℕ → Probe D pcm clock × Probe D pcm clock) → Option (ChronoTrigger D pcm clock)
      → Option (ChronoTrigger D pcm clock)
  measure_bias zero readings o = o
  measure_bias (suc n) readings o = measure_bias n readings (bias_round (readings n) o)

module _ (D : Double) (to_string : D.real.Num → Text) (to_text : ℕ → Text) where
  open D.real use {Num, lt}

  abbrev pub is_same : Num → Num → Bool
  is_same a b = not (lt a b) && not (lt b a)

  -- A bound that no value has touched is shown as 0.
  abbrev pub shown_bound : (untouched bound : Num) → Num
  shown_bound untouched bound = if is_same bound untouched then D.real.zero else bound

  -- The row of a `Stats`.
  unfoldable pub stats_row : Text → Stats D → List Text
  stats_row name s =
      name
      ∷ to_text s.rep
      ∷ to_string s.sum
      ∷ to_string s.mean
      ∷ to_string s.variance
      ∷ to_string s.std_var
      ∷ to_string (shown_bound D.lowest s.upper_bound)
      ∷ to_string (shown_bound D.largest s.lower_bound)
      ∷ to_string s.upper_bias
      ∷ to_string s.lower_bias
      ∷ []

  -- A row for each socket, from number `i` on.
  unfoldable pub socket_rows : Text → ℕ → List (Stats D) → List (List Text)
  socket_rows name i [] = []
  socket_rows name i (s ∷ v) =
      stats_row (name ++ (codes "_" ++ to_text i)) s ∷ socket_rows name (suc i) v

  unfoldable pub item_rows : Text → ItemData D → List (List Text)
  unfolding stats_row socket_rows
  item_rows name (singular s) = stats_row name s ∷ []
  item_rows name (plural v) = socket_rows name 0 v

  abbrev pub rows_of_item : Text → Option (ReportItem D) → Option (List (List Text))
  rows_of_item name none = none
  rows_of_item name (some item) = some (item_rows name item.value)

  abbrev pub rows_at : Text → (tag : ℕ) → Option (Report D) → Option (List (List Text))
  rows_at name tag none = none
  rows_at name tag (some r) = rows_of_item name (get_elem? r.report_items tag)

  -- `correctedReport`.
  unfoldable pub corrected : String → (report bias : Report D) → Option (Report D)
  corrected name report bias =
      if str_eq name bias_name then some report else subtract_report D report bias

  abbrev pub corrected_of : String → Option (Report D) → (bias : Report D) → Option (Report D)
  corrected_of name none bias = none
  corrected_of name (some report) bias = corrected name report bias

  abbrev pub append_rows :
      Option (List (List Text)) → Option (List (List Text)) → Option (List (List Text))
  append_rows (some a) (some b) = some (a ++ b)
  append_rows _ _ = none

  abbrev pub csv_of : Option (List (List Text)) → Option Text
  csv_of none = none
  csv_of (some rows) = write_csv rows dump_header

  module _ (pcm : Pcm D) (clock : Clock D) where
    -- `completeData`: the rows of all tasks for a metric.
    unfoldable pub complete_data :
        ChronoTrigger D pcm clock → (names : List String) → (tag : ℕ) → Option (List (List Text))
    unfolding corrected item_rows
    complete_data ct [] tag = some []
    complete_data ct (name ∷ names) tag =
        append_rows
          (rows_at (codes name) tag (
            corrected_of name (ct.task2report name)
              (or_else (ct.task2report bias_name) (empty_report D))))
          (complete_data ct names tag)

    -- The text of a metric's file.
    unfoldable pub dump_metric :
        ChronoTrigger D pcm clock → (names : List String) → (tag : ℕ) → Option Text
    unfolding complete_data
    dump_metric ct names tag = csv_of (complete_data ct names tag)

    -- The files from number `tag` on, with their names.
    unfoldable pub dump_files :
        (path : Text)
        → ChronoTrigger D pcm clock
        → (names : List String) → (tag : ℕ) → List Text
        → List (Text × Option Text)
    unfolding dump_file dump_metric
    dump_files path ct names tag [] = []
    dump_files path ct names tag (m ∷ ms) =
        (dump_file path m, dump_metric ct names tag) ∷ dump_files path ct names (suc tag) ms

    abbrev pub files_of :
        (path : Text)
        → (names : List String) → Option (ChronoTrigger D pcm clock)
        → Option (List (Text × Option Text))
    files_of path names none = none
    files_of path names (some ct) = some (dump_files path ct names 0 metric_names)

    -- `dumpAllReport`.
    unfoldable pub dump_all_report :
        (path : Text)
        → (names : List String) → (readings : ℕ → Probe D pcm clock × Probe D pcm clock)
        → ChronoTrigger D pcm clock
        → Option (List (Text × Option Text))
    unfolding measure_bias dump_files
    dump_all_report path names readings ct =
        files_of path names (measure_bias D pcm clock bias_correction_repeat readings (some ct))
