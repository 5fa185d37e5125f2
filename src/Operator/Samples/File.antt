-- ===== src/Operator/Samples/File.antt =====
-- `savePerfSamples` and `loadPerfSamples` of src/Operator/OperatorBase.cpp: the samples of an operator
-- as the text of a file. `std::to_string` and `std::stod` are parameters. `none` is what ends the
-- program, a number that `std::stod` does not read, or what C++ leaves undefined.
pub mod Kept
pub mod Again
use meta_pb.Common.{
  ℕ, zero, suc, ◌+◌, ◌-◌, ◌*◌, ◌/◌, ◌^◌, List, [], ◌∷◌, ◌++◌, Option, none, some, leb,
  if◌then◌else◌, drop,
}
use meta_pb.Common.Real.{Real}
use meta_pb.Executor.Perf.{PerfStats, zero_perf}
use meta_pb.Operator.Pages.{u32, page_blk_size}
use meta_pb.Operator.Samples.{perf_sample_point, load_perf_samples}
use meta_pb.Utils.Lines.{Text, codes, newline, comma, lines, get_word}

-- `std::to_string` of a number, and `std::stod`, which fails on a text that starts with no number.
pub record NumText (R : Real) : Type 0 where
  pub to_string : R.Num → Text
  pub stod : Text → Option R.Num

abbrev pub samples_header : Text
samples_header = codes "dataSize_MiB,timeCost_Second,energyCost_joule"

module _ (R : Real) (nums : NumText R) where
  -- `pageCnt * pageBlkSize / (float)(1 << 20)`, whose product is a `uint32_t`.
  abbrev pub row_size : ℕ → R.Num
  row_size page_cnt = R.div (R.of_ℕ (u32 (page_cnt * page_blk_size))) (R.of_ℕ (2 ^ 20))

  abbrev pub sample_row : ℕ → PerfStats R → Text
  sample_row page_cnt s =
      nums.to_string (row_size page_cnt)
      ++ (comma
          ∷ (nums.to_string s.time_cost_second ++ (comma ∷ nums.to_string s.energy_cost_joule)))

  -- `"\n"` where another row follows; the sum is a `size_t`.
  abbrev pub row_end : (step upper page_cnt : ℕ) → Text → Text
  row_end step upper page_cnt rest = if leb (page_cnt + step) upper then newline ∷ rest else rest

  abbrev pub then_row : ℕ → PerfStats R → (step upper : ℕ) → Option Text → Option Text
  then_row page_cnt s step upper none = none
  then_row page_cnt s step upper (some rest) =
      some (sample_row page_cnt s ++ row_end step upper page_cnt rest)

  -- The loop of `savePerfSamples`.
  unfoldable pub save_rows :
      (fuel step upper page_cnt sample_idx : ℕ) → (ℕ → PerfStats R) → Option Text
  save_rows zero step upper cnt i src = none
  save_rows (suc fuel) step upper cnt i src =
      let rest = save_rows fuel step upper (u32 (cnt + step)) (i + 1) src in
      if leb cnt upper
      then if leb i perf_sample_point then then_row cnt (src i) step upper rest else none
      else some []

  abbrev pub with_header : Option Text → Option Text
  with_header none = none
  with_header (some rows) = some (samples_header ++ (newline ∷ rows))

  -- `savePerfSamples`; 19 rounds are one more than the arrays allow.
  unfoldable pub save_perf_samples : (upper : ℕ) → (ℕ → PerfStats R) → Option Text
  save_perf_samples upper src =
      with_header (save_rows 19 (upper / (perf_sample_point - 1)) upper 0 0 src)

  abbrev pub perf_of : (time energy : Option R.Num) → Option (PerfStats R)
  perf_of (some time) (some energy) =
      some (record (zero_perf R) { time_cost_second = time; energy_cost_joule = energy })
  perf_of _ _ = none

  -- A line: the size is passed, then come the time and the energy.
  unfoldable pub load_row : Text → Option (PerfStats R)
  unfolding get_word
  load_row line =
      let size = get_word comma ([], some line) in
      let time = get_word comma size in
      let energy = get_word comma time in perf_of (nums.stod time.0) (nums.stod energy.0)

  abbrev pub cons_row :
      Option (PerfStats R) → Option (List (PerfStats R)) → Option (List (PerfStats R))
  cons_row (some row) (some rows) = some (row ∷ rows)
  cons_row _ _ = none

  unfoldable pub load_rows : List Text → Option (List (PerfStats R))
  load_rows [] = some []
  load_rows (l ∷ ls) = cons_row (load_row l) (load_rows ls)

  -- The rows of a file, without its first line.
  unfoldable pub rows_of_file : Text → Option (List (PerfStats R))
  rows_of_file content = load_rows (drop 1 (lines content))

  abbrev pub load_into : (ℕ → PerfStats R) → Option (List (PerfStats R)) → Option (ℕ → PerfStats R)
  load_into dst none = none
  load_into dst (some rows) = load_perf_samples R dst 0 rows

  -- `loadPerfSamples`.
  unfoldable pub load_perf_file : (ℕ → PerfStats R) → Text → Option (ℕ → PerfStats R)
  unfolding rows_of_file
  load_perf_file dst content = load_into dst (rows_of_file content)
