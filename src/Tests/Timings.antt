-- ===== src/Tests/Timings.antt =====
-- Timings of a run, as they are written.
use meta_pb.Common.{
  ℕ, ◌-◌, ◌≡◌, refl, [], ◌∷◌, ◌++◌, map, false, All, In, ltb, replicate, All-replicate, arith,
}
use meta_pb.Executor.Pool.{Worker, cpu_thread, dpu_thread, map_thread, reduce_thread}
use meta_pb.Executor.Result.Measured.{TimePoint, TaskTiming}
use meta_pb.Executor.Result.Measured.Span.{PointLaws}
use meta_pb.Executor.Timings.{
  Shown, timings_header, Timings, timings_of, first_start, output_timings_to_csv, print_timings,
}
use meta_pb.Executor.Timings.Rows.{
  PlainShown, HasPlainType, worker_rows, output_timings_to_csv-rows,
}
use meta_pb.Utils.Csv.Fields.{IsField, fields, all_fields-IsField}
use meta_pb.Utils.Lines.{codes, lines, separated}
use meta_pb.Tests.Utils.{double}

abbrev ticks : TimePoint double
ticks = record { Point = ℕ; before = ltb; least = 0; seconds = ◌-◌; milliseconds = ◌-◌ }

ticks_ordered : PointLaws double ticks
ticks_ordered = record {
  irrefl = λ a. ground arith;
  asym = λ a b h. ground (arith, h);
  trans = λ a b c h k. ground (arith, h, k);
}

-- Tally marks.
abbrev tallied : Shown double ticks
tallied = record {
  number = λ n. replicate n 49;
  elapsed = λ t origin. replicate (t - origin) 49;
  since_epoch = λ t. replicate t 49;
}

tallied_plain : PlainShown double ticks tallied
tallied_plain = record {
  plain_number = λ n. (All-replicate _ n 49 (omega arith), All-replicate _ n 49 (omega arith));
  plain_elapsed = λ t origin. (
    All-replicate _ (t - origin) 49 (omega arith),
    All-replicate _ (t - origin) 49 (omega arith),
  );
}

abbrev run_of : Worker → Timings double ticks
run_of cpu_thread =
    (2, record { start = 4; end = 6; task_type = "MAC" } ∷ [])
    ∷ (1, record { start = 3; end = 4; task_type = "MAC" } ∷ [])
    ∷ []
run_of dpu_thread = (1, record { start = 5; end = 7; task_type = "MAC" } ∷ []) ∷ []
run_of _ = []

run_written :
    output_timings_to_csv double ticks tallied run_of 9
    ≡ codes
        "TaskID,Worker,OpType,Start(ms),End(ms)\n11,CPU,MAC,1,111\n1,CPU,MAC,,1\n1,DPU,MAC,11,1111\n"
unfolding output_timings_to_csv separated
run_written = refl

run_printed :
    print_timings double ticks tallied run_of
    ≡ codes
        "CPU Timings:\nTask 11 - Start: 1111ms, End: 111111ms\nTask 1 - Start: 111ms, End: 1111ms\nDPU Timings:\nTask 1 - Start: 11111ms, End: 1111111ms\nMAP Timings:\nREDUCE Timings:\n"
unfolding print_timings
run_printed = refl

mac_plain : IsField (codes "MAC")
mac_plain = (all_fields-IsField (codes "MAC" ∷ []) refl).0

plain_types :
    (w : Worker) → All (HasPlainType double ticks tallied) (timings_of double ticks (run_of w))
unfolding timings_of
plain_types cpu_thread = (mac_plain, (mac_plain, tt))
plain_types dpu_thread = (mac_plain, tt)
plain_types map_thread = tt
plain_types reduce_thread = tt

output_timings_to_csv-rows_example :
    let origin = first_start double ticks run_of 9 in
    let rows = λ (w : Worker). worker_rows double ticks tallied origin w (run_of w) in
    (map fields (lines (output_timings_to_csv double ticks tallied run_of 9))
      ≡ timings_header
        ∷ (rows cpu_thread ++ (rows dpu_thread ++ (rows map_thread ++ rows reduce_thread))))
    × ((w : Worker) (t : TaskTiming double ticks)
        → In t (timings_of double ticks (run_of w))
        → ltb t.start origin ≡ false)
output_timings_to_csv-rows_example =
    output_timings_to_csv-rows double ticks tallied tallied_plain ticks_ordered run_of 9 plain_types
