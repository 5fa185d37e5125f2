-- ===== src/Executor/Timings/Rows.antt =====
-- The file of the timings reads back as a row for each timing.
use meta_pb.Common.{ℕ, ◌≡◌, refl, sym, ap, ◌∙◌, List, [], ◌∷◌, ◌++◌, map, false, All, In}
use mathlib.Core.List.{append_assoc, append-nil}
use meta_pb.Executor.Pool.{Worker, cpu_thread, dpu_thread, map_thread, reduce_thread}
use meta_pb.Executor.Result.Measured.{TimePoint, TaskTiming}
use meta_pb.Executor.Result.Measured.Span.{PointLaws, min_start-first, In-all_timings}
use meta_pb.Executor.Timings.{
  Shown, timings_header, worker_name, csv_line, Timings, timings_of, first_start, timing_row,
  write_task, write_timings, output_timings_to_csv,
}
use meta_pb.Utils.Csv.Fields.{
  fields, IsField, IsRow, fields-separated, separated-Without, line_and, all_fields-IsField,
}
use meta_pb.Utils.Lines.{Text, codes, comma, newline, lines, separated}
use meta_pb.Utils.Stats.{Double}

csv_line-fields :
    (row : List Text) (rest : Text) (more : List (List Text))
    → IsRow row
    → map fields (lines rest) ≡ more
    → map fields (lines (csv_line row ++ rest)) ≡ row ∷ more
csv_line-fields [] rest more h e = absurd h
csv_line-fields (t ∷ []) rest more h e = absurd h
csv_line-fields (t ∷ (u ∷ ts)) rest more h e =
    ap (λ s. map fields (lines s))
      (append_assoc (separated comma (t ∷ (u ∷ ts))) (newline ∷ []) rest)
    ∙ line_and (separated comma (t ∷ (u ∷ ts))) rest (t ∷ (u ∷ ts)) more
        (separated-Without t (u ∷ ts) h) (fields-separated t (u ∷ ts) h) e

worker_name-IsField : (w : Worker) → IsField (worker_name w)
worker_name-IsField cpu_thread = (all_fields-IsField (codes "CPU" ∷ []) refl).0
worker_name-IsField dpu_thread = (all_fields-IsField (codes "DPU" ∷ []) refl).0
worker_name-IsField map_thread = (all_fields-IsField (codes "MAP" ∷ []) refl).0
worker_name-IsField reduce_thread = (all_fields-IsField (codes "REDUCE" ∷ []) refl).0

module _ (D : Double) (clock : TimePoint D) (shown : Shown D clock) where
  -- Numbers are shown without commas and newlines.
  pub record PlainShown : Type 0 where
    pub plain_number : (n : ℕ) → IsField (shown.number n)
    pub plain_elapsed : (t origin : clock.Point) → IsField (shown.elapsed t origin)

  -- The rows of a worker: its tasks' timings in the order of its map.
  abbrev pub worker_rows : (origin : clock.Point) → Worker → Timings D clock → List (List Text)
  worker_rows origin w [] = []
  worker_rows origin w ((task, ts) ∷ rest) =
      map (timing_row D clock shown origin w task) ts ++ worker_rows origin w rest

  abbrev pub HasPlainType : TaskTiming D clock → Type 0
  HasPlainType t = IsField (codes t.task_type)

  module _ (plain : PlainShown) (origin : clock.Point) (w : Worker) where
    timing_row-IsRow :
        (task : ℕ) (t : TaskTiming D clock)
        → HasPlainType t
        → IsRow (timing_row D clock shown origin w task t)
    timing_row-IsRow task t h = (
      plain.plain_number task,
      (
        worker_name-IsField w,
        (h, (plain.plain_elapsed t.start origin, (plain.plain_elapsed t.end origin, tt))),
      ),
    )

    write_task-fields :
        (task : ℕ) (ts : List (TaskTiming D clock)) (others : List (TaskTiming D clock))
        (rest : Text) (more : List (List Text))
        → All HasPlainType (ts ++ others)
        → (All HasPlainType others → map fields (lines rest) ≡ more)
        → map fields (lines (write_task D clock shown origin w task ts ++ rest))
          ≡ map (timing_row D clock shown origin w task) ts ++ more
    unfolding write_task
    write_task-fields task [] others rest more h e = e h
    write_task-fields task (t ∷ ts) others rest more h e =
        ap (λ s. map fields (lines s))
          (append_assoc (csv_line (timing_row D clock shown origin w task t))
            (write_task D clock shown origin w task ts) rest)
        ∙ csv_line-fields (timing_row D clock shown origin w task t) _ _
            (timing_row-IsRow task t h.0) (write_task-fields task ts others rest more h.1 e)

    write_timings-fields :
        (entries : Timings D clock) (rest : Text) (more : List (List Text))
        → All HasPlainType (timings_of D clock entries)
        → map fields (lines rest) ≡ more
        → map fields (lines (write_timings D clock shown origin w entries ++ rest))
          ≡ worker_rows origin w entries ++ more
    unfolding write_timings timings_of
    write_timings-fields [] rest more h e = e
    write_timings-fields ((task, ts) ∷ entries) rest more h e =
        ap (λ s. map fields (lines s))
          (append_assoc (write_task D clock shown origin w task ts)
            (write_timings D clock shown origin w entries) rest)
        ∙ write_task-fields task ts (timings_of D clock entries) _ _ h
            (λ k. write_timings-fields entries rest more k e)
        ∙ sym (
            append_assoc (map (timing_row D clock shown origin w task) ts)
              (worker_rows origin w entries) more)

    write_timings-last :
        (entries : Timings D clock)
        → All HasPlainType (timings_of D clock entries)
        → map fields (lines (write_timings D clock shown origin w entries))
          ≡ worker_rows origin w entries
    unfolding lines
    write_timings-last entries h =
        ap (λ s. map fields (lines s))
          (sym (append-nil (write_timings D clock shown origin w entries)))
        ∙ write_timings-fields entries [] [] h refl
        ∙ append-nil (worker_rows origin w entries)

  first_start-first :
      PointLaws D clock
      → (timings : Worker → Timings D clock) (now : clock.Point) (w : Worker)
        (t : TaskTiming D clock)
      → In t (timings_of D clock (timings w))
      → clock.before t.start (first_start D clock timings now) ≡ false
  unfolding first_start
  first_start-first laws timings now w t m =
      min_start-first D clock laws _ now t
        (In-all_timings D clock (λ v. timings_of D clock (timings v)) w t m)

-- Where the operators' names, the numbers and the times are shown without commas and newlines, the file
-- of the timings reads back, line by line and field by field, as the header and a row for each timing
-- that the CPU, the DPU, the map and the reduce thread have recorded, in this order; and if the time
-- points are ordered, no timing starts before the point from which the times count.
pub output_timings_to_csv-rows :
    (D : Double) (clock : TimePoint D) (shown : Shown D clock)
    → PlainShown D clock shown
    → PointLaws D clock
    → (timings : Worker → Timings D clock) (now : clock.Point)
    → ((w : Worker) → All (HasPlainType D clock shown) (timings_of D clock (timings w)))
    → let origin = first_start D clock timings now in
      let rows = λ (w : Worker). worker_rows D clock shown origin w (timings w) in
      (map fields (lines (output_timings_to_csv D clock shown timings now))
        ≡ timings_header
          ∷ (rows cpu_thread ++ (rows dpu_thread ++ (rows map_thread ++ rows reduce_thread))))
      × ((w : Worker) (t : TaskTiming D clock)
          → In t (timings_of D clock (timings w))
          → clock.before t.start origin ≡ false)
unfolding output_timings_to_csv
output_timings_to_csv-rows D clock shown plain laws timings now types = (
  csv_line-fields timings_header _ _ (all_fields-IsField timings_header refl) (
      write cpu_thread _ _ (
        write dpu_thread _ _ (
          write map_thread _ _ (
            write_timings-last D clock shown plain origin reduce_thread (timings reduce_thread)
              (types reduce_thread))))),
  first_start-first D clock shown laws timings now,
)
  where
    origin : clock.Point
    origin = first_start D clock timings now

    write :
        (w : Worker) (rest : Text) (more : List (List Text))
        → map fields (lines rest) ≡ more
        → map fields (lines (write_timings D clock shown origin w (timings w) ++ rest))
          ≡ worker_rows D clock shown origin w (timings w) ++ more
    write w rest more e =
        write_timings-fields D clock shown plain origin w (timings w) rest more (types w) e
