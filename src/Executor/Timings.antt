-- ===== src/Executor/Timings.antt =====
-- `outputTimingsToCSV`, `printTimings` and `printTimingsForType` of src/Executor/HeteroComputePool.cpp:
-- what they write of the timings that the threads have recorded, to a file that can be opened and to
-- the terminal. A worker's map of timings is the list of its entries in the order of iteration.
pub mod Rows
use meta_pb.Common.{ℕ, List, [], ◌∷◌, ◌++◌, map}
use meta_pb.Executor.Pool.{Worker, cpu_thread, dpu_thread, map_thread, reduce_thread}
use meta_pb.Executor.Result.Measured.{TimePoint, TaskTiming, min_start}
use meta_pb.Utils.Lines.{Text, codes, comma, newline, separated}
use meta_pb.Utils.Stats.{Double}

-- How the streams show a number, the milliseconds from the second point to the first, and those of a
-- point since the epoch.
pub record Shown (D : Double) (clock : TimePoint D) : Type 0 where
  pub number : ℕ → Text
  pub elapsed : clock.Point → clock.Point → Text
  pub since_epoch : clock.Point → Text

abbrev pub timings_header : List Text
timings_header = map codes ("TaskID" ∷ "Worker" ∷ "OpType" ∷ "Start(ms)" ∷ "End(ms)" ∷ [])

abbrev pub worker_name : Worker → Text
worker_name cpu_thread = codes "CPU"
worker_name dpu_thread = codes "DPU"
worker_name map_thread = codes "MAP"
worker_name reduce_thread = codes "REDUCE"

-- A line of the file, its fields in turn.
abbrev pub csv_line : List Text → Text
csv_line row = separated comma row ++ (newline ∷ [])

module _ (D : Double) (clock : TimePoint D) where
  -- A worker's map: tasks and their timings.
  abbrev pub Timings : Type 0
  Timings = List (ℕ × List (TaskTiming D clock))

  -- The timings of all tasks, one after the other.
  unfoldable pub timings_of : Timings → List (TaskTiming D clock)
  timings_of [] = []
  timings_of ((task, ts) ∷ rest) = ts ++ timings_of rest

  -- The smallest start, of what the workers' maps hold.
  unfoldable pub first_start : (Worker → Timings) → clock.Point → clock.Point
  unfolding timings_of min_start
  first_start timings now =
      min_start D clock
        (timings_of (timings cpu_thread)
          ++ (timings_of (timings dpu_thread)
              ++ (timings_of (timings map_thread) ++ timings_of (timings reduce_thread))))
        now

  module _ (shown : Shown D clock) where
    abbrev pub timing_row : (origin : clock.Point) → Worker → ℕ → TaskTiming D clock → List Text
    timing_row origin w task t =
        shown.number task
        ∷ worker_name w
        ∷ codes t.task_type
        ∷ shown.elapsed t.start origin
        ∷ shown.elapsed t.end origin
        ∷ []

    unfoldable pub write_task :
        (origin : clock.Point) → Worker → ℕ → List (TaskTiming D clock) → Text
    write_task origin w task [] = []
    write_task origin w task (t ∷ ts) =
        csv_line (timing_row origin w task t) ++ write_task origin w task ts

    -- `writeTimings`
    unfoldable pub write_timings : (origin : clock.Point) → Worker → Timings → Text
    unfolding write_task
    write_timings origin w [] = []
    write_timings origin w ((task, ts) ∷ rest) =
        write_task origin w task ts ++ write_timings origin w rest

    unfoldable pub output_timings_to_csv : (Worker → Timings) → (now : clock.Point) → Text
    unfolding first_start write_timings
    output_timings_to_csv timings now =
        let origin = first_start timings now in
        csv_line timings_header
        ++ (write_timings origin cpu_thread (timings cpu_thread)
            ++ (write_timings origin dpu_thread (timings dpu_thread)
                ++ (write_timings origin map_thread (timings map_thread)
                    ++ write_timings origin reduce_thread (timings reduce_thread))))

    abbrev pub timing_line : ℕ → TaskTiming D clock → Text
    timing_line task t =
        codes "Task "
        ++ (shown.number task
            ++ (codes " - Start: "
                ++ (shown.since_epoch t.start
                    ++ (codes "ms, End: " ++ (shown.since_epoch t.end ++ codes "ms\n")))))

    unfoldable pub print_task : ℕ → List (TaskTiming D clock) → Text
    print_task task [] = []
    print_task task (t ∷ ts) = timing_line task t ++ print_task task ts

    unfoldable pub print_entries : Timings → Text
    unfolding print_task
    print_entries [] = []
    print_entries ((task, ts) ∷ rest) = print_task task ts ++ print_entries rest

    unfoldable pub print_timings_for_type : Worker → Timings → Text
    unfolding print_entries
    print_timings_for_type w timings =
        worker_name w ++ (codes " Timings:\n" ++ print_entries timings)

    unfoldable pub print_timings : (Worker → Timings) → Text
    unfolding print_timings_for_type
    print_timings timings =
        print_timings_for_type cpu_thread (timings cpu_thread)
        ++ (print_timings_for_type dpu_thread (timings dpu_thread)
            ++ (print_timings_for_type map_thread (timings map_thread)
                ++ print_timings_for_type reduce_thread (timings reduce_thread)))
