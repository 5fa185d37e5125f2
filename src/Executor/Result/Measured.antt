-- ===== src/Executor/Result/Measured.antt =====
-- The result of `execWorkload` of src/Executor/HeteroComputePool.cpp in the real mode: the energy from
-- the report of the run and the DPUs' busy time, and the time from the first start of a task to the
-- last end. A worker's timings are the list of its map's entries in the order of iteration. `none` is a
-- failure of the report's accesses.
pub mod Span
pub mod Total
use Prim.Native.String.{String}
use meta_pb.Common.{Option, none, some, List, [], ◌∷◌, ◌++◌, Bool, if◌then◌else◌, get_elem?}
use meta_pb.Executor.Perf.{PerfStats}
use meta_pb.Executor.Pool.{Worker, cpu_thread, dpu_thread, map_thread, reduce_thread}
use meta_pb.Utils.Stats.{Double, Stats}
use meta_pb.Utils.Report.{singular, plural, ReportItem, Report}
use meta_pb.Utils.Metrics.{Pcm}
use meta_pb.Utils.Chrono.{Clock, Probe, ChronoTrigger, tick, tock, get_report}

-- The time points of the clock of the timings.
pub record TimePoint (D : Double) : Type 1 where
  pub Point : Type 0
  pub before : Point → Point → Bool
  -- `time_point::min()`
  pub least : Point
  -- The seconds from the second argument to the first.
  pub seconds : Point → Point → D.real.Num
  -- The difference of the two points' milliseconds since the epoch.
  pub milliseconds : Point → Point → D.real.Num

pub record TaskTiming (D : Double) (clock : TimePoint D) : Type 0 where
  pub start : clock.Point
  pub end : clock.Point
  pub task_type : String

module _ (D : Double) where
  open D.real use {Num, add}

  abbrev pub first_two : List (Stats D) → Option Num
  first_two (a ∷ b ∷ v) = some (add a.mean b.mean)
  first_two _ = none

  abbrev pub means_of : Option (ReportItem D) → Option Num
  means_of none = none
  means_of (some item) = elim item.value [ singular s ↦ none | plural v ↦ first_two v ]

  -- The sum of the means of the first two sockets' energy, the item with index 10.
  unfoldable pub energy_mean_sum : Report D → Option Num
  energy_mean_sum report = means_of (get_elem? report.report_items 10)

module _ (D : Double) (clock : TimePoint D) where
  open D.real use {Num, zero, add, mul, div, of_ℕ}

  -- `totalDPUTime_Second`
  unfoldable pub add_durations : List (TaskTiming D clock) → Num → Num
  add_durations [] total = total
  add_durations (t ∷ ts) total = add_durations ts (add total (clock.seconds t.end t.start))

  unfoldable pub min_start : List (TaskTiming D clock) → clock.Point → clock.Point
  min_start [] p = p
  min_start (t ∷ ts) p = min_start ts (if clock.before t.start p then t.start else p)

  unfoldable pub max_end : List (TaskTiming D clock) → clock.Point → clock.Point
  max_end [] p = p
  max_end (t ∷ ts) p = max_end ts (if clock.before p t.end then t.end else p)

  -- The loop's order of the four workers' timings.
  abbrev pub all_timings : (Worker → List (TaskTiming D clock)) → List (TaskTiming D clock)
  all_timings timings =
      timings cpu_thread ++ (timings dpu_thread ++ (timings map_thread ++ timings reduce_thread))

  abbrev pub with_energy : PerfStats D.real → Option Num → Option (PerfStats D.real)
  with_energy p none = none
  with_energy p (some e) = some (record {
    energy_cost_joule = add e p.energy_cost_joule;
    time_cost_second = p.time_cost_second;
    data_movement_mib = p.data_movement_mib;
  })

  -- `now` is when the results are gathered.
  unfoldable pub do_result :
      (Worker → List (TaskTiming D clock))
      → clock.Point
      → Num
      → Report D
      → Option (PerfStats D.real)
  do_result timings now transfer_mb report =
      with_energy
        (record {
          energy_cost_joule = mul (add_durations (timings dpu_thread) zero) (of_ℕ 280);
          time_cost_second =
              div
                (clock.milliseconds (max_end (all_timings timings) clock.least)
                  (min_start (all_timings timings) now))
                (of_ℕ 1000);
          data_movement_mib = transfer_mb;
        })
        (energy_mean_sum D report)

  abbrev pub on_report :
      (Worker → List (TaskTiming D clock))
      → clock.Point
      → Num
      → Option (Report D)
      → Option (PerfStats D.real)
  on_report timings now transfer_mb none = none
  on_report timings now transfer_mb (some r) = do_result timings now transfer_mb r

  module _ (pcm : Pcm D) (wall : Clock D) where
    abbrev pub hcp : String
    hcp = "HCP"

    abbrev pub report_after : Option (ChronoTrigger D pcm wall) → Option (Report D)
    report_after none = none
    report_after (some ct) = get_report D pcm wall hcp ct

    -- The run between `tick` and `tock`, with the readings at both, and what the threads recorded.
    unfoldable pub exec_real :
        ChronoTrigger D pcm wall
        → (first last : Probe D pcm wall) → (Worker → List (TaskTiming D clock))
        → clock.Point
        → Num
        → Option (PerfStats D.real)
    exec_real ct first last timings now transfer_mb =
        on_report timings now transfer_mb
          (report_after (tock D pcm wall hcp last (tick D pcm wall hcp first ct)))
