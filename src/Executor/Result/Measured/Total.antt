-- ===== src/Executor/Result/Measured/Total.antt =====
-- The real mode's result is defined.
use meta_pb.Common.{ℕ, ◌≡◌, refl, List, Bool, none, some, map}
use meta_pb.Common.Real.{sum_from}
use meta_pb.Executor.Graph.{TaskGraph, Schedule}
use meta_pb.Executor.Perf.{PerfModel}
use meta_pb.Executor.Parse.{do_type, start}
use meta_pb.Executor.Run.{run}
use meta_pb.Executor.Result.Moved.{moved_mib, run-moved_mib}
use meta_pb.Executor.Pool.{Worker, dpu_thread}
use meta_pb.Executor.Result.Measured.{
  TimePoint, TaskTiming, min_start, max_end, all_timings, do_result, exec_real,
}
use meta_pb.Executor.Result.Measured.Span.{
  PointLaws, IsFirst, IsLast, add_durations-sum_from, min_start-IsFirst, max_end-IsLast,
}
use meta_pb.Utils.Stats.{Double}
use meta_pb.Utils.Metrics.{Pcm}
use meta_pb.Utils.Chrono.{Clock, ChronoTrigger, bias_name}
use meta_pb.Operator.Samples.Probing.Total.{Reading, before, after, joules, first_measured}

-- Where no run has been reported before, none is kept for the bias, and the time points are ordered, the
-- first run of the real mode has a result with counters of at least two sockets: the energy is what the
-- first two sockets consumed, plus 280 times the sum of the seconds of the DPU thread's timings; the time
-- is from the least start of a timing, or the time of the call if none is before it, to the greatest
-- end, or the least time point if there is no timing; and the data movement is the sum of what the
-- transfers of each task of the schedule move, from the total that parsing has made, after any
-- interleaving of the threads.
pub exec_real-measured :
    {D : Double} {pcm : Pcm D} {wall : Clock D}
    → (clock : TimePoint D) → PointLaws D clock
    → (r : Reading D pcm wall) (ct : ChronoTrigger D pcm wall)
      (timings : Worker → List (TaskTiming D clock)) (now : clock.Point) (om : PerfModel D.real)
      (heap : ℕ) (g : TaskGraph D.real) (sched : Schedule D.real) (wakeups : List Bool)
      (ws : List Worker)
    → ct.task2report "HCP" ≡ none
    → ct.task2report bias_name ≡ none
    → (first last : clock.Point) × (exec_real D clock pcm wall ct
          (before r)
          (after r)
          timings
          now
          (run om (start D.real heap g sched do_type wakeups) ws).pool.total_transfer_mb
        ≡ some (record {
          energy_cost_joule = D.real.add (joules r) (
              D.real.mul
                (sum_from D.real D.real.zero (
                  map
                    (λ (t : TaskTiming D clock). clock.seconds t.end t.start)
                    (timings dpu_thread)))
                (D.real.of_ℕ 280));
          time_cost_second = D.real.div (clock.milliseconds last first) (D.real.of_ℕ 1000);
          data_movement_mib = sum_from D.real D.real.zero (moved_mib heap g sched 0 sched.order);
        }))
      × IsFirst D clock timings now first
      × IsLast D clock timings last
unfolding exec_real do_result
exec_real-measured {D} clock laws r ct timings now om heap g sched wakeups ws fresh unbiased =
    let m = first_measured r "HCP" ct fresh unbiased refl in
    (
      min_start D clock (all_timings D clock timings) now,
      max_end D clock (all_timings D clock timings) clock.least,
      rw
          (
            m.measured,
            m.reported,
            m.energy,
            add_durations-sum_from D clock (timings dpu_thread) D.real.zero,
            run-moved_mib heap g sched om do_type wakeups ws,
          )
          refl,
      min_start-IsFirst D clock laws timings now,
      max_end-IsLast D clock laws timings,
    )
