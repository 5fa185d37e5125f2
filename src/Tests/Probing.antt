-- ===== src/Tests/Probing.antt =====
-- Measurements with the counters of two sockets.
use Prim.Native.String.{String}
use meta_pb.Common.{ℕ, ◌-◌, ◌≡◌, refl, [], ◌∷◌, none, some, List, ltb, map, arith}
use meta_pb.Common.Real.{sum_from}
use meta_pb.Executor.Perf.{zero_perf}
use meta_pb.Executor.Parse.{do_type, plan_of, start, xfer_mib}
use meta_pb.Executor.Run.{run}
use meta_pb.Executor.Result.Moved.{moved_mib}
use meta_pb.Tests.Numbers.{nat_real}
use meta_pb.Tests.Executor.{chain, half_half, spurious, linear_model, round}
use meta_pb.Executor.Pool.{Worker}
use meta_pb.Executor.Result.Measured.{TimePoint, TaskTiming, exec_real, energy_mean_sum}
use meta_pb.Executor.Result.Measured.Span.{PointLaws, IsFirst, IsLast}
use meta_pb.Executor.Result.Measured.Total.{exec_real-measured}
use meta_pb.Utils.Report.{Report}
use meta_pb.Operator.Samples.Probing.{
  Probing, data_size_mib, time_mean, exec_cpu_with_probe, exec_dpu_with_probe,
}
use meta_pb.Operator.Samples.Probing.Total.{Reading, before, after, seconds, joules}
use meta_pb.Operator.Samples.Probing.Sound.{exec_with_probe}
use meta_pb.Utils.Chrono.{ChronoTrigger, clear, get_report}
use meta_pb.Tests.Utils.{double, counters, nanoseconds}

abbrev reading : Reading double counters nanoseconds
reading = record {
  before_time = 5;
  after_time = 9;
  before_system = 1;
  after_system = 2;
  before_first = 3;
  before_second = 4;
  before_others = [];
  after_first = 13;
  after_second = 24;
  after_others = [];
  as_many = refl;
}

abbrev fresh : Probing double counters nanoseconds
fresh = record {
  ct = record { task2report = λ name. none; task2last_probe = λ name. none };
  cpu_exec_job2name = [];
  dpu_exec_job2name = [];
}

abbrev mac_name : ℕ → String
mac_name size = "MAC"

exec_with_probe_example :
    let size = data_size_mib double counters nanoseconds 3 in
    (exec_cpu_with_probe double counters nanoseconds mac_name
        (λ rep. (before reading, after reading))
        fresh
        3
      ≡ some (
        record (zero_perf double.real) {
          energy_cost_joule = joules reading;
          time_cost_second = seconds reading;
        },
        record fresh {
          ct = clear double counters nanoseconds;
          cpu_exec_job2name = (size, "MAC") ∷ [];
        },
      ))
    × ((ct : ChronoTrigger double counters nanoseconds) × (report : Report double)
        × (exec_dpu_with_probe double counters nanoseconds mac_name
              (λ rep. (before reading, after reading))
              fresh
              3
            ≡ some (
              record (zero_perf double.real) {
                energy_cost_joule = double.real.mul (seconds reading) (double.real.of_ℕ 280);
                time_cost_second = seconds reading;
              },
              record fresh { ct = ct; dpu_exec_job2name = (size, "MAC") ∷ [] },
            ))
        × (get_report double counters nanoseconds "MAC" ct ≡ some report)
        × (time_mean double counters nanoseconds report ≡ some (seconds reading))
        × (energy_mean_sum double report ≡ some (joules reading)))
exec_with_probe_example =
    exec_with_probe reading mac_name (λ rep. (before reading, after reading)) fresh 3 refl refl refl
      refl

abbrev ticks : TimePoint double
ticks = record { Point = ℕ; before = ltb; least = 0; seconds = ◌-◌; milliseconds = ◌-◌ }

abbrev timings : Worker → List (TaskTiming double ticks)
timings w = record { start = 2; end = 7; task_type = "DPU" } ∷ []

ticks_ordered : PointLaws double ticks
ticks_ordered = record {
  irrefl = λ a. ground arith;
  asym = λ a b h. ground (arith, h);
  trans = λ a b c h k. ground (arith, h, k);
}

exec_real-measured_example :
    (first last : ℕ) × (exec_real double ticks counters nanoseconds fresh.ct
        (before reading)
        (after reading)
        timings
        11
        (run linear_model
          (start nat_real 0 chain half_half do_type spurious)
          round).pool.total_transfer_mb
      ≡ some (record {
        energy_cost_joule = double.real.add (joules reading) (
            double.real.mul
              (sum_from nat_real 0 (map (λ t. t.end - t.start) (timings Worker.dpu_thread)))
              (double.real.of_ℕ 280));
        time_cost_second = double.real.div (last - first) (double.real.of_ℕ 1000);
        data_movement_mib = sum_from nat_real 0 (moved_mib 0 chain half_half 0 half_half.order);
      }))
    × IsFirst double ticks timings 11 first
    × IsLast double ticks timings last
exec_real-measured_example =
    exec_real-measured ticks ticks_ordered reading fresh.ct timings 11 linear_model 0 chain
      half_half spurious round refl refl

-- The result of the task in the middle goes back from the DPUs, 100 MiB in 11 page blocks.
moved : moved_mib 0 chain half_half 0 half_half.order ≡ 0 ∷ 108 ∷ 0 ∷ []
unfolding xfer_mib plan_of
moved = refl
