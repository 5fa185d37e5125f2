-- ===== src/Tests/Utils.antt =====
-- Statistics, reports and measurements of concrete values.
use meta_pb.Common.{ℕ, suc, ◌+◌, ◌-◌, ◌≡◌, refl, List, [], ◌∷◌, In, All, some, map, arith}
use meta_pb.Common.Real.{Le}
use meta_pb.Utils.Stats.{Double, Stats, no_stats, add_value, add_values}
use meta_pb.Utils.Stats.Bounds.{add_values_bounds}
use meta_pb.Utils.Report.{Report, singular, plural, subtract_report}
use meta_pb.Utils.Report.Correct.{SubLaws, HasMeans, subtract_report_means}
use meta_pb.Utils.Metrics.{Pcm, all_metrics}
use meta_pb.Utils.Metrics.Fit.{AllFit, Succeeds}
use meta_pb.Utils.Chrono.{Clock, Probe, clear}
use meta_pb.Utils.Chrono.Measured.{measure, elapsed, report_of, HasTime, measure_time}
use meta_pb.Tests.Numbers.{nat_real, nat_order}

abbrev pub double : Double
double = record { real = nat_real; sqrt = λ n. n; largest = 1000000; lowest = 0 }

add_values_bounds_example :
    let s = add_values double (5 ∷ 3 ∷ 9 ∷ []) (no_stats double) in
    (s.rep ≡ 3)
    × In s.upper_bound (5 ∷ 3 ∷ 9 ∷ [])
    × In s.lower_bound (5 ∷ 3 ∷ 9 ∷ [])
    × ((y : ℕ) → In y (5 ∷ 3 ∷ 9 ∷ []) → Le nat_real y s.upper_bound × Le nat_real s.lower_bound y)
add_values_bounds_example =
    add_values_bounds double 5 (3 ∷ 9 ∷ []) nat_order (omega arith) (λ y p. ground (arith, p))

pub nat_sub : SubLaws nat_real
nat_sub = record { sub_nonneg = λ a b h. ground arith }

abbrev pub stats_of : ℕ → Stats double
stats_of n = add_value double n (no_stats double)

abbrev two_items : ℕ → ℕ → Report double
two_items a b = record {
  item_num = 2;
  report_items =
      record { name = "time"; value = singular (stats_of a) }
      ∷ record { name = "bytes"; value = plural (stats_of b ∷ stats_of a ∷ []) }
      ∷ [];
}

subtract_report_means_example :
    Succeeds
      (λ r. All (λ i. HasMeans double i.value) r.report_items)
      (subtract_report double (two_items 7 4) (two_items 2 9))
subtract_report_means_example =
    subtract_report_means double (two_items 7 4) (two_items 2 9) nat_order nat_sub (tt, (refl, tt))
      refl

abbrev pub counters : Pcm double
counters = record {
  SocketState = ℕ;
  SystemState = ℕ;
  Occupancy = ℕ;
  frontend_bound = λ b a. a - b;
  backend_bound = λ b a. a + b;
  core_bound = λ b a. a;
  memory_bound = λ b a. b;
  bad_speculation = λ b a. 1;
  l3_cache_hit_ratio = λ b a. 2;
  l3_cache_occupancy = λ a. a;
  occupancy_difference = ◌-◌;
  bytes_read_from_mc = λ b a. a - b;
  bytes_written_to_mc = λ b a. a - b;
  consumed_joules = λ b a. a - b;
  dram_consumed_joules = λ b a. a - b;
  qpi_to_mc_traffic_ratio = λ b a. a - b;
  no_system_state = 0;
}

abbrev pub nanoseconds : Clock double
nanoseconds = record { Time = ℕ; epoch = 0; duration_ns = ◌-◌ }

abbrev reading : ℕ → Probe double counters nanoseconds
reading t = record { time = t; system_state = t; socket_states = t ∷ suc t ∷ [] }

abbrev readings : List (Probe double counters nanoseconds × Probe double counters nanoseconds)
readings = (reading 10, reading 14) ∷ (reading 20, reading 21) ∷ []

measure_time_example :
    Succeeds
      (λ ct.
        AllFit double counters 2 all_metrics
          (report_of double counters nanoseconds "sort" ct).report_items
        × HasTime double counters nanoseconds
            (report_of double counters nanoseconds "sort" ct).report_items
            (add_values double
              (map (elapsed double counters nanoseconds) readings)
              (no_stats double)))
      (measure double counters nanoseconds "sort" readings
        (some (clear double counters nanoseconds)))
measure_time_example =
    measure_time double counters nanoseconds 2 "sort" readings ((refl, refl), ((refl, refl), tt))
