-- ===== src/Operator/Samples/Probing/Sound.antt =====
-- What measuring an operator yields.
use Prim.Native.String.{String}
use text.Mathlib.Text.{◌==◌ as str_eq}
use meta_pb.Common.{ℕ, ◌≡◌, refl, ◌∷◌, none, some, false}
use meta_pb.Executor.Perf.{zero_perf}
use meta_pb.Operator.Samples.Probing.{
  time_mean, Probing, probe_rounds, data_size_mib, exec_cpu_with_probe, exec_dpu_with_probe,
}
use meta_pb.Operator.Samples.Probing.Total.{Reading, before, after, seconds, joules, first_measured}
use meta_pb.Executor.Result.Measured.{energy_mean_sum}
use meta_pb.Utils.Report.{Report}
use meta_pb.Utils.Stats.{Double}
use meta_pb.Utils.Metrics.{Pcm}
use meta_pb.Utils.Chrono.{Clock, Probe, ChronoTrigger, bias_name, clear, get_report}

module _ {D : Double} {pcm : Pcm D} {clock : Clock D} (r : Reading D pcm clock)
    (task_name : D.real.Num → String) (readings : ℕ → Probe D pcm clock × Probe D pcm clock)
    (s : Probing D pcm clock) (cnt : ℕ) where
  -- Measuring an operator under a name that has no report, and where none is kept for the bias, never
  -- fails with counters of at least two sockets. On the CPU, the time is the one that passed, and the
  -- energy is what the first two sockets consumed, each as the mean of one value; the state is cleared.
  -- On the DPUs, the time is the one that passed, the energy is 280 times that, and the report is kept:
  -- under the name the state has one with that time and with the energy of the first two sockets.
  pub exec_with_probe :
      (readings 0 ≡ (before r, after r))
      → s.ct.task2report (task_name (data_size_mib D pcm clock cnt)) ≡ none
      → s.ct.task2report bias_name ≡ none
      → str_eq bias_name (task_name (data_size_mib D pcm clock cnt)) ≡ false
      → let size = data_size_mib D pcm clock cnt in
        (exec_cpu_with_probe D pcm clock task_name readings s cnt
          ≡ some (
            record (zero_perf D.real) {
              energy_cost_joule = joules r;
              time_cost_second = seconds r;
            },
            record s {
              ct = clear D pcm clock;
              cpu_exec_job2name = (size, task_name size) ∷ s.cpu_exec_job2name;
            },
          ))
        × ((ct : ChronoTrigger D pcm clock) × (report : Report D) × (exec_dpu_with_probe D pcm clock
                task_name readings s cnt
              ≡ some (
                record (zero_perf D.real) {
                  energy_cost_joule = D.real.mul (seconds r) (D.real.of_ℕ 280);
                  time_cost_second = seconds r;
                },
                record s {
                  ct = ct;
                  dpu_exec_job2name = (size, task_name size) ∷ s.dpu_exec_job2name;
                },
              ))
            × (get_report D pcm clock (task_name size) ct ≡ some report)
            × (time_mean D pcm clock report ≡ some (seconds r))
            × (energy_mean_sum D report ≡ some (joules r)))
  unfolding exec_cpu_with_probe exec_dpu_with_probe probe_rounds
  exec_with_probe e fresh unbiased apart =
      let m =
        first_measured r (task_name (data_size_mib D pcm clock cnt)) s.ct fresh unbiased apart in
      (
        rw (e, m.measured, m.reported, m.time, m.energy) refl,
        (
          m.tocked,
          m.report,
          rw (e, m.measured, m.reported, m.time) refl,
          m.reported,
          m.time,
          m.energy,
        ),
      )
