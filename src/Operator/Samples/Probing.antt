-- ===== src/Operator/Samples/Probing.antt =====
-- `execCPUwithProbe` and `execDPUwithProbe` of src/Operator/OperatorBase.cpp: the measurement of an
-- operator. What the clock and the counters show around each execution is an argument. `none` is a
-- failure of the report's accesses.
pub mod Energy
pub mod Total
pub mod Sound
use Prim.Native.String.{String}
use meta_pb.Common.{
  ℕ, zero, suc, ◌+◌, ◌*◌, ◌^◌, List, [], ◌∷◌, Option, none, some, leb, if◌then◌else◌,
}
use meta_pb.Executor.Perf.{PerfStats, zero_perf}
use meta_pb.Executor.Result.Measured.{energy_mean_sum}
use meta_pb.Operator.Pages.{page_blk_size}
use meta_pb.Utils.Stats.{Double}
use meta_pb.Utils.Report.{singular, plural, Report}
use meta_pb.Utils.Metrics.{Pcm}
use meta_pb.Utils.Chrono.{Clock, Probe, ChronoTrigger, tick, tock, clear, get_report}

abbrev pub preprobe_warmup_rep : ℕ
preprobe_warmup_rep = 0

abbrev pub probe_rep : ℕ
probe_rep = 1

-- The members of `OperatorBase` that a measurement changes; the last entry for a size is the first one.
pub record Probing (D : Double) (pcm : Pcm D) (clock : Clock D) : Type 0 where
  pub ct : ChronoTrigger D pcm clock
  pub cpu_exec_job2name : List (D.real.Num × String)
  pub dpu_exec_job2name : List (D.real.Num × String)

module _ (D : Double) (pcm : Pcm D) (clock : Clock D) where
  open D.real use {Num, add, mul, div, of_ℕ}

  -- `tick` and `tock` around an execution, if there is something to add to.
  abbrev pub tick_tock :
      String
      → (before after : Probe D pcm clock) → Option (ChronoTrigger D pcm clock)
      → Option (ChronoTrigger D pcm clock)
  tick_tock name before after none = none
  tick_tock name before after (some ct) =
      tock D pcm clock name after (tick D pcm clock name before ct)

  -- The loop over `rep`; the warm-up is not measured.
  unfoldable pub probe_rounds :
      (rounds rep : ℕ)
      → String
      → (readings : ℕ → Probe D pcm clock × Probe D pcm clock) → Option (ChronoTrigger D pcm clock)
      → Option (ChronoTrigger D pcm clock)
  unfolding tick tock
  probe_rounds zero rep name readings o = o
  probe_rounds (suc rounds) rep name readings o = probe_rounds rounds (suc rep) name readings (
      if leb preprobe_warmup_rep rep then tick_tock name (readings rep).0 (readings rep).1 o else o)

  -- `(size_t)pageBlkCnt * (size_t)pageBlkSize / (float)(1 << 20)`.
  abbrev pub data_size_mib : ℕ → Num
  data_size_mib cnt = div (of_ℕ (cnt * page_blk_size)) (of_ℕ (2 ^ 20))

  -- `timeMean`, in seconds.
  abbrev pub time_mean : Report D → Option Num
  time_mean report = elim report.report_items [
    | [] ↦ none
    | x ∷ xs ↦ elim x.value [ singular s ↦ some (div s.mean (of_ℕ (10 ^ 9))) | plural v ↦ none ]
  ]

  abbrev pub cpu_perf : (time energy : Option Num) → Option (PerfStats D.real)
  cpu_perf (some time) (some energy) =
      some (record (zero_perf D.real) { energy_cost_joule = energy; time_cost_second = time })
  cpu_perf _ _ = none

  -- `DPU_ENERGY_CONSTANT_PER_SEC` is 280.
  abbrev pub dpu_perf : Option Num → Option (PerfStats D.real)
  dpu_perf none = none
  dpu_perf (some time) = some (record (zero_perf D.real) {
    energy_cost_joule = mul time (of_ℕ 280);
    time_cost_second = time;
  })

  abbrev pub cpu_report_perf : Option (Report D) → Option (PerfStats D.real)
  cpu_report_perf none = none
  cpu_report_perf (some r) = cpu_perf (time_mean r) (energy_mean_sum D r)

  abbrev pub dpu_report_perf : Option (Report D) → Option (PerfStats D.real)
  dpu_report_perf none = none
  dpu_report_perf (some r) = dpu_perf (time_mean r)

  abbrev pub report_named : String → Option (ChronoTrigger D pcm clock) → Option (Report D)
  report_named name none = none
  report_named name (some ct) = get_report D pcm clock name ct

  abbrev pub all_rounds :
      String
      → (readings : ℕ → Probe D pcm clock × Probe D pcm clock) → ChronoTrigger D pcm clock
      → Option (ChronoTrigger D pcm clock)
  all_rounds name readings ct =
      probe_rounds (preprobe_warmup_rep + probe_rep) 0 name readings (some ct)

  abbrev pub and_state :
      Option (PerfStats D.real)
      → Option (Probing D pcm clock)
      → Option (PerfStats D.real × Probing D pcm clock)
  and_state (some p) (some s) = some (p, s)
  and_state _ _ = none

  abbrev pub with_ct :
      Probing D pcm clock → Option (ChronoTrigger D pcm clock) → Option (Probing D pcm clock)
  with_ct s none = none
  with_ct s (some ct) = some (record s { ct = ct })

  -- `execCPUwithProbe`; the name of the task is made of the operator's name and the size.
  unfoldable pub exec_cpu_with_probe :
      (task_name : Num → String)
      → (readings : ℕ → Probe D pcm clock × Probe D pcm clock) → Probing D pcm clock
      → ℕ
      → Option (PerfStats D.real × Probing D pcm clock)
  unfolding probe_rounds clear get_report
  exec_cpu_with_probe task_name readings s cnt =
      let name = task_name (data_size_mib cnt) in
      let named : Probing D pcm clock = record s {
        cpu_exec_job2name = (data_size_mib cnt, name) ∷ s.cpu_exec_job2name;
      } in
      and_state (cpu_report_perf (report_named name (all_rounds name readings s.ct)))
        (some (record named { ct = clear D pcm clock }))

  -- `execDPUwithProbe`, which keeps its report.
  unfoldable pub exec_dpu_with_probe :
      (task_name : Num → String)
      → (readings : ℕ → Probe D pcm clock × Probe D pcm clock) → Probing D pcm clock
      → ℕ
      → Option (PerfStats D.real × Probing D pcm clock)
  unfolding probe_rounds get_report
  exec_dpu_with_probe task_name readings s cnt =
      let name = task_name (data_size_mib cnt) in
      let named : Probing D pcm clock = record s {
        dpu_exec_job2name = (data_size_mib cnt, name) ∷ s.dpu_exec_job2name;
      } in
      and_state (dpu_report_perf (report_named name (all_rounds name readings s.ct)))
        (with_ct named (all_rounds name readings s.ct))
