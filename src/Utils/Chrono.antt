-- ===== src/Utils/Chrono.antt =====
-- `ChronoTrigger` of include/utils/ChronoTrigger.hpp and src/utils/ChronoTrigger.cpp: the reports and
-- the last probes of the tasks, by name. What the clock and the counters show when a call reads them
-- is a `Reading`. `none` is a failure of the reports' operations.
pub mod Measured
pub mod Dump
use Prim.Native.String.{String}
use text.Mathlib.Text.{◌==◌ as str_eq}
use meta_pb.Common.{Option, none, some, List, [], ◌∷◌, if◌then◌else◌}
use meta_pb.Utils.Stats.{Double}
use meta_pb.Utils.Report.{
  Report, ReportItem, new_report, empty_report, subtract_report, add_datum, renew, cons_item,
  with_items,
}
use meta_pb.Utils.Metrics.{Pcm, all_metrics, gather_items}

pub record Clock (D : Double) : Type 1 where
  pub Time : Type 0
  pub epoch : Time
  -- Nanoseconds from the second argument to the first.
  pub duration_ns : Time → Time → D.real.Num

pub record Probe (D : Double) (pcm : Pcm D) (clock : Clock D) : Type 0 where
  pub time : clock.Time
  pub system_state : pcm.SystemState
  pub socket_states : List pcm.SocketState

pub record ChronoTrigger (D : Double) (pcm : Pcm D) (clock : Clock D) : Type 0 where
  pub task2report : String → Option (Report D)
  pub task2last_probe : String → Option (Probe D pcm clock)

abbrev pub put_name {ℓ} : {A : Type ℓ} → String → A → (String → Option A) → String → Option A
put_name name a f x = if str_eq x name then some a else f x

abbrev pub or_else {ℓ} : {A : Type ℓ} → Option A → A → A
or_else none d = d
or_else (some a) d = a

abbrev pub bias_name : String
bias_name = "__BIAS__"

module _ (D : Double) (pcm : Pcm D) (clock : Clock D) where
  -- `clear`, and the state after construction.
  unfoldable pub clear : ChronoTrigger D pcm clock
  clear = record { task2report = λ name. none; task2last_probe = λ name. none }

  -- `Probe()`
  unfoldable pub no_probe : Probe D pcm clock
  no_probe = record { time = clock.epoch; system_state = pcm.no_system_state; socket_states = [] }

  unfoldable pub tick :
      String → Probe D pcm clock → ChronoTrigger D pcm clock → ChronoTrigger D pcm clock
  tick name reading ct = record {
    task2report = ct.task2report;
    task2last_probe = put_name name reading ct.task2last_probe;
  }

  -- `reportItems[TimeConsume_ns].addData(duration)`
  unfoldable pub add_time : D.real.Num → List (ReportItem D) → Option (List (ReportItem D))
  add_time x [] = none
  add_time x (item ∷ items) = cons_item D (renew D item (add_datum D x item.value)) (some items)

  abbrev pub then_gather :
      Probe D pcm clock
      → Probe D pcm clock
      → Option (List (ReportItem D))
      → Option (List (ReportItem D))
  then_gather last now none = none
  then_gather last now (some items) =
      gather_items D pcm all_metrics last.socket_states now.socket_states last.system_state
        now.system_state items

  abbrev pub with_report :
      String
      → Probe D pcm clock
      → ChronoTrigger D pcm clock
      → Option (Report D)
      → Option (ChronoTrigger D pcm clock)
  with_report name last ct none = none
  with_report name last ct (some r) = some (record {
    task2report = put_name name r ct.task2report;
    task2last_probe = put_name name last ct.task2last_probe;
  })

  -- The report that `tock` adds to, and what it becomes.
  unfoldable pub tock_report : Probe D pcm clock → Probe D pcm clock → Report D → Option (Report D)
  tock_report last now report =
      with_items D report
        (then_gather last now (add_time (clock.duration_ns now.time last.time) report.report_items))

  -- `task2LastProbe[taskName]` makes a missing probe.
  unfoldable pub tock :
      String → Probe D pcm clock → ChronoTrigger D pcm clock → Option (ChronoTrigger D pcm clock)
  tock name now ct =
      let last = or_else (ct.task2last_probe name) no_probe in
      with_report name last ct
        (tock_report last now (or_else (ct.task2report name) (new_report D 13)))

  -- The subscripts make missing reports; the result is the corrected report.
  unfoldable pub get_report : String → ChronoTrigger D pcm clock → Option (Report D)
  get_report name ct =
      subtract_report D (or_else (ct.task2report name) (empty_report D))
        (or_else (ct.task2report bias_name) (empty_report D))
