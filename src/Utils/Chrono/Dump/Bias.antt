-- ===== src/Utils/Chrono/Dump/Bias.antt =====
-- The measurements of the bias before a dump: what they leave in the reports.
use Prim.Native.String.{String}
use text.Mathlib.Text.{◌==◌ as str_eq}
use text.Mathlib.TextPositions.{eq_refl}
use meta_pb.Common.{
  ℕ, zero, suc, ◌≡◌, refl, sym, ◌∙◌, List, [], ◌∷◌, false, if◌then◌else◌, Option, none, some,
  Bool-cases, inl, inr, if_true, if_false, subst,
}
use meta_pb.Utils.Stats.{Double}
use meta_pb.Utils.Report.{
  singular, plural, ItemData, ReportItem, Report, add_datum, new_report, new_item, with_items,
  cons_item, renew,
}
use meta_pb.Utils.Metrics.{all_metrics, Pcm}
use meta_pb.Utils.Metrics.Fit.{Succeeds, IsSystemItem}
use meta_pb.Utils.Metrics.Gathered.{
  AllReady, AllGathered, AllGathered-AllReady, gather_items-AllGathered,
}
use meta_pb.Utils.Chrono.{
  Clock, Probe, ChronoTrigger, put_name, or_else, bias_name, tick, add_time, then_gather,
  tock_report, tock, with_report,
}
use meta_pb.Utils.Chrono.Measured.{report_of, IsReading}
use meta_pb.Utils.Chrono.Dump.{bias_round, measure_bias}

module _ (D : Double) (pcm : Pcm D) (clock : Clock D) (n : ℕ) where
  abbrev pub Trigger : Type 0
  Trigger = ChronoTrigger D pcm clock

  abbrev pub Reports : Type 0
  Reports = String → Option (Report D)

  -- Thirteen items that can be gathered, and that have been.
  abbrev pub IsReady : Report D → Type 0
  IsReady r = AllReady D pcm n all_metrics r.report_items × (r.item_num ≡ 13)

  abbrev pub IsMeasured : Report D → Type 0
  IsMeasured r = AllGathered D pcm n all_metrics r.report_items × (r.item_num ≡ 13)

  IsMeasured-IsReady : (r : Report D) → IsMeasured r → IsReady r
  IsMeasured-IsReady r h = (AllGathered-AllReady D pcm n all_metrics r.report_items h.0, h.1)

  pub new_report-IsReady : IsReady (new_report D 13)
  unfolding new_report new_item
  new_report-IsReady =
      ((tt, (tt, (tt, (tt, (tt, (tt, (tt, (tt, (tt, (tt, (tt, (tt, (tt, tt))))))))))))), refl)

  with_items-IsMeasured :
      (r : Report D) (o : Option (List (ReportItem D)))
      → r.item_num ≡ 13
      → Succeeds (AllGathered D pcm n all_metrics) o
      → Succeeds IsMeasured (with_items D r o)
  with_items-IsMeasured r none e h = h
  with_items-IsMeasured r (some items) e h = (h, e)

  add_datum-IsSystemItem :
      (t : D.real.Num) (d : ItemData D)
      → IsSystemItem D pcm n d
      → Succeeds (IsSystemItem D pcm n) (add_datum D t d)
  unfolding add_datum
  add_datum-IsSystemItem t (singular s) h = tt
  add_datum-IsSystemItem t (plural v) h = absurd h

  cons_item-AllReady :
      (x : ReportItem D) (o : Option (ItemData D)) (xs : List (ReportItem D))
      → Succeeds (IsSystemItem D pcm n) o
      → AllReady D pcm n all_metrics (x ∷ xs)
      → Succeeds (AllReady D pcm n all_metrics) (cons_item D (renew D x o) (some xs))
  cons_item-AllReady x none xs h k = h
  cons_item-AllReady x (some d) xs h k = (h, k.1)

  add_time-AllReady :
      (t : D.real.Num) (items : List (ReportItem D))
      → AllReady D pcm n all_metrics items
      → Succeeds (AllReady D pcm n all_metrics) (add_time D pcm clock t items)
  unfolding add_time
  add_time-AllReady t [] h = absurd h
  add_time-AllReady t (x ∷ xs) h =
      cons_item-AllReady x (add_datum D t x.value) xs (add_datum-IsSystemItem t x.value h.0) h

  then_gather-AllGathered :
      (last now : Probe D pcm clock) (o : Option (List (ReportItem D)))
      → IsReading D pcm clock n last
      → IsReading D pcm clock n now
      → Succeeds (AllReady D pcm n all_metrics) o
      → Succeeds (AllGathered D pcm n all_metrics) (then_gather D pcm clock last now o)
  then_gather-AllGathered last now none h k ok = ok
  then_gather-AllGathered last now (some items) h k ok =
      gather_items-AllGathered D pcm n last.socket_states now.socket_states h k last.system_state
        now.system_state all_metrics items ok

  tock_report-IsMeasured :
      (last now : Probe D pcm clock) (r : Report D)
      → IsReading D pcm clock n last
      → IsReading D pcm clock n now
      → IsReady r
      → Succeeds IsMeasured (tock_report D pcm clock last now r)
  unfolding tock_report
  tock_report-IsMeasured last now r h k ok =
      with_items-IsMeasured r _ ok.1
        (then_gather-AllGathered last now _ h k (add_time-AllReady _ r.report_items ok.0))

  -- The reports with the bias's put in.
  abbrev pub WithBias : Reports → Report D → Reports → Type 0
  WithBias before bias after =
      (name : String) → after name ≡ (if str_eq name bias_name then some bias else before name)

  -- The bias has been measured, and nothing else has changed.
  abbrev pub BiasMeasured : Reports → Trigger → Type 0
  BiasMeasured before ct = (bias : Report D) × IsMeasured bias × WithBias before bias ct.task2report

  -- What a round of the measurement starts with.
  abbrev pub BiasReady : Reports → Trigger → Type 0
  BiasReady before ct =
      IsReady (report_of D pcm clock bias_name ct)
      × ((name : String) → str_eq name bias_name ≡ false → ct.task2report name ≡ before name)

  put_name-WithBias :
      (before f : Reports) (r : Report D)
      → ((name : String) → str_eq name bias_name ≡ false → f name ≡ before name)
      → WithBias before r (put_name bias_name r f)
  put_name-WithBias before f r h name = elim (Bool-cases (str_eq name bias_name)) [
    | inl e ↦ rw e refl
    | inr e ↦ rw e (h name e)
  ]

  with_report-BiasMeasured :
      (before : Reports) (last : Probe D pcm clock) (ct : Trigger) (o : Option (Report D))
      → ((name : String) → str_eq name bias_name ≡ false → ct.task2report name ≡ before name)
      → Succeeds IsMeasured o
      → Succeeds (BiasMeasured before) (with_report D pcm clock bias_name last ct o)
  with_report-BiasMeasured before last ct none k h = h
  with_report-BiasMeasured before last ct (some r) k h =
      (r, h, put_name-WithBias before ct.task2report r k)

  bias_round-BiasMeasured :
      (before : Reports) (p : Probe D pcm clock × Probe D pcm clock) (ct : Trigger)
      → IsReading D pcm clock n p.0
      → IsReading D pcm clock n p.1
      → BiasReady before ct
      → Succeeds (BiasMeasured before) (bias_round D pcm clock p (some ct))
  unfolding tock tick
  bias_round-BiasMeasured before p ct h k ok =
      with_report-BiasMeasured before p.0 (tick D pcm clock bias_name p.0 ct) _ ok.1
        (tock_report-IsMeasured p.0 p.1 (report_of D pcm clock bias_name ct) h k ok.0)

  BiasMeasured-BiasReady :
      (before : Reports) (ct : Trigger) → BiasMeasured before ct → BiasReady before ct
  BiasMeasured-BiasReady before ct (bias, h, k) = (
    subst (λ o. IsReady (or_else o (new_report D 13)))
        (sym (
          k bias_name
          ∙ if_true (str_eq bias_name bias_name) (some bias) (before bias_name)
              (eq_refl bias_name)))
        (IsMeasured-IsReady bias h),
    λ name e. k name ∙ if_false (str_eq name bias_name) (some bias) (before name) e,
  )

  module _ (before : Reports) (readings : ℕ → Probe D pcm clock × Probe D pcm clock)
      (sockets : (i : ℕ)
        → IsReading D pcm clock n (readings i).0 × IsReading D pcm clock n (readings i).1) where
    measure_bias-BiasMeasured :
        (m : ℕ) (o : Option Trigger)
        → Succeeds (BiasMeasured before) o
        → Succeeds (BiasMeasured before) (measure_bias D pcm clock m readings o)
    unfolding measure_bias
    measure_bias-BiasMeasured zero o h = h
    measure_bias-BiasMeasured (suc m) none h = absurd h
    measure_bias-BiasMeasured (suc m) (some ct) h = measure_bias-BiasMeasured m _ (
        bias_round-BiasMeasured before (readings m) ct (sockets m).0 (sockets m).1
          (BiasMeasured-BiasReady before ct h))

    pub measure_bias_first :
        (m : ℕ) (ct : Trigger)
        → BiasReady before ct
        → Succeeds (BiasMeasured before) (measure_bias D pcm clock (suc m) readings (some ct))
    unfolding measure_bias
    measure_bias_first m ct h =
        measure_bias-BiasMeasured m _
          (bias_round-BiasMeasured before (readings m) ct (sockets m).0 (sockets m).1 h)
