-- ===== src/Utils/Chrono/Measured.antt =====
-- Measurements of a task: `tick` and `tock` in turn.
use Prim.Native.String.{String}
use text.Mathlib.Text.{◌==◌ as str_eq}
use text.Mathlib.TextPositions.{eq_refl}
use meta_pb.Common.{ℕ, ◌≡◌, refl, Option, none, some, List, [], ◌∷◌, length, map, All, if_true}
use meta_pb.Utils.Stats.{Double, Stats, no_stats, add_value, add_values}
use meta_pb.Utils.Report.{
  singular, ReportItem, Report, new_item, add_datum, new_report, cons_item, with_items,
}
use meta_pb.Utils.Metrics.{all_metrics, Pcm, metric_get, gather_items}
use meta_pb.Utils.Metrics.Fit.{AllFit, Succeeds, gather_items_fit}
use meta_pb.Utils.Chrono.{
  Clock, Probe, ChronoTrigger, put_name, or_else, clear, tick, add_time, tock_report, tock,
  with_report,
}

module _ (D : Double) (pcm : Pcm D) (clock : Clock D) where
  -- A `tick` and a `tock` of a task for each pair of readings.
  abbrev pub measure_once :
      String
      → Probe D pcm clock × Probe D pcm clock
      → Option (ChronoTrigger D pcm clock)
      → Option (ChronoTrigger D pcm clock)
  measure_once name p none = none
  measure_once name p (some ct) = tock D pcm clock name p.1 (tick D pcm clock name p.0 ct)

  abbrev pub measure :
      String
      → List (Probe D pcm clock × Probe D pcm clock)
      → Option (ChronoTrigger D pcm clock)
      → Option (ChronoTrigger D pcm clock)
  measure name [] o = o
  measure name (p ∷ ps) o = measure name ps (measure_once name p o)

  -- The time between the two readings of a pair.
  abbrev pub elapsed : Probe D pcm clock × Probe D pcm clock → D.real.Num
  elapsed p = clock.duration_ns p.1.time p.0.time

  -- The report of a task, a new one if there is none.
  abbrev pub report_of : String → ChronoTrigger D pcm clock → Report D
  report_of name ct = or_else (ct.task2report name) (new_report D 13)

  -- The first item, that of the time, holds `s`.
  abbrev pub HasTime : List (ReportItem D) → Stats D → Type 0
  HasTime [] s = ⊥
  HasTime (x ∷ xs) s = x.value ≡ singular s

  -- A reading of the counters of `n` sockets.
  abbrev pub IsReading : ℕ → Probe D pcm clock → Type 0
  IsReading n p = length p.socket_states ≡ n

  module _ (n : ℕ) where
    abbrev pub IsReport : Stats D → Report D → Type 0
    IsReport s r = AllFit D pcm n all_metrics r.report_items × HasTime r.report_items s

    head_kept :
        (P : List (ReportItem D) → Type 0) (x : ReportItem D) (s : Stats D)
        (o : Option (List (ReportItem D)))
        → x.value ≡ singular s
        → Succeeds P (cons_item D (some x) o)
        → Succeeds (λ items. P items × HasTime items s) (cons_item D (some x) o)
    head_kept P x s none e h = absurd h
    head_kept P x s (some xs) e h = (h, e)

    with_items_ok :
        (r : Report D) (s : Stats D) (o : Option (List (ReportItem D)))
        → Succeeds (λ items. AllFit D pcm n all_metrics items × HasTime items s) o
        → Succeeds (IsReport s) (with_items D r o)
    with_items_ok r s none h = absurd h
    with_items_ok r s (some items) h = h

    pub put_same :
        {A : Type 0} (name : String) (a : A) (f : String → Option A)
        → put_name name a f name ≡ some a
    put_same name a f = if_true (str_eq name name) (some a) (f name) (eq_refl name)

    stored :
        (name : String) (last : Probe D pcm clock) (ct : ChronoTrigger D pcm clock) (s : Stats D)
        (o : Option (Report D))
        → Succeeds (IsReport s) o
        → Succeeds (λ ct'. IsReport s (report_of name ct')) (with_report D pcm clock name last ct o)
    stored name last ct s none h = absurd h
    stored name last ct s (some r) h = rw (put_same name r ct.task2report) h

    tock_report_ok :
        (last now : Probe D pcm clock) (num : ℕ) (items : List (ReportItem D)) (s : Stats D)
        → IsReading n last
        → IsReading n now
        → IsReport s (record { item_num = num; report_items = items })
        → Succeeds
            (IsReport (add_value D (elapsed (last, now)) s))
            (tock_report D pcm clock last now (record { item_num = num; report_items = items }))
    unfolding tock_report add_time add_datum gather_items metric_get
    tock_report_ok last now num [] s h k ok = absurd ok.0
    tock_report_ok last now num (x ∷ xs) s h k ok = rw ok.1 (
        with_items_ok (record { item_num = num; report_items = before ∷ xs })
          (add_value D (elapsed (last, now)) s) _
          (head_kept (AllFit D pcm n all_metrics) timed (add_value D (elapsed (last, now)) s) _ refl
            (gather_items_fit D pcm n last.socket_states now.socket_states h k last.system_state
              now.system_state all_metrics (timed ∷ xs) (tt, ok.0.1))))
      where
        before : ReportItem D
        before = record { name = x.name; value = singular s }

        timed : ReportItem D
        timed = record { name = x.name; value = singular (add_value D (elapsed (last, now)) s) }

    -- What `tock` leaves under the task's name.
    tock_ok :
        (name : String) (last now : Probe D pcm clock) (ct : ChronoTrigger D pcm clock)
        (s : Stats D)
        → IsReading n last
        → IsReading n now
        → IsReport s (report_of name ct)
        → Succeeds
            (λ ct'. IsReport (add_value D (elapsed (last, now)) s) (report_of name ct'))
            (tock D pcm clock name now (tick D pcm clock name last ct))
    unfolding tock tick
    tock_ok name last now ct s h k ok = rw (put_same name last ct.task2last_probe) (
        stored name last (tick D pcm clock name last ct) _ _ (
          tock_report_ok last now (report_of name ct).item_num (report_of name ct).report_items s h
            k ok))

    measured :
        (name : String) (ps : List (Probe D pcm clock × Probe D pcm clock))
        (o : Option (ChronoTrigger D pcm clock)) (s : Stats D)
        → All (λ p. IsReading n p.0 × IsReading n p.1) ps
        → Succeeds (λ ct. IsReport s (report_of name ct)) o
        → Succeeds
            (λ ct. IsReport (add_values D (map elapsed ps) s) (report_of name ct))
            (measure name ps o)
    unfolding add_values
    measured name [] o s h ok = ok
    measured name (p ∷ ps) none s h ok = absurd ok
    measured name (p ∷ ps) (some ct) s h ok =
        measured name ps _ (add_value D (elapsed p) s) h.1
          (tock_ok name p.0 p.1 ct s h.0.0 h.0.1 ok)

-- Measuring a task any number of times from a cleared state, by `tick` and `tock` with readings of the
-- same number of sockets, never fails: in the end the report has one item for each metric, a `Stats`
-- for the time and for the system's metric and at most one vector with a `Stats` per socket for each
-- of the others, and the item of the time holds the statistics of the times that passed.
pub measure_time :
    (D : Double) (pcm : Pcm D) (clock : Clock D) (n : ℕ) (name : String)
    (ps : List (Probe D pcm clock × Probe D pcm clock))
    → All (λ p. IsReading D pcm clock n p.0 × IsReading D pcm clock n p.1) ps
    → Succeeds
        (λ ct.
          AllFit D pcm n all_metrics (report_of D pcm clock name ct).report_items
          × HasTime D pcm clock
              (report_of D pcm clock name ct).report_items
              (add_values D (map (elapsed D pcm clock) ps) (no_stats D)))
        (measure D pcm clock name ps (some (clear D pcm clock)))
unfolding clear new_report new_item
measure_time D pcm clock n name ps h =
    measured D pcm clock n name ps (some (clear D pcm clock)) (no_stats D) h
      ((tt, (tt, (tt, (tt, (tt, (tt, (tt, (tt, (tt, (tt, (tt, (tt, (tt, tt))))))))))))), refl)
