-- ===== src/Operator/Samples/Probing/Total.antt =====
-- The first measurement under a name, with at least two sockets.
use Prim.Native.String.{String}
use text.Mathlib.Text.{◌==◌ as str_eq}
use meta_pb.Common.{
  ℕ, suc, ◌^◌, ◌≡◌, refl, ap, ◌∙◌, List, [], ◌∷◌, length, none, some, replicate, false,
}
use meta_pb.Executor.Result.Measured.{energy_mean_sum, means_of}
use meta_pb.Operator.Samples.Probing.{tick_tock, time_mean}
use meta_pb.Operator.Samples.Probing.Energy.{
  ItemIs, gather_items-ItemIs, ItemIs-get, socket_stats, first_power,
}
use meta_pb.Utils.Stats.{Double, Stats, no_stats, add_value}
use meta_pb.Utils.Report.{
  singular, plural, ReportItem, Report, new_item, new_report, add_datum, empty_report,
  subtract_items, subtract_report,
}
use meta_pb.Utils.Metrics.{
  time_consume_ns, cpu_power_consumption_joule, all_metrics, Pcm, metric_get, gather_items,
}
use meta_pb.Utils.Metrics.Fit.{AllFit, Succeeds-some, gather_items_fit}
use meta_pb.Utils.Chrono.Measured.{put_same}
use meta_pb.Utils.Chrono.{
  Clock, Probe, ChronoTrigger, put_name, bias_name, tick, tock, add_time, tock_report, get_report,
}

-- Readings of at least two sockets before and after an execution.
pub record Reading (D : Double) (pcm : Pcm D) (clock : Clock D) : Type 0 where
  pub before_time : clock.Time
  pub after_time : clock.Time
  pub before_system : pcm.SystemState
  pub after_system : pcm.SystemState
  pub before_first : pcm.SocketState
  pub before_second : pcm.SocketState
  pub before_others : List pcm.SocketState
  pub after_first : pcm.SocketState
  pub after_second : pcm.SocketState
  pub after_others : List pcm.SocketState
  pub as_many : length before_others ≡ length after_others

module _ {D : Double} {pcm : Pcm D} {clock : Clock D} (r : Reading D pcm clock) where
  open D.real use {Num, add, mul, div, of_ℕ}

  abbrev pub before : Probe D pcm clock
  before = record {
    time = r.before_time;
    system_state = r.before_system;
    socket_states = r.before_first ∷ (r.before_second ∷ r.before_others);
  }

  abbrev pub after : Probe D pcm clock
  after = record {
    time = r.after_time;
    system_state = r.after_system;
    socket_states = r.after_first ∷ (r.after_second ∷ r.after_others);
  }

  -- The statistics of the one time that passed.
  abbrev pub time_stats : Stats D
  time_stats = add_value D (clock.duration_ns r.after_time r.before_time) (no_stats D)

  abbrev pub seconds : Num
  seconds = div time_stats.mean (of_ℕ (10 ^ 9))

  -- What the first two sockets consumed.
  abbrev pub joules : Num
  joules =
      add (socket_stats D pcm r.before_first r.after_first).mean
        (socket_stats D pcm r.before_second r.after_second).mean

  -- The items that a first `tick` and `tock` leave.
  record Items (items : List (ReportItem D)) : Type 0 where
    timed : ItemIs D pcm 0 (singular time_stats) items
    others : List (Stats D)
    powered :
        ItemIs D pcm 10
          (plural (
            socket_stats D pcm r.before_first r.after_first
            ∷ (socket_stats D pcm r.before_second r.after_second ∷ others)))
          items

  abbrev sockets : ℕ
  sockets = suc (suc (length r.after_others))

  -- A new report's items with the time in the first.
  abbrev with_time : List (ReportItem D)
  with_time = record { name = ""; value = singular time_stats } ∷ replicate 12 (new_item D)

  first-Items :
      (items : List (ReportItem D)) × (tock_report D pcm clock before after (new_report D 13)
        ≡ some (record { item_num = 13; report_items = items }))
      × Items items
  unfolding tock_report add_time add_datum new_report new_item metric_get
  first-Items =
      let (items, e, fit) =
        Succeeds-some (AllFit D pcm sockets all_metrics)
          (gather_items D pcm all_metrics before.socket_states after.socket_states r.before_system
            r.after_system with_time)
          (gather_items_fit D pcm sockets before.socket_states after.socket_states
            (ap (λ k. suc (suc k)) r.as_many) refl r.before_system r.after_system all_metrics
            with_time
            (tt, (tt, (tt, (tt, (tt, (tt, (tt, (tt, (tt, (tt, (tt, (tt, (tt, tt)))))))))))))) in
      let (v, p) =
        first_power D pcm r.before_first r.before_second r.after_first r.after_second
          r.before_others r.after_others r.before_system r.after_system r.as_many in
      (
        items,
        rw e refl,
        record {
          timed =
              gather_items-ItemIs D pcm before.socket_states after.socket_states r.before_system
                r.after_system 0 all_metrics time_consume_ns (singular time_stats)
                (singular time_stats) refl refl with_time refl items e;
          others = v;
          powered =
              gather_items-ItemIs D pcm before.socket_states after.socket_states r.before_system
                r.after_system 10 all_metrics cpu_power_consumption_joule (singular (no_stats D))
                (plural (
                  socket_stats D pcm r.before_first r.after_first
                  ∷ (socket_stats D pcm r.before_second r.after_second ∷ v)))
                refl p with_time refl items e;
        },
      )

  module _ (name : String) (ct : ChronoTrigger D pcm clock) (fresh : ct.task2report name ≡ none)
      (unbiased : ct.task2report bias_name ≡ none) (apart : str_eq bias_name name ≡ false) where
    -- The state after the measurement, and what its report says.
    pub record Measured : Type 0 where
      pub tocked : ChronoTrigger D pcm clock
      pub measured : tick_tock D pcm clock name before after (some ct) ≡ some tocked
      pub report : Report D
      pub reported : get_report D pcm clock name tocked ≡ some report
      pub time : time_mean D pcm clock report ≡ some seconds
      pub energy : energy_mean_sum D report ≡ some joules

    Items-time :
        (items : List (ReportItem D))
        → Items items
        → time_mean D pcm clock (record { item_num = 13; report_items = items }) ≡ some seconds
    Items-time [] i = absurd i.timed
    Items-time (x ∷ xs) i = rw i.timed refl

    two_means :
        (x : ReportItem D) (s t : Stats D) (v : List (Stats D))
        → x.value ≡ plural (s ∷ (t ∷ v))
        → means_of D (some x) ≡ some (add s.mean t.mean)
    two_means x s t v p = rw p refl

    Items-energy :
        (items : List (ReportItem D))
        → Items items
        → energy_mean_sum D (record { item_num = 13; report_items = items }) ≡ some joules
    unfolding energy_mean_sum
    Items-energy items i =
        let (x, e, p) = ItemIs-get D pcm 10 _ items i.powered in
        ap (means_of D) e
        ∙ two_means x (socket_stats D pcm r.before_first r.after_first)
            (socket_stats D pcm r.before_second r.after_second) i.others p

    abbrev state_with : Report D → ChronoTrigger D pcm clock
    state_with report = record {
      task2report = put_name name report ct.task2report;
      task2last_probe = put_name name before (put_name name before ct.task2last_probe);
    }

    state_with-tocked :
        (report : Report D)
        → tock_report D pcm clock before after (new_report D 13) ≡ some report
        → tick_tock D pcm clock name before after (some ct) ≡ some (state_with report)
    unfolding tock tick
    state_with-tocked report e =
        rw (put_same D pcm clock 2 name before ct.task2last_probe) (rw (fresh, e) refl)

    state_with-reported :
        (report : Report D) → get_report D pcm clock name (state_with report) ≡ some report
    unfolding get_report subtract_report subtract_items empty_report
    state_with-reported report =
        rw (put_same D pcm clock 2 name report ct.task2report) (rw (apart, unbiased) refl)

    pub first_measured : Measured
    first_measured =
        let (items, e, i) = first-Items in
        let report : Report D = record { item_num = 13; report_items = items } in
        record {
          tocked = state_with report;
          measured = state_with-tocked report e;
          report = report;
          reported = state_with-reported report;
          time = Items-time items i;
          energy = Items-energy items i;
        }
