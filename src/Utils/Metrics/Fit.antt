-- ===== src/Utils/Metrics/Fit.antt =====
-- What the items of a report may hold, and that gathering the metrics keeps it.
use meta_pb.Common.{
  ℕ, suc, ◌≡◌, refl, sym, ap, ◌∙◌, Option, none, some, List, [], ◌∷◌, length, replicate,
  length-replicate, arith,
}
use meta_pb.Utils.Stats.{Double, Stats, no_stats, add_value}
use meta_pb.Utils.Report.{
  ItemData, singular, plural, ReportItem, add_datum, add_each, add_data, cons_item, renew,
  with_first, as_plural,
}
use meta_pb.Utils.Metrics.{
  MetricTag, time_consume_ns, frontend_bound_ratio, backend_bound_ratio, core_bound_ratio,
  memory_bound_ratio, speculation_bound_ratio, llc_hit_rate, llc_occupancy_trail,
  total_dram_ctrl_read_bytes, total_dram_ctrl_write_bytes, cpu_power_consumption_joule,
  dram_power_consumption_joule, qpi_traffic_ratio, Pcm, data_vec, socket_get, fb_get, bb_get,
  cb_get, mb_get, sb_get, lh_get, lo_get, dr_get, dw_get, cp_get, dp_get, qt_get, metric_get,
  add_vec, gather_items,
}

-- An operation that succeeds, with a result of which `P` holds.
abbrev pub Succeeds : {A : Type 0} → (A → Type 0) → Option A → Type 0
Succeeds P none = ⊥
Succeeds P (some a) = P a

pub Succeeds-some :
    {A : Type 0} (P : A → Type 0) (o : Option A) → Succeeds P o → (a : A) × (o ≡ some a) × P a
Succeeds-some P none h = absurd h
Succeeds-some P (some a) h = (a, refl, h)

pub with_first_total :
    {A : Type 0} (P Q : List A → Type 0) (x : A) (o : Option (List A))
    → ((xs : List A) → P xs → Q (x ∷ xs))
    → Succeeds P o
    → Succeeds Q (with_first x o)
with_first_total P Q x none h s = absurd s
with_first_total P Q x (some xs) h s = h xs s

module _ (D : Double) (pcm : Pcm D) (n : ℕ) where
  open pcm use {SocketState, SystemState}

  -- What a metric of the sockets, or one of the system, may hold.
  abbrev pub IsSocketItem : ItemData D → Type 0
  IsSocketItem (singular s) = Unit
  IsSocketItem (plural v) = length v ≡ n

  abbrev pub IsSystemItem : ItemData D → Type 0
  IsSystemItem (singular s) = Unit
  IsSystemItem (plural v) = ⊥

  -- What it holds once it has been gathered.
  abbrev pub IsVector : ItemData D → Type 0
  IsVector (singular s) = ⊥
  IsVector (plural v) = length v ≡ n

  abbrev pub IsGathered : MetricTag → ItemData D → Type 0
  IsGathered time_consume_ns d = IsSystemItem d
  IsGathered qpi_traffic_ratio d = IsSystemItem d
  IsGathered _ d = IsVector d

  abbrev pub IsFit : MetricTag → ItemData D → Type 0
  IsFit time_consume_ns d = IsSystemItem d
  IsFit qpi_traffic_ratio d = IsSystemItem d
  IsFit _ d = IsSocketItem d

  abbrev pub AllFit : List MetricTag → List (ReportItem D) → Type 0
  AllFit [] items = Unit
  AllFit (tag ∷ tags) [] = ⊥
  AllFit (tag ∷ tags) (x ∷ xs) = IsFit tag x.value × AllFit tags xs

  pub data_vec_total :
      (f : SocketState → SocketState → D.real.Num) (before after : List SocketState)
      → length before ≡ length after
      → Succeeds (λ xs. length xs ≡ length after) (data_vec D pcm f before after)
  unfolding data_vec
  data_vec_total f before [] e = refl
  data_vec_total f [] (a ∷ after) e = absurd (omega (arith, e))
  data_vec_total f (b ∷ before) (a ∷ after) e =
      with_first_total (λ xs. length xs ≡ length after) _ (f b a) (data_vec D pcm f before after)
        (λ xs h. ap suc h) (data_vec_total f before after (omega (arith, e)))

  pub add_each_total :
      (v : List (Stats D)) (xs : List D.real.Num)
      → length v ≡ length xs
      → Succeeds (λ v'. length v' ≡ length v) (add_each D v xs)
  unfolding add_each
  add_each_total [] xs e = refl
  add_each_total (s ∷ v) [] e = absurd (omega (arith, e))
  add_each_total (s ∷ v) (x ∷ xs) e =
      with_first_total (λ v'. length v' ≡ length v) _ (add_value D x s) (add_each D v xs)
        (λ v' h. ap suc h) (add_each_total v xs (omega (arith, e)))

  as_plural-IsVector :
      (o : Option (List (Stats D)))
      → Succeeds (λ v. length v ≡ n) o
      → Succeeds IsVector (as_plural D o)
  as_plural-IsVector none s = absurd s
  as_plural-IsVector (some v) s = s

  IsVector-IsSocketItem : (d : ItemData D) → IsVector d → IsSocketItem d
  IsVector-IsSocketItem (singular s) h = tt
  IsVector-IsSocketItem (plural v) h = h

  pub IsGathered-IsFit : (tag : MetricTag) (d : ItemData D) → IsGathered tag d → IsFit tag d
  IsGathered-IsFit time_consume_ns d h = h
  IsGathered-IsFit frontend_bound_ratio d h = IsVector-IsSocketItem d h
  IsGathered-IsFit backend_bound_ratio d h = IsVector-IsSocketItem d h
  IsGathered-IsFit core_bound_ratio d h = IsVector-IsSocketItem d h
  IsGathered-IsFit memory_bound_ratio d h = IsVector-IsSocketItem d h
  IsGathered-IsFit speculation_bound_ratio d h = IsVector-IsSocketItem d h
  IsGathered-IsFit llc_hit_rate d h = IsVector-IsSocketItem d h
  IsGathered-IsFit llc_occupancy_trail d h = IsVector-IsSocketItem d h
  IsGathered-IsFit total_dram_ctrl_read_bytes d h = IsVector-IsSocketItem d h
  IsGathered-IsFit total_dram_ctrl_write_bytes d h = IsVector-IsSocketItem d h
  IsGathered-IsFit cpu_power_consumption_joule d h = IsVector-IsSocketItem d h
  IsGathered-IsFit dram_power_consumption_joule d h = IsVector-IsSocketItem d h
  IsGathered-IsFit qpi_traffic_ratio d h = h

  Succeeds-map :
      {A : Type 0} (P Q : A → Type 0) (o : Option A)
      → ((a : A) → P a → Q a)
      → Succeeds P o
      → Succeeds Q o
  Succeeds-map P Q none h s = s
  Succeeds-map P Q (some a) h s = h a s

  add_data-IsVector :
      (xs : List D.real.Num) (d : ItemData D)
      → length xs ≡ n
      → IsSocketItem d
      → Succeeds IsVector (add_data D xs d)
  unfolding add_data
  add_data-IsVector xs (singular s) e fit =
      let new : length (replicate (length xs) (no_stats D)) ≡ length xs =
        length-replicate (length xs) (no_stats D) in
      as_plural-IsVector _ (
        Succeeds-map _ _ (add_each D (replicate (length xs) (no_stats D)) xs) (λ v h. h ∙ new ∙ e)
          (add_each_total (replicate (length xs) (no_stats D)) xs new))
  add_data-IsVector xs (plural v) e fit =
      as_plural-IsVector _
        (Succeeds-map _ _ (add_each D v xs) (λ v' h. h ∙ fit) (add_each_total v xs (fit ∙ sym e)))

  add_vec-IsVector :
      (o : Option (List D.real.Num)) (d : ItemData D)
      → Succeeds (λ xs. length xs ≡ n) o
      → IsSocketItem d
      → Succeeds IsVector (add_vec D pcm o d)
  add_vec-IsVector none d s fit = absurd s
  add_vec-IsVector (some xs) d s fit = add_data-IsVector xs d s fit

  module _ (so_bf so_aft : List SocketState) (before : length so_bf ≡ n) (after : length so_aft ≡ n)
      (sys_bf sys_aft : SystemState) where
    socket_get-IsVector :
        (f : SocketState → SocketState → D.real.Num) (d : ItemData D)
        → IsSocketItem d
        → Succeeds IsVector (socket_get D pcm f so_bf so_aft d)
    unfolding socket_get
    socket_get-IsVector f d fit =
        add_vec-IsVector (data_vec D pcm f so_bf so_aft) d
          (Succeeds-map _ _ (data_vec D pcm f so_bf so_aft) (λ xs h. h ∙ after)
            (data_vec_total f so_bf so_aft (before ∙ sym after)))
          fit

    qt_get_fit :
        (d : ItemData D) → IsSystemItem d → Succeeds IsSystemItem (qt_get D pcm sys_bf sys_aft d)
    unfolding qt_get add_datum
    qt_get_fit (singular s) fit = tt
    qt_get_fit (plural v) fit = absurd fit

    pub metric_get-IsGathered :
        (tag : MetricTag) (d : ItemData D)
        → IsFit tag d
        → Succeeds (IsGathered tag) (metric_get D pcm tag so_bf so_aft sys_bf sys_aft d)
    unfolding metric_get fb_get bb_get cb_get mb_get sb_get lh_get lo_get dr_get dw_get cp_get
        dp_get
    metric_get-IsGathered time_consume_ns d fit = fit
    metric_get-IsGathered frontend_bound_ratio d fit = socket_get-IsVector _ d fit
    metric_get-IsGathered backend_bound_ratio d fit = socket_get-IsVector _ d fit
    metric_get-IsGathered core_bound_ratio d fit = socket_get-IsVector _ d fit
    metric_get-IsGathered memory_bound_ratio d fit = socket_get-IsVector _ d fit
    metric_get-IsGathered speculation_bound_ratio d fit = socket_get-IsVector _ d fit
    metric_get-IsGathered llc_hit_rate d fit = socket_get-IsVector _ d fit
    metric_get-IsGathered llc_occupancy_trail d fit = socket_get-IsVector _ d fit
    metric_get-IsGathered total_dram_ctrl_read_bytes d fit = socket_get-IsVector _ d fit
    metric_get-IsGathered total_dram_ctrl_write_bytes d fit = socket_get-IsVector _ d fit
    metric_get-IsGathered cpu_power_consumption_joule d fit = socket_get-IsVector _ d fit
    metric_get-IsGathered dram_power_consumption_joule d fit = socket_get-IsVector _ d fit
    metric_get-IsGathered qpi_traffic_ratio d fit = qt_get_fit d fit

    cons_item_fit :
        (tag : MetricTag) (tags : List MetricTag) (x : ReportItem D) (o : Option (ItemData D))
        (o' : Option (List (ReportItem D)))
        → Succeeds (IsFit tag) o
        → Succeeds (AllFit tags) o'
        → Succeeds (AllFit (tag ∷ tags)) (cons_item D (renew D x o) o')
    cons_item_fit tag tags x none o' s s' = absurd s
    cons_item_fit tag tags x (some d) none s s' = absurd s'
    cons_item_fit tag tags x (some d) (some xs) s s' = (s, s')

    pub gather_items_fit :
        (tags : List MetricTag) (items : List (ReportItem D))
        → AllFit tags items
        → Succeeds (AllFit tags) (gather_items D pcm tags so_bf so_aft sys_bf sys_aft items)
    unfolding gather_items
    gather_items_fit [] items fit = tt
    gather_items_fit (tag ∷ tags) [] fit = absurd fit
    gather_items_fit (tag ∷ tags) (x ∷ xs) fit =
        cons_item_fit tag tags x _ _
          (Succeeds-map _ _ (metric_get D pcm tag so_bf so_aft sys_bf sys_aft x.value)
            (IsGathered-IsFit tag) (metric_get-IsGathered tag x.value fit.0))
          (gather_items_fit tags xs fit.1)
