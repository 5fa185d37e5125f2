-- ===== src/Utils/Metrics/Gathered.antt =====
-- Reports whose metrics have all been gathered: what a measurement leaves, and that two of them have
-- been measured alike.
use meta_pb.Common.{ℕ, suc, ◌≡◌, refl, sym, ap, ◌∙◌, Option, none, some, List, [], ◌∷◌, length}
use meta_pb.Utils.Stats.{Double}
use meta_pb.Utils.Report.{ItemData, singular, plural, ReportItem, cons_item, renew}
use meta_pb.Utils.Report.Correct.{IsAlike, AllAlike}
use meta_pb.Utils.Metrics.{
  MetricTag, time_consume_ns, frontend_bound_ratio, backend_bound_ratio, core_bound_ratio,
  memory_bound_ratio, speculation_bound_ratio, llc_hit_rate, llc_occupancy_trail,
  total_dram_ctrl_read_bytes, total_dram_ctrl_write_bytes, cpu_power_consumption_joule,
  dram_power_consumption_joule, qpi_traffic_ratio, Pcm, gather_items,
}
use meta_pb.Utils.Metrics.Fit.{
  Succeeds, IsSystemItem, IsVector, IsGathered, IsGathered-IsFit, IsFit, metric_get-IsGathered,
}

module _ (D : Double) (pcm : Pcm D) (n : ℕ) where
  open pcm use {SocketState, SystemState}

  -- An item for each metric that can be gathered, and one that has been.
  abbrev pub AllReady : List MetricTag → List (ReportItem D) → Type 0
  AllReady [] [] = Unit
  AllReady (tag ∷ tags) (x ∷ xs) = IsFit D pcm n tag x.value × AllReady tags xs
  AllReady _ _ = ⊥

  abbrev pub AllGathered : List MetricTag → List (ReportItem D) → Type 0
  AllGathered [] [] = Unit
  AllGathered (tag ∷ tags) (x ∷ xs) = IsGathered D pcm n tag x.value × AllGathered tags xs
  AllGathered _ _ = ⊥

  pub AllGathered-AllReady :
      (tags : List MetricTag) (items : List (ReportItem D))
      → AllGathered tags items
      → AllReady tags items
  AllGathered-AllReady [] [] h = tt
  AllGathered-AllReady [] (x ∷ xs) h = absurd h
  AllGathered-AllReady (tag ∷ tags) [] h = absurd h
  AllGathered-AllReady (tag ∷ tags) (x ∷ xs) h =
      (IsGathered-IsFit D pcm n tag x.value h.0, AllGathered-AllReady tags xs h.1)

  pub length-AllGathered :
      (tags : List MetricTag) (items : List (ReportItem D))
      → AllGathered tags items
      → length items ≡ length tags
  length-AllGathered [] [] h = refl
  length-AllGathered [] (x ∷ xs) h = absurd h
  length-AllGathered (tag ∷ tags) [] h = absurd h
  length-AllGathered (tag ∷ tags) (x ∷ xs) h = ap suc (length-AllGathered tags xs h.1)

  IsSystemItem-IsAlike :
      (d e : ItemData D) → IsSystemItem D pcm n d → IsSystemItem D pcm n e → IsAlike D d e
  IsSystemItem-IsAlike (singular s) (singular t) h k = tt
  IsSystemItem-IsAlike (singular s) (plural w) h k = absurd k
  IsSystemItem-IsAlike (plural v) e h k = absurd h

  IsVector-IsAlike : (d e : ItemData D) → IsVector D pcm n d → IsVector D pcm n e → IsAlike D d e
  IsVector-IsAlike (singular s) e h k = absurd h
  IsVector-IsAlike (plural v) (singular t) h k = absurd k
  IsVector-IsAlike (plural v) (plural w) h k = h ∙ sym k

  IsGathered-IsAlike :
      (tag : MetricTag) (d e : ItemData D)
      → IsGathered D pcm n tag d
      → IsGathered D pcm n tag e
      → IsAlike D d e
  IsGathered-IsAlike time_consume_ns d e h k = IsSystemItem-IsAlike d e h k
  IsGathered-IsAlike frontend_bound_ratio d e h k = IsVector-IsAlike d e h k
  IsGathered-IsAlike backend_bound_ratio d e h k = IsVector-IsAlike d e h k
  IsGathered-IsAlike core_bound_ratio d e h k = IsVector-IsAlike d e h k
  IsGathered-IsAlike memory_bound_ratio d e h k = IsVector-IsAlike d e h k
  IsGathered-IsAlike speculation_bound_ratio d e h k = IsVector-IsAlike d e h k
  IsGathered-IsAlike llc_hit_rate d e h k = IsVector-IsAlike d e h k
  IsGathered-IsAlike llc_occupancy_trail d e h k = IsVector-IsAlike d e h k
  IsGathered-IsAlike total_dram_ctrl_read_bytes d e h k = IsVector-IsAlike d e h k
  IsGathered-IsAlike total_dram_ctrl_write_bytes d e h k = IsVector-IsAlike d e h k
  IsGathered-IsAlike cpu_power_consumption_joule d e h k = IsVector-IsAlike d e h k
  IsGathered-IsAlike dram_power_consumption_joule d e h k = IsVector-IsAlike d e h k
  IsGathered-IsAlike qpi_traffic_ratio d e h k = IsSystemItem-IsAlike d e h k

  pub AllGathered-AllAlike :
      (tags : List MetricTag) (xs ys : List (ReportItem D))
      → AllGathered tags xs
      → AllGathered tags ys
      → AllAlike D xs ys
  AllGathered-AllAlike [] [] [] h k = tt
  AllGathered-AllAlike [] [] (y ∷ ys) h k = absurd k
  AllGathered-AllAlike [] (x ∷ xs) ys h k = absurd h
  AllGathered-AllAlike (tag ∷ tags) [] ys h k = absurd h
  AllGathered-AllAlike (tag ∷ tags) (x ∷ xs) [] h k = absurd k
  AllGathered-AllAlike (tag ∷ tags) (x ∷ xs) (y ∷ ys) h k =
      (IsGathered-IsAlike tag x.value y.value h.0 k.0, AllGathered-AllAlike tags xs ys h.1 k.1)

  cons_item-AllGathered :
      (tag : MetricTag) (tags : List MetricTag) (x : ReportItem D) (o : Option (ItemData D))
      (o' : Option (List (ReportItem D)))
      → Succeeds (IsGathered D pcm n tag) o
      → Succeeds (AllGathered tags) o'
      → Succeeds (AllGathered (tag ∷ tags)) (cons_item D (renew D x o) o')
  cons_item-AllGathered tag tags x none o' s s' = absurd s
  cons_item-AllGathered tag tags x (some d) none s s' = absurd s'
  cons_item-AllGathered tag tags x (some d) (some xs) s s' = (s, s')

  module _ (so_bf so_aft : List SocketState) (before : length so_bf ≡ n) (after : length so_aft ≡ n)
      (sys_bf sys_aft : SystemState) where
    pub gather_items-AllGathered :
        (tags : List MetricTag) (items : List (ReportItem D))
        → AllReady tags items
        → Succeeds (AllGathered tags) (gather_items D pcm tags so_bf so_aft sys_bf sys_aft items)
    unfolding gather_items
    gather_items-AllGathered [] [] h = tt
    gather_items-AllGathered [] (x ∷ xs) h = absurd h
    gather_items-AllGathered (tag ∷ tags) [] h = absurd h
    gather_items-AllGathered (tag ∷ tags) (x ∷ xs) h =
        cons_item-AllGathered tag tags x _ _
          (metric_get-IsGathered D pcm n so_bf so_aft before after sys_bf sys_aft tag x.value h.0)
          (gather_items-AllGathered tags xs h.1)
