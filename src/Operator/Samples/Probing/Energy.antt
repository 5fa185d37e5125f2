-- ===== src/Operator/Samples/Probing/Energy.antt =====
-- The items of a report after one `tick` and `tock`.
use meta_pb.Common.{
  ℕ, zero, suc, ◌≡◌, refl, subst, List, [], ◌∷◌, length, replicate, length-replicate, Option, none,
  some, get_elem?,
}
use mathlib.Core.Option.{some-injective, none-ne-some}
use meta_pb.Utils.Stats.{Double, Stats, no_stats, add_value}
use meta_pb.Utils.Report.{
  ItemData, singular, plural, ReportItem, cons_item, renew, add_data, add_each,
}
use meta_pb.Utils.Metrics.{
  MetricTag, cpu_power_consumption_joule, Pcm, data_vec, metric_get, gather_items, cp_get,
  socket_get,
}
use meta_pb.Utils.Metrics.Fit.{Succeeds-some, data_vec_total, add_each_total}

module _ (D : Double) (pcm : Pcm D) where
  -- The item at a place, after the metric there has been gathered.
  abbrev pub ItemIs : ℕ → ItemData D → List (ReportItem D) → Type 0
  ItemIs i d [] = ⊥
  ItemIs zero d (x ∷ xs) = x.value ≡ d
  ItemIs (suc i) d (x ∷ xs) = ItemIs i d xs

  abbrev pub TagIs : ℕ → MetricTag → List MetricTag → Type 0
  TagIs i t [] = ⊥
  TagIs zero t (x ∷ xs) = x ≡ t
  TagIs (suc i) t (x ∷ xs) = TagIs i t xs

  module _ (so_bf so_aft : List pcm.SocketState) (sys_bf sys_aft : pcm.SystemState) where
    cons_first :
        (x : ReportItem D) (o : Option (ItemData D)) (o' : Option (List (ReportItem D)))
        (d : ItemData D)
        → o ≡ some d
        → (items : List (ReportItem D)) → cons_item D (renew D x o) o' ≡ some items
        → ItemIs 0 d items
    cons_first x none o' d e items h = absurd (none-ne-some d e)
    cons_first x (some d') none d e items h = absurd (none-ne-some items h)
    cons_first x (some d') (some xs) d e items h =
        subst (ItemIs 0 d) (some-injective _ _ h) (some-injective _ _ e)

    cons_rest :
        (i : ℕ) (x : ReportItem D) (o : Option (ItemData D)) (o' : Option (List (ReportItem D)))
        (d : ItemData D)
        → ((xs : List (ReportItem D)) → o' ≡ some xs → ItemIs i d xs)
        → (items : List (ReportItem D)) → cons_item D (renew D x o) o' ≡ some items
        → ItemIs (suc i) d items
    cons_rest i x none o' d k items h = absurd (none-ne-some items h)
    cons_rest i x (some d') none d k items h = absurd (none-ne-some items h)
    cons_rest i x (some d') (some xs) d k items h =
        subst (ItemIs (suc i) d) (some-injective _ _ h) (k xs refl)

    pub gather_items-ItemIs :
        (i : ℕ) (tags : List MetricTag) (tag : MetricTag) (before after : ItemData D)
        → TagIs i tag tags
        → metric_get D pcm tag so_bf so_aft sys_bf sys_aft before ≡ some after
        → (xs : List (ReportItem D)) → ItemIs i before xs
        → (items : List (ReportItem D))
        → gather_items D pcm tags so_bf so_aft sys_bf sys_aft xs ≡ some items
        → ItemIs i after items
    unfolding gather_items
    gather_items-ItemIs i [] tag before after t e xs b items h = absurd t
    gather_items-ItemIs i (u ∷ tags) tag before after t e [] b items h = absurd b
    gather_items-ItemIs zero (u ∷ tags) tag before after t e (x ∷ xs) b items h =
        cons_first x _ _ after (rw (t, b) e) items h
    gather_items-ItemIs (suc i) (u ∷ tags) tag before after t e (x ∷ xs) b items h =
        cons_rest i x _ _ after (gather_items-ItemIs i tags tag before after t e xs b) items h

  -- The statistics of one difference of a socket's energy.
  abbrev pub socket_stats : pcm.SocketState → pcm.SocketState → Stats D
  socket_stats b a = add_value D (pcm.consumed_joules b a) (no_stats D)

  -- The energy that a first reading of at least two sockets gives.
  pub first_power :
      (b0 b1 a0 a1 : pcm.SocketState) (bs as' : List pcm.SocketState)
      (sys_bf sys_aft : pcm.SystemState)
      → length bs ≡ length as'
      → (v : List (Stats D)) × (metric_get D pcm cpu_power_consumption_joule
            (b0 ∷ (b1 ∷ bs))
            (a0 ∷ (a1 ∷ as'))
            sys_bf
            sys_aft
            (singular (no_stats D))
          ≡ some (plural (socket_stats b0 a0 ∷ (socket_stats b1 a1 ∷ v))))
  unfolding metric_get cp_get socket_get data_vec add_data add_each
  first_power b0 b1 a0 a1 bs as' sys_bf sys_aft e =
      let (xs, k, l) =
        Succeeds-some _ (data_vec D pcm pcm.consumed_joules bs as')
          (data_vec_total D pcm 0 pcm.consumed_joules bs as' e) in
      let (v, k', l') = Succeeds-some _ (add_each D (replicate (length xs) (no_stats D)) xs) (
        add_each_total D pcm 0 (replicate (length xs) (no_stats D)) xs
          (length-replicate (length xs) (no_stats D))) in
      (v, rw k (rw k' refl))

-- An item at a place is read there.
pub ItemIs-get :
    (D : Double) (pcm : Pcm D) (i : ℕ) (d : ItemData D) (items : List (ReportItem D))
    → ItemIs D pcm i d items
    → (x : ReportItem D) × (get_elem? items i ≡ some x) × (x.value ≡ d)
ItemIs-get D pcm i d [] h = absurd h
ItemIs-get D pcm zero d (x ∷ xs) h = (x, refl, h)
ItemIs-get D pcm (suc i) d (x ∷ xs) h = ItemIs-get D pcm i d xs h
