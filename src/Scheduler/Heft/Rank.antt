-- ===== src/Scheduler/Heft/Rank.antt =====
-- `calculateUpwardRank`: the ranks along the edges of the graph.
use meta_pb.Common.{
  ℕ, zero, suc, ◌<◌, ◌≡◌, refl, sym, ap, ◌∙◌, subst, List, [], ◌∷◌, map, Option, none, some, In,
  inl, inr, arith,
}
use mathlib.Core.Option
use mathlib.Core.Option.{some-injective, none-ne-some}
use meta_pb.Common.Real.{Real, Le, OrderLaws, max_num, max_num-left, max_num-right}
use meta_pb.Executor.Graph.{TaskGraph, successors}
use meta_pb.Executor.Perf.{PerfModel}
use meta_pb.Scheduler.Heft.{upward_rank, all_some, rank_of, rank_cost, max_rank}

module _ (R : Real) where
  -- Rounding is monotone: adding to what is not negative does not go below what is added.
  pub record RankLaws : Type 0 where
    pub le_add : (a b : R.Num) → Le R R.zero a → Le R b (R.add a b)

module _ {R : Real} (laws : OrderLaws R) where
  module _ (om : PerfModel R) (g : TaskGraph R) where
    max_rank-base : (rs : List R.Num) (m : R.Num) → Le R m (max_rank R om g rs m)
    max_rank-base [] m = laws.lt_irrefl m
    max_rank-base (r ∷ rs) m =
        laws.le_trans _ _ _ (max_num-left laws m r) (max_rank-base rs (max_num R m r))

    pub max_rank-In : (rs : List R.Num) (m r : R.Num) → In r rs → Le R r (max_rank R om g rs m)
    max_rank-In (q ∷ rs) m r (inl e) =
        rw e (laws.le_trans _ _ _ (max_num-right laws m q) (max_rank-base rs (max_num R m q)))
    max_rank-In (q ∷ rs) m r (inr k) = max_rank-In rs (max_num R m q) r k
    max_rank-In [] m r k = absurd k

    map_inv :
        (a : R.Num) (q : Option (List R.Num)) (rs : List R.Num)
        → Option.map (λ qs. a ∷ qs) q ≡ some rs
        → (qs : List R.Num) × (q ≡ some qs) × (rs ≡ a ∷ qs)
    map_inv a none rs e = absurd (none-ne-some rs e)
    map_inv a (some qs) rs e = (qs, refl, sym (some-injective _ _ e))

    pub all_some_inv :
        (o : Option R.Num) (os : List (Option R.Num)) (rs : List R.Num)
        → all_some R om g (o ∷ os) ≡ some rs
        → (a : R.Num) × (qs : List R.Num) × (o ≡ some a)
          × (all_some R om g os ≡ some qs)
          × (rs ≡ a ∷ qs)
    all_some_inv none os rs e = absurd (none-ne-some rs e)
    all_some_inv (some a) os rs e =
        let (qs, k, l) = map_inv a (all_some R om g os) rs e in (a, qs, refl, k, l)

    pub all_some-In :
        (f : ℕ → Option R.Num) (vs : List ℕ) (rs : List R.Num) (v : ℕ)
        → all_some R om g (map f vs) ≡ some rs
        → In v vs
        → (r : R.Num) × (f v ≡ some r) × In r rs
    all_some-In f (w ∷ vs) rs v e (inl q) =
        let (a, qs, here, k, l) = all_some_inv (f w) (map f vs) rs e in
        (a, ap f q ∙ here, subst (λ z. In a z) (sym l) (inl refl))
    all_some-In f (w ∷ vs) rs v e (inr m) =
        let (a, qs, here, k, l) = all_some_inv (f w) (map f vs) rs e in
        let (r, at_v, m') = all_some-In f vs qs v k m in
        (r, at_v, subst (λ z. In r z) (sym l) (inr m'))
    all_some-In f [] rs v e m = absurd m

    all_some_mono :
        (f h : ℕ → Option R.Num)
        → ((v : ℕ) (r : R.Num) → f v ≡ some r → h v ≡ some r)
        → (vs : List ℕ) (rs : List R.Num) → all_some R om g (map f vs) ≡ some rs
        → all_some R om g (map h vs) ≡ some rs
    all_some_mono f h k [] rs e = e
    all_some_mono f h k (v ∷ vs) rs e =
        let (a, qs, here, l, q) = all_some_inv (f v) (map f vs) rs e in
        rw (k v a here, all_some_mono f h k vs qs l) (ap some (sym q))

    all_some_total :
        (f : ℕ → Option R.Num) (vs : List ℕ)
        → ((v : ℕ) → In v vs → (r : R.Num) × (f v ≡ some r))
        → (rs : List R.Num) × (all_some R om g (map f vs) ≡ some rs)
    all_some_total f [] h = ([], refl)
    all_some_total f (v ∷ vs) h =
        let (r, e) = h v (inl refl) in
        let (rs, k) = all_some_total f vs (λ w m. h w (inr m)) in (r ∷ rs, rw (e, k) refl)

    pub rank_of_inv :
        (u : ℕ) (q : Option (List R.Num)) (r : R.Num)
        → rank_of R om g u q ≡ some r
        → (rs : List R.Num) × (q ≡ some rs)
          × (r ≡ R.add (rank_cost R om g u) (max_rank R om g rs R.zero))
    rank_of_inv u none r e = absurd (none-ne-some r e)
    rank_of_inv u (some rs) r e = (rs, refl, sym (some-injective _ _ e))

    -- More fuel gives the same rank.
    pub upward_rank-more :
        (fuel u : ℕ) (r : R.Num)
        → upward_rank R om g fuel u ≡ some r
        → upward_rank R om g (suc fuel) u ≡ some r
    unfolding upward_rank
    upward_rank-more zero u r e = absurd (none-ne-some r e)
    upward_rank-more (suc fuel) u r e =
        let (rs, k, l) = rank_of_inv u _ r e in
        let k' =
          all_some_mono (λ v. upward_rank R om g fuel v) (λ v. upward_rank R om g (suc fuel) v)
            (λ v q. upward_rank-more fuel v q) (successors R g u) rs k in
        ap (rank_of R om g u) k' ∙ ap some (sym l)

    -- Where a task has a rank and its cost is not negative, each of its successors has a rank, which is
    -- not above it.
    pub upward_rank-falls :
        (more : RankLaws R) (fuel u v : ℕ) (r : R.Num)
        → Le R R.zero (rank_cost R om g u)
        → upward_rank R om g fuel u ≡ some r
        → In v (successors R g u)
        → (r' : R.Num) × (upward_rank R om g fuel v ≡ some r') × Le R r' r
    unfolding upward_rank
    upward_rank-falls more zero u v r c e m = absurd (none-ne-some r e)
    upward_rank-falls more (suc fuel) u v r c e m =
        let (rs, k, l) = rank_of_inv u _ r e in
        let (r', at_v, m') =
          all_some-In (λ w. upward_rank R om g fuel w) (successors R g u) rs v k m in
        (
          r',
          upward_rank-more fuel v r' at_v,
          subst (λ z. Le R r' z) (sym l)
              (laws.le_trans _ _ _ (max_rank-In rs R.zero r' m')
                (more.le_add (rank_cost R om g u) (max_rank R om g rs R.zero) c)),
        )

    -- In a graph without cycles, told by a depth that falls along each edge, a task has a rank with
    -- more fuel than its depth.
    pub upward_rank_total :
        (depth : ℕ → ℕ)
        → ((u v : ℕ) → In v (successors R g u) → depth v < depth u)
        → (fuel u : ℕ) → depth u < fuel
        → (r : R.Num) × (upward_rank R om g fuel u ≡ some r)
    unfolding upward_rank
    upward_rank_total depth falls zero u h = absurd (omega arith)
    upward_rank_total depth falls (suc fuel) u h =
        let (rs, k) =
          all_some_total (λ v. upward_rank R om g fuel v) (successors R g u)
            (λ v m. upward_rank_total depth falls fuel v (omega (arith, falls u v m))) in
        (R.add (rank_cost R om g u) (max_rank R om g rs R.zero), ap (rank_of R om g u) k)
