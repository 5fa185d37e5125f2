-- ===== src/Operator/Memory/Writers.antt =====
-- Loops that fill disjoint slots of memory.
use meta_pb.Common.{
  ℕ, zero, suc, ◌+◌, ◌≤◌, ◌<◌, ◌≡◌, ◌≢◌, ◌⊎◌, inl, inr, refl, sym, ap, ◌∙◌, List, [], ◌∷◌, In,
  arith, ℕ_discrete, Distinct, dec_lt, ◌-◌,
}
use meta_pb.Operator.Memory.{Memory, store, counted, parallel, IsSchedule}

-- `a` lies outside the `c` words from `base` on.
abbrev pub Off : ℕ → ℕ → ℕ → Type 0
Off base c a = (a < base) ⊎ (base + c ≤ a)

-- `m'` is `m` with `val i` at the `i`-th of the `c` words from `base` on.
pub record IsFilled (base c : ℕ) (val : ℕ → ℕ) (m m' : Memory) : Type 0 where
  pub inside : (i : ℕ) → i < c → m' (base + i) ≡ val i
  pub outside : (a : ℕ) → Off base c a → m' a ≡ m a

pub IsFilled-cong :
    (base : ℕ) {n n' : ℕ} (v v' : ℕ → ℕ) (m m' : Memory)
    → n ≡ n'
    → ((i : ℕ) → i < n → v i ≡ v' i)
    → IsFilled base n v m m'
    → IsFilled base n' v' m m'
IsFilled-cong base v v' m m' e h f = record {
  inside = λ i p. f.inside i (omega (arith, e, p)) ∙ h i (omega (arith, e, p));
  outside = λ a p. f.outside a (rw e p);
}

-- Two memories that are filled alike are the same.
pub IsFilled-unique :
    (base n : ℕ) (v : ℕ → ℕ) (m m' m'' : Memory)
    → IsFilled base n v m m'
    → IsFilled base n v m m''
    → (a : ℕ) → m' a ≡ m'' a
IsFilled-unique base n v m m' m'' f g a = elim (dec_lt a base) [
  | yes l ↦ f.outside a (inl l) ∙ sym (g.outside a (inl l))
  | no h ↦ elim (dec_lt a (base + n)) [
    | no r ↦
        let off : Off base n a = inr (omega (arith, r)) in f.outside a off ∙ sym (g.outside a off)
    | yes l ↦
        let low : a - base < n = omega (arith, h, l) in
        let place : a ≡ base + (a - base) = omega (arith, h) in
        ap m' place ∙ f.inside (a - base) low ∙ sym (g.inside (a - base) low) ∙ ap m'' (sym place)
  ]
]

pub store_same : (m : Memory) (a v : ℕ) → store m a v a ≡ v
unfolding store
store_same m a v = ground arith

pub store_other : (m : Memory) (a v x : ℕ) → x ≢ a → store m a v x ≡ m x
unfolding store
store_other m a v x ne = ground arith

pub store-IsFilled : (m : Memory) (a b v : ℕ) → a ≡ b → IsFilled a 1 (λ i. v) m (store m b v)
store-IsFilled m a b v e = record {
  inside = λ i h. ap (store m b v) (omega (arith, e, h)) ∙ store_same m b v;
  outside = λ x h. store_other m b v x (λ q. omega (arith, q, e, h));
}

-- A loop that stores what it computes from the words outside the slot.
module _ (base c : ℕ) (val : Memory → ℕ → ℕ)
    (reads : (m m' : Memory)
      → ((a : ℕ) → Off base c a → m a ≡ m' a)
      → (i : ℕ) → i < c
      → val m i ≡ val m' i)
    (m0 : Memory) where
  fill_from :
      (n i : ℕ) (m : Memory)
      → i + n ≡ c
      → ((j : ℕ) → j < i → m (base + j) ≡ val m0 j)
      → ((a : ℕ) → Off base c a → m a ≡ m0 a)
      → IsFilled base c (val m0) m0 (counted n i (λ k s. store s (base + k) (val s k)) m)
  unfolding counted
  fill_from zero i m e done off = record {
    inside = λ j h. done j (omega (arith, e, h));
    outside = off;
  }
  fill_from (suc n) i m e done off =
      fill_from n (i + 1) (store m (base + i) (val m i)) (omega (arith, e)) done_next off_next
    where
      m' : Memory
      m' = store m (base + i) (val m i)

      done_next : (j : ℕ) → j < i + 1 → m' (base + j) ≡ val m0 j
      done_next j h = elim (ℕ_discrete j i) [
        | yes q ↦ rw (q, store_same m (base + i) (val m i)) (reads m m0 off i (omega (arith, e)))
        | no ne ↦
            store_other m (base + i) (val m i) (base + j) (λ q. ne (omega (arith, q)))
            ∙ done j (omega (arith, ne, h))
      ]

      off_next : (a : ℕ) → Off base c a → m' a ≡ m0 a
      off_next a h = store_other m (base + i) (val m i) a (λ q. omega (arith, q, h, e)) ∙ off a h

  pub loop-IsFilled :
      IsFilled base c (val m0) m0 (counted c 0 (λ k s. store s (base + k) (val s k)) m0)
  loop-IsFilled = fill_from c 0 m0 (omega arith) (λ j h. absurd (omega (arith, h))) (λ a h. refl)

-- Iterations that each fill a slot of their own, in any order.
module _ (n c : ℕ) (slot : ℕ → ℕ) (val : Memory → ℕ → ℕ → ℕ) (body : ℕ → Memory → Memory)
    (fills : (k : ℕ) → k < n → (m : Memory) → IsFilled (slot k) c (val m k) m (body k m))
    (apart : (k k' i : ℕ) → k < n → k' < n → k ≢ k' → i < c → Off (slot k) c (slot k' + i))
    (reads : (m m' : Memory)
      → ((a : ℕ) → ((k : ℕ) → k < n → Off (slot k) c a) → m a ≡ m' a)
      → (k i : ℕ) → k < n
      → i < c
      → val m k i ≡ val m' k i) where
  order_outside :
      (ks : List ℕ) (m : Memory) (a : ℕ)
      → ((k : ℕ) → In k ks → (k < n) × Off (slot k) c a)
      → parallel ks body m a ≡ m a
  unfolding parallel
  order_outside [] m a h = refl
  order_outside (k ∷ ks) m a h =
      order_outside ks (body k m) a (λ k' p. h k' (inr p))
      ∙ (fills k (h k (inl refl)).0 m).outside a (h k (inl refl)).1

  order_inside :
      (ks : List ℕ) (m m0 : Memory)
      → ((k : ℕ) → In k ks → k < n)
      → Distinct ks
      → ((a : ℕ) → ((k : ℕ) → k < n → Off (slot k) c a) → m a ≡ m0 a)
      → (k i : ℕ) → In k ks
      → i < c
      → parallel ks body m (slot k + i) ≡ val m0 k i
  unfolding parallel
  order_inside [] m m0 low d off k i p h = absurd p
  order_inside (x ∷ ks) m m0 low d off k i (inl e) h = rw e (
      order_outside ks (body x m) (slot x + i) (λ k' p. (
        low k' (inr p),
        apart k' x i (low k' (inr p)) (low x (inl refl)) (λ q. d.0 (rw (← q) p)) h,
      ))
      ∙ (fills x (low x (inl refl)) m).inside i h
      ∙ reads m m0 off x i (low x (inl refl)) h)
  order_inside (x ∷ ks) m m0 low d off k i (inr p) h =
      order_inside ks (body x m) m0 (λ k' p'. low k' (inr p')) d.1
        (λ a q. (fills x (low x (inl refl)) m).outside a (q x (low x (inl refl))) ∙ off a q) k i p h

  module _ (schedule : ℕ → List ℕ) (ok : IsSchedule schedule) (m : Memory) where
    pub parallel_inside :
        (k i : ℕ) → k < n → i < c → parallel (schedule n) body m (slot k + i) ≡ val m k i
    parallel_inside k i p h =
        order_inside (schedule n) m m (λ k' q. ((ok n).0 k').1 q) (ok n).1 (λ a q. refl) k i
          (((ok n).0 k).0 p) h

    pub parallel_outside :
        (a : ℕ) → ((k : ℕ) → k < n → Off (slot k) c a) → parallel (schedule n) body m a ≡ m a
    parallel_outside a h =
        order_outside (schedule n) m a (λ k q. (((ok n).0 k).1 q, h k (((ok n).0 k).1 q)))
