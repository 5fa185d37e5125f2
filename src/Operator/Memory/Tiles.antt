-- ===== src/Operator/Memory/Tiles.antt =====
-- Parallel loops whose iterations fill the consecutive tiles of a region.
use meta_pb.Common.{
  ℕ, ◌+◌, ◌-◌, ◌*◌, ◌/◌, ◌%◌, ◌≤◌, ◌<◌, ◌≡◌, ◌≢◌, inl, inr, List, arith, ap, ◌∙◌, dec_lt,
}
use native.Mathlib.Nat.{div-add-mod, mod-lt, div-lt_iff_lt-mul}
use meta_pb.Operator.Memory.{Memory, parallel, IsSchedule}
use meta_pb.Operator.Memory.Writers.{Off, IsFilled, parallel_inside, parallel_outside}

module _ (base w n : ℕ) (pos : 0 < w) (val : Memory → ℕ → ℕ → ℕ) (body : ℕ → Memory → Memory)
    (fills : (k : ℕ) → k < n → (m : Memory) → IsFilled (base + w * k) w (val m k) m (body k m))
    (reads : (m m' : Memory)
      → ((a : ℕ) → Off base (w * n) a → m a ≡ m' a)
      → (k i : ℕ) → k < n
      → i < w
      → val m k i ≡ val m' k i) where
  slot : ℕ → ℕ
  slot k = base + w * k

  later : (k k' : ℕ) → k < k' → w * k + w ≤ w * k'
  later k k' h = grind arith

  tiles_apart : (k k' i : ℕ) → k < n → k' < n → k ≢ k' → i < w → Off (slot k) w (slot k' + i)
  unfolding slot
  tiles_apart k k' i p q ne h = elim (dec_lt k k') [
    | yes l ↦ inr (omega (arith, later k k' l))
    | no g ↦ inl (omega (arith, h, later k' k (omega (arith, g, ne))))
  ]

  inside_region : (k : ℕ) → k < n → w * k + w ≤ w * n
  inside_region k h = later k n h

  tile_of : (i : ℕ) → i < w * n → i / w < n
  tile_of i h = (div-lt_iff_lt-mul pos).1 (grind arith)

  outside_tile : (a : ℕ) → ((k : ℕ) → k < n → Off (slot k) w a) → Off base (w * n) a
  unfolding slot
  outside_tile a h = elim (dec_lt a base) [
    | yes l ↦ inl l
    | no g ↦ elim (dec_lt a (base + w * n)) [
      | no g' ↦ inr (omega (arith, g'))
      | yes l' ↦
          let low : a - base < w * n = omega (arith, g, l') in
          absurd (
            omega (
              arith,
              g,
              h ((a - base) / w) (tile_of (a - base) low),
              div-add-mod (a - base) w,
              mod-lt (a - base) pos,
            ))
    ]
  ]

  module _ (schedule : ℕ → List ℕ) (ok : IsSchedule schedule) (m : Memory) where
    pub tiles-IsFilled :
        IsFilled base (w * n) (λ i. val m (i / w) (i % w)) m (parallel (schedule n) body m)
    unfolding slot
    tiles-IsFilled = record {
      inside = λ i h.
          ap (parallel (schedule n) body m) (split i)
          ∙ parallel_inside n w slot val body fills tiles_apart reads' schedule ok m (i / w) (i % w)
              (tile_of i h) (mod-lt i pos);
      outside = λ a h.
          parallel_outside n w slot val body fills tiles_apart reads' schedule ok m a
            (λ k p. omega (arith, h, inside_region k p));
    }
      where
        split : (i : ℕ) → base + i ≡ base + w * (i / w) + i % w
        split i = omega (arith, div-add-mod i w)

        reads' :
            (m m' : Memory)
            → ((a : ℕ) → ((k : ℕ) → k < n → Off (slot k) w a) → m a ≡ m' a)
            → (k i : ℕ) → k < n
            → i < w
            → val m k i ≡ val m' k i
        reads' m m' h = reads m m' (λ a off. h a (λ k p. omega (arith, off, inside_region k p)))
