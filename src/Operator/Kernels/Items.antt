-- ===== src/Operator/Kernels/Items.antt =====
-- The items that the kernels of CONV_1D and FILTER compute, and the sizes of the loops.
use meta_pb.Common.{
  ℕ, zero, suc, ◌+◌, ◌-◌, ◌*◌, ◌%◌, ◌^◌, ◌≤◌, ◌<◌, ◌≡◌, refl, sym, ap, ap₂, ◌∙◌, if◌then◌else◌, leb,
  ltb, ◌&&◌, arith, if_true, lt→ltb,
}
use meta_pb.Operator.Memory.{add32, mul32, div_int, counted}
use meta_pb.Operator.Kernels.{
  max_offset, item_num, chunk_num, gaussian_kernel, conv_step, conv_item, filter_step, filter_item,
}

pub item_num_small : (n : ℕ) → n ≤ 414 → item_num n ≡ 2590720 * n
unfolding item_num max_offset
item_num_small n h = omega arith

pub chunk_num_small : (n : ℕ) → n ≤ 414 → chunk_num n ≡ 10120 * n
unfolding chunk_num max_offset
chunk_num_small n h = omega arith

pub counted_ext :
    {S : Type 0} (b b' : ℕ → S → S)
    → ((k : ℕ) (s : S) → b k s ≡ b' k s)
    → (n i : ℕ) (s : S) → counted n i b s ≡ counted n i b' s
unfolding counted
counted_ext b b' h zero i s = refl
counted_ext b b' h (suc n) i s = rw (h i s) (counted_ext b b' h n (i + 1) (b' i s))

-- f i + f (i + 1) + ... + f (i + n - 1)
abbrev pub sum_range : ℕ → ℕ → (ℕ → ℕ) → ℕ
sum_range zero i f = 0
sum_range (suc n) i f = f i + sum_range n (i + 1) f

pub sum_range_ext :
    (n i : ℕ) (f g : ℕ → ℕ)
    → ((j : ℕ) → i ≤ j → j < i + n → f j ≡ g j)
    → sum_range n i f ≡ sum_range n i g
sum_range_ext zero i f g h = refl
sum_range_ext (suc n) i f g h =
    ap₂ ◌+◌ (h i (omega arith) (omega arith))
      (sum_range_ext n (i + 1) f g (λ j p q. h j (omega (arith, p)) (omega (arith, q))))

-- A loop whose rounds add words with wrap-around ends at the sum modulo 2 ^ 32.
pub counted-sum_range :
    (f : ℕ → ℕ) (step : ℕ → ℕ → ℕ)
    → ((j s : ℕ) → s < 2 ^ 32 → step j s ≡ (s + f j) % 2 ^ 32)
    → (n i s : ℕ) → s < 2 ^ 32
    → counted n i step s ≡ (s + sum_range n i f) % 2 ^ 32
unfolding counted
counted-sum_range f step h zero i s low = omega (arith, low)
counted-sum_range f step h (suc n) i s low =
    rw (h i s low)
      (omega (arith, counted-sum_range f step h n (i + 1) ((s + f i) % 2 ^ 32) (omega arith)))

pub counted_zero-sum_range :
    (f : ℕ → ℕ) (step : ℕ → ℕ → ℕ)
    → ((j s : ℕ) → s < 2 ^ 32 → step j s ≡ (s + f j) % 2 ^ 32)
    → (n : ℕ) → counted n 0 step 0 ≡ sum_range n 0 f % 2 ^ 32
counted_zero-sum_range f step h n = omega (arith, counted-sum_range f step h n 0 0 (omega arith))

-- A chunk with zeros around it: three before it and all after its 256 items.
abbrev pub padded : (ℕ → ℕ) → ℕ → ℕ
padded src x = if leb 3 x && ltb (x - 3) 256 then src (x - 3) else 0

conv_step-padded :
    (src : ℕ → ℕ) (i j s : ℕ)
    → s < 2 ^ 32
    → conv_step src i j s ≡ (s + padded src (i + j) * gaussian_kernel j) % 2 ^ 32
unfolding conv_step add32 mul32
conv_step-padded src i j s low = ground (arith, low)

pub conv_item-sum_range :
    (src : ℕ → ℕ) (i : ℕ)
    → conv_item src i ≡ sum_range 8 0 (λ j. padded src (i + j) * gaussian_kernel j) % 2 ^ 32
unfolding conv_item
conv_item-sum_range src i =
    counted_zero-sum_range (λ j. padded src (i + j) * gaussian_kernel j) (conv_step src i)
      (conv_step-padded src i) 8

-- Only the 256 items of the chunk matter.
pub conv_item_ext :
    (f g : ℕ → ℕ) → ((x : ℕ) → x < 256 → f x ≡ g x) → (i : ℕ) → conv_item f i ≡ conv_item g i
unfolding conv_item
conv_item_ext f g h i = counted_ext (conv_step f i) (conv_step g i) same 8 0 0
  where
    same : (j s : ℕ) → conv_step f i j s ≡ conv_step g i j s
    same j s = unfold conv_step in ground (arith, h (i + j - 3))

-- The window of FILTER with zeros from the bound on.
abbrev pub cut : ℕ → (ℕ → ℕ) → ℕ → ℕ
cut bound src x = if ltb x bound then div_int (src x) 8 else 0

pub filter_item-sum_range :
    (bound : ℕ) (src : ℕ → ℕ) (i : ℕ)
    → filter_item bound src i ≡ div_int (sum_range 8 0 (λ j. cut bound src (i + j)) % 2 ^ 32) 8
unfolding filter_item
filter_item-sum_range bound src i =
    ap (λ s. div_int s 8)
      (counted_zero-sum_range (λ j. cut bound src (i + j)) (filter_step bound src i) step-cut 8)
  where
    step-cut :
        (j s : ℕ) → s < 2 ^ 32 → filter_step bound src i j s ≡ (s + cut bound src (i + j)) % 2 ^ 32
    step-cut j s low = unfold filter_step add32 in ground (arith, low)

-- Only the items below the bound matter.
pub filter_item_ext :
    (bound : ℕ) (f g : ℕ → ℕ)
    → ((x : ℕ) → x < bound → f x ≡ g x)
    → (i : ℕ) → filter_item bound f i ≡ filter_item bound g i
filter_item_ext bound f g h i =
    filter_item-sum_range bound f i
    ∙ ap (λ s. div_int (s % 2 ^ 32) 8)
        (sum_range_ext 8 0 (λ j. cut bound f (i + j)) (λ j. cut bound g (i + j))
          (λ j p q. cut_same (i + j)))
    ∙ sym (filter_item-sum_range bound g i)
  where
    cut_same : (x : ℕ) → cut bound f x ≡ cut bound g x
    cut_same x = ground (arith, h x)

-- An eighth of the sum of the eighths of eight items.
abbrev pub window_item : (ℕ → ℕ) → ℕ → ℕ
window_item src i = div_int (sum_range 8 0 (λ j. div_int (src (i + j)) 8) % 2 ^ 32) 8

pub filter_item-window_item :
    (bound : ℕ) (src : ℕ → ℕ) (i : ℕ) → i + 8 ≤ bound → filter_item bound src i ≡ window_item src i
filter_item-window_item bound src i h =
    filter_item-sum_range bound src i
    ∙ ap (λ s. div_int (s % 2 ^ 32) 8)
        (sum_range_ext 8 0 (λ j. cut bound src (i + j)) (λ j. div_int (src (i + j)) 8)
          (λ j p q. if_true (ltb (i + j) bound) _ 0 (lt→ltb (i + j) bound (omega (arith, h, q)))))

pub window_item_ext :
    (f g : ℕ → ℕ) (i : ℕ)
    → ((j : ℕ) → j < 8 → f (i + j) ≡ g (i + j))
    → window_item f i ≡ window_item g i
window_item_ext f g i h =
    ap (λ s. div_int (s % 2 ^ 32) 8)
      (sum_range_ext 8 0 (λ j. div_int (f (i + j)) 8) (λ j. div_int (g (i + j)) 8)
        (λ j p q. ap (λ v. div_int v 8) (h j q)))
