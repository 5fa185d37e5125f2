-- ===== src/Operator/Kernels/Fold/Loop.antt =====
-- Parallel loops whose iterations add up words into one word for each chunk.
use meta_pb.Common.{ℕ, zero, suc, ◌+◌, ◌*◌, ◌%◌, ◌^◌, ◌<◌, ◌≡◌, ◌≢◌, ap, ap₂, ◌∙◌, List, arith}
use meta_pb.Operator.Pages.{CpuTcb}
use meta_pb.Operator.Memory.{Memory, word_index, store, counted, parallel, IsSchedule}
use meta_pb.Operator.Memory.Writers.{
  Off, IsFilled, store_same, store_other, parallel_inside, parallel_outside,
}
use meta_pb.Operator.Kernels.Items.{sum_range, sum_range_ext}
use meta_pb.Operator.Kernels.Host.{HasBuffers, src1, src2}

-- A loop that adds to the word `d` what it computes from other words.
module _ (d : ℕ) (term : Memory → ℕ → ℕ) (body : ℕ → Memory → Memory)
    (adds : (i : ℕ) (s : Memory) → s d < 2 ^ 32 → body i s d ≡ (s d + term s i) % 2 ^ 32)
    (keeps : (i : ℕ) (s : Memory) (a : ℕ) → a ≢ d → body i s a ≡ s a) (count : ℕ)
    (reads : (s s' : Memory)
      → ((a : ℕ) → a ≢ d → s a ≡ s' a)
      → (i : ℕ) → i < count
      → term s i ≡ term s' i)
    (m : Memory) where
  fold_from :
      (n i : ℕ) (s : Memory)
      → i + n ≡ count
      → s d < 2 ^ 32
      → ((a : ℕ) → a ≢ d → s a ≡ m a)
      → (counted n i body s d ≡ (s d + sum_range n i (term m)) % 2 ^ 32)
        × ((a : ℕ) → a ≢ d → counted n i body s a ≡ m a)
  unfolding counted
  fold_from zero i s e low off = (omega (arith, low), off)
  fold_from (suc n) i s e low off =
      let rest =
        fold_from n (i + 1) (body i s) (omega (arith, e)) (rw (adds i s low) (omega arith))
          (λ a ne. keeps i s a ne ∙ off a ne) in
      (omega (arith, rest.0, adds i s low, reads s m off i (omega (arith, e))), rest.1)

  pub fold-IsFilled :
      IsFilled d 1 (λ i. sum_range count 0 (term m) % 2 ^ 32) m (counted count 0 body (store m d 0))
  fold-IsFilled = record {
    inside = λ i h.
        let here : d + i ≡ d = omega (arith, h) in
        ap result here ∙ omega (arith, loop.0, store_same m d 0);
    outside = λ a h. loop.1 a (λ q. omega (arith, q, h));
  }
    where
      result : Memory
      result = counted count 0 body (store m d 0)

      loop :
          (result d ≡ (store m d 0 d + sum_range count 0 (term m)) % 2 ^ 32)
          × ((a : ℕ) → a ≢ d → result a ≡ m a)
      loop =
          fold_from count 0 (store m d 0) (omega arith) (rw (store_same m d 0) (omega arith))
            (store_other m d 0)

-- `m'` is `m` with `value k` at the first item of each of the `n` chunks from `base` on.
pub record IsFolded (base n : ℕ) (value : ℕ → ℕ) (m m' : Memory) : Type 0 where
  pub first-Items : (k : ℕ) → k < n → m' (base + 256 * k) ≡ value k
  pub others : (a : ℕ) → ((k : ℕ) → k < n → a ≢ base + 256 * k) → m' a ≡ m a

pub IsFolded-cong :
    (base n : ℕ) (v v' : ℕ → ℕ) (m m' : Memory)
    → ((k : ℕ) → v k ≡ v' k)
    → IsFolded base n v m m'
    → IsFolded base n v' m m'
IsFolded-cong base n v v' m m' e f = record {
  first-Items = λ k h. f.first-Items k h ∙ e k;
  others = f.others;
}

-- The word of the `k`-th chunk's first item.
abbrev pub dst : CpuTcb → ℕ → ℕ
dst tcb k = word_index tcb.dst_page_base + 256 * k

module _ (schedule : ℕ → List ℕ) (ok : IsSchedule schedule) (tcb : CpuTcb) (m : Memory) (n : ℕ)
    (buffers : HasBuffers tcb (256 * n)) where
  open tcb use {src1_page_base, src2_page_base, dst_page_base}

  module _ (term : ℕ → ℕ → ℕ) (body : ℕ → ℕ → Memory → Memory)
      (adds : (k i : ℕ) (s : Memory)
        → s (dst tcb k) < 2 ^ 32
        → body k i s (dst tcb k)
          ≡ (s (dst tcb k) + term (src1 tcb s (256 * k + i)) (src2 tcb s (256 * k + i))) % 2 ^ 32)
      (keeps : (k i : ℕ) (s : Memory) (a : ℕ) → a ≢ dst tcb k → body k i s a ≡ s a)
      (chunk_loop : ℕ → Memory → Memory)
      (unrolls : (k : ℕ) (s : Memory)
        → chunk_loop k s ≡ counted 256 0 (body k) (store s (dst tcb k) 0)) where
    chunk_term : Memory → ℕ → ℕ → ℕ
    chunk_term s k i = term (src1 tcb s (256 * k + i)) (src2 tcb s (256 * k + i))

    sum_value : Memory → ℕ → ℕ
    sum_value s k = sum_range 256 0 (chunk_term s k) % 2 ^ 32

    chunk_term_reads :
        (s s' : Memory) (k i : ℕ)
        → k < n
        → i < 256
        → ((a : ℕ) → Off (word_index dst_page_base) (256 * n) a → s a ≡ s' a)
        → chunk_term s k i ≡ chunk_term s' k i
    unfolding chunk_term
    chunk_term_reads s s' k i h p same =
        ap₂ term
          (same (word_index src1_page_base + (256 * k + i))
            (omega (arith, buffers.src1_apart, h, p)))
          (same (word_index src2_page_base + (256 * k + i))
            (omega (arith, buffers.src2_apart, h, p)))

    loop_fills :
        (k : ℕ)
        → k < n
        → (s : Memory) → IsFilled (dst tcb k) 1 (λ i. sum_value s k) s (chunk_loop k s)
    unfolding sum_value chunk_term
    loop_fills k h s = rw (unrolls k s) (
        fold-IsFilled (dst tcb k) (λ s' i. chunk_term s' k i) (body k) (adds k) (keeps k) 256
          (λ s' s'' same i p. chunk_term_reads s' s'' k i h p (λ a off. same a (away a off))) s)
      where
        away : (a : ℕ) → Off (word_index dst_page_base) (256 * n) a → a ≢ dst tcb k
        away a off q = omega (arith, off, q, h)

    pub folds-IsFolded :
        IsFolded
          (word_index dst_page_base)
          n
          (λ k.
            sum_range 256 0 (λ i. term (src1 tcb m (256 * k + i)) (src2 tcb m (256 * k + i)))
            % 2 ^ 32)
          m
          (parallel (schedule n) chunk_loop m)
    unfolding sum_value chunk_term
    folds-IsFolded = record {
      first-Items = λ k h.
          ap (parallel (schedule n) chunk_loop m) (start k)
          ∙ parallel_inside n 1 (dst tcb) (λ s k' i. sum_value s k') chunk_loop loop_fills apart
              reads schedule ok m k 0 h (omega arith);
      others = λ a h.
          parallel_outside n 1 (dst tcb) (λ s k' i. sum_value s k') chunk_loop loop_fills apart
            reads schedule ok m a (λ k p. one_off a (dst tcb k) (h k p));
    }
      where
        start :
            (k : ℕ) → word_index dst_page_base + 256 * k ≡ word_index dst_page_base + 256 * k + 0
        start k = omega arith

        one_off : (a b : ℕ) → a ≢ b → Off b 1 a
        one_off a b ne = omega (arith, ne)

        apart : (k k' i : ℕ) → k < n → k' < n → k ≢ k' → i < 1 → Off (dst tcb k) 1 (dst tcb k' + i)
        apart k k' i p q ne h = omega (arith, ne, h)

        reads :
            (s s' : Memory)
            → ((a : ℕ) → ((k : ℕ) → k < n → Off (dst tcb k) 1 a) → s a ≡ s' a)
            → (k i : ℕ) → k < n
            → i < 1
            → sum_value s k ≡ sum_value s' k
        reads s s' same k i h p =
            ap (λ v. v % 2 ^ 32)
              (sum_range_ext 256 0 (chunk_term s k) (chunk_term s' k) (λ j q r.
                chunk_term_reads s s' k j h r (λ a off. same a (λ k' p'. omega (arith, off, p')))))
