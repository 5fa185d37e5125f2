-- ===== src/Operator/Kernels/Fold.antt =====
-- `execCPU` of the operators that give one item for each chunk: EUDIST, MAC and LOOKUP.
pub mod Loop
use meta_pb.Common.{
  ℕ, zero, suc, ◌+◌, ◌*◌, ◌%◌, ◌^◌, ◌≤◌, ◌<◌, ◌≡◌, ◌≢◌, refl, ap, ap₂, ◌∙◌, List, arith,
  if◌then◌else◌, ◌==◌, Bool, true, false,
}
use meta_pb.Operator.Pages.{CpuTcb}
use meta_pb.Operator.Memory.{
  Memory, add32, sub32, mul32, word_index, store, counted, parallel, IsSchedule,
}
use meta_pb.Operator.Memory.Writers.{store_same, store_other}
use meta_pb.Operator.Kernels.{fold_chunk, eudist_cpu, mac_cpu, lookup_chunk, lookup_cpu}
use meta_pb.Operator.Kernels.Items.{chunk_num_small, sum_range}
use meta_pb.Operator.Kernels.Host.{HasBuffers, src1, src2, chunk_word}
use meta_pb.Operator.Kernels.Fold.Loop.{IsFolded, IsFolded-cong, dst, folds-IsFolded}

-- Terms that wrap give the same sum modulo 2 ^ 32.
sum_range_mod :
    (n i : ℕ) (f : ℕ → ℕ) → sum_range n i (λ j. f j % 2 ^ 32) % 2 ^ 32 ≡ sum_range n i f % 2 ^ 32
sum_range_mod zero i f = refl
sum_range_mod (suc n) i f = omega (arith, sum_range_mod n (i + 1) f)

item_word : (page k i : ℕ) → word_index page + 256 * k + i ≡ word_index page + (256 * k + i)
item_word page k i = omega arith

count_word :
    (b : Bool) (s : Memory) (d : ℕ)
    → s d < 2 ^ 32
    → (if b then store s d (add32 (s d) 1) else s) d ≡ (s d + (if b then 1 else 0)) % 2 ^ 32
unfolding add32
count_word true s d low = store_same s d _
count_word false s d low = omega (arith, low)

count_other :
    (b : Bool) (s : Memory) (d a : ℕ) → a ≢ d → (if b then store s d (add32 (s d) 1) else s) a ≡ s a
count_other true s d a ne = store_other s d _ a ne
count_other false s d a ne = refl

module _ (schedule : ℕ → List ℕ) (ok : IsSchedule schedule) (tcb : CpuTcb) (m : Memory) (n : ℕ)
    (buffers : HasBuffers tcb (256 * n)) where
  open tcb use {src1_page_base, src2_page_base, dst_page_base}

  -- A loop of `fold_chunk`, whose term adds words modulo 2 ^ 32.
  fold_chunk-IsFolded :
      (term : ℕ → ℕ → ℕ)
      → IsFolded
          (word_index dst_page_base)
          n
          (λ k.
            sum_range 256 0 (λ i. term (src1 tcb m (256 * k + i)) (src2 tcb m (256 * k + i)))
            % 2 ^ 32)
          m
          (parallel (schedule n) (fold_chunk tcb term) m)
  fold_chunk-IsFolded term =
      folds-IsFolded schedule ok tcb m n buffers term body (λ k i s low. adds k i s)
        (λ k i s a ne. store_other s _ _ a ne) (fold_chunk tcb term) unrolls
    where
      body : ℕ → ℕ → Memory → Memory
      body k i s = store s (dst tcb k) (
          add32 (s (dst tcb k)) (
            term (s (word_index src1_page_base + 256 * k + i))
              (s (word_index src2_page_base + 256 * k + i))))

      adds :
          (k i : ℕ) (s : Memory)
          → body k i s (dst tcb k)
            ≡ (s (dst tcb k) + term (src1 tcb s (256 * k + i)) (src2 tcb s (256 * k + i))) % 2 ^ 32
      adds k i s =
          store_same s (dst tcb k) _
          ∙ unfold add32 in
            ap₂ (λ x y. (s (dst tcb k) + term (s x) (s y)) % 2 ^ 32) (item_word src1_page_base k i)
              (item_word src2_page_base k i)

      unrolls :
          (k : ℕ) (s : Memory)
          → fold_chunk tcb term k s ≡ counted 256 0 (body k) (store s (dst tcb k) 0)
      unrolls k s =
          unfold fold_chunk in
          rw (chunk_word dst_page_base k, chunk_word src1_page_base k, chunk_word src2_page_base k)
            refl

  lookup_chunk-IsFolded :
      IsFolded
        (word_index dst_page_base)
        n
        (λ k. sum_range 256 0 (λ i. if src1 tcb m (256 * k + i) == 2 then 1 else 0) % 2 ^ 32)
        m
        (parallel (schedule n) (lookup_chunk tcb) m)
  lookup_chunk-IsFolded =
      folds-IsFolded schedule ok tcb m n buffers (λ a b. if a == 2 then 1 else 0) body adds keeps
        (lookup_chunk tcb) unrolls
    where
      body : ℕ → ℕ → Memory → Memory
      body k i s =
          if s (word_index src1_page_base + 256 * k + i) == 2
          then store s (dst tcb k) (add32 (s (dst tcb k)) 1)
          else s

      adds :
          (k i : ℕ) (s : Memory)
          → s (dst tcb k) < 2 ^ 32
          → body k i s (dst tcb k)
            ≡ (s (dst tcb k) + (if src1 tcb s (256 * k + i) == 2 then 1 else 0)) % 2 ^ 32
      adds k i s low =
          count_word (s (word_index src1_page_base + 256 * k + i) == 2) s (dst tcb k) low
          ∙ ap (λ x. (s (dst tcb k) + (if s x == 2 then 1 else 0)) % 2 ^ 32)
              (item_word src1_page_base k i)

      keeps : (k i : ℕ) (s : Memory) (a : ℕ) → a ≢ dst tcb k → body k i s a ≡ s a
      keeps k i s a ne =
          count_other (s (word_index src1_page_base + 256 * k + i) == 2) s (dst tcb k) a ne

      unrolls :
          (k : ℕ) (s : Memory)
          → lookup_chunk tcb k s ≡ counted 256 0 (body k) (store s (dst tcb k) 0)
      unrolls k s =
          unfold lookup_chunk in rw (chunk_word dst_page_base k, chunk_word src1_page_base k) refl

-- EUDIST, MAC and LOOKUP on the host, for up to 414 page blocks whose destination shares no word with
-- a source and for every order of the iterations: the first item of each chunk of 256 becomes, modulo
-- 2 ^ 32, the sum over the chunk of the squares of `src2[i] - src1[i]`, of `src1[i] * src2[i]`, and
-- the number of items of `src1` that are 2; no other word changes.
pub host_folds :
    (schedule : ℕ → List ℕ) (tcb : CpuTcb) (m : Memory)
    → IsSchedule schedule
    → tcb.page_blk_cnt ≤ 414
    → HasBuffers tcb (2590720 * tcb.page_blk_cnt)
    → IsFolded
        (word_index tcb.dst_page_base)
        (10120 * tcb.page_blk_cnt)
        (λ k.
          sum_range 256 0 (λ i.
            sub32 (src2 tcb m (256 * k + i)) (src1 tcb m (256 * k + i))
            * sub32 (src2 tcb m (256 * k + i)) (src1 tcb m (256 * k + i)))
          % 2 ^ 32)
        m
        (eudist_cpu tcb schedule m)
      × IsFolded
          (word_index tcb.dst_page_base)
          (10120 * tcb.page_blk_cnt)
          (λ k. sum_range 256 0 (λ i. src1 tcb m (256 * k + i) * src2 tcb m (256 * k + i)) % 2 ^ 32)
          m
          (mac_cpu tcb schedule m)
      × IsFolded
          (word_index tcb.dst_page_base)
          (10120 * tcb.page_blk_cnt)
          (λ k. sum_range 256 0 (λ i. if src1 tcb m (256 * k + i) == 2 then 1 else 0) % 2 ^ 32)
          m
          (lookup_cpu tcb schedule m)
unfolding eudist_cpu mac_cpu lookup_cpu mul32
host_folds schedule tcb m ok h buffers = rw (chunk_num_small tcb.page_blk_cnt h) (
  IsFolded-cong _ _ _ _ m _ (λ k. sum_range_mod 256 0 (square k))
      (fold_chunk-IsFolded schedule ok tcb m n words (λ a b. mul32 (sub32 b a) (sub32 b a))),
  IsFolded-cong _ _ _ _ m _ (λ k. sum_range_mod 256 0 (product k))
      (fold_chunk-IsFolded schedule ok tcb m n words mul32),
  lookup_chunk-IsFolded schedule ok tcb m n words,
)
  where
    n : ℕ
    n = 10120 * tcb.page_blk_cnt

    difference : ℕ → ℕ → ℕ
    difference k i = sub32 (src2 tcb m (256 * k + i)) (src1 tcb m (256 * k + i))

    square : ℕ → ℕ → ℕ
    square k i = difference k i * difference k i

    product : ℕ → ℕ → ℕ
    product k i = src1 tcb m (256 * k + i) * src2 tcb m (256 * k + i)

    words : HasBuffers tcb (256 * n)
    words = record {
      src1_apart = omega (arith, buffers.src1_apart);
      src2_apart = omega (arith, buffers.src2_apart);
    }
