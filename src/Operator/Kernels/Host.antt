-- ===== src/Operator/Kernels/Host.antt =====
-- `execCPU` of the operators that give every item: AFFINE, ELEW_ADD and ELEW_PROD here, CONV_1D and
-- FILTER in Windows.
pub mod Windows
use meta_pb.Common.{ℕ, ◌+◌, ◌*◌, ◌/◌, ◌%◌, ◌^◌, ◌≤◌, ◌<◌, ◌≡◌, ◌⊎◌, refl, ap, ap₂, List, arith}
use meta_pb.Operator.Pages.{CpuTcb}
use meta_pb.Operator.Memory.{Memory, add32, mul32, word_index, store, counted, parallel, IsSchedule}
use meta_pb.Operator.Memory.Tiles.{tiles-IsFilled}
use meta_pb.Operator.Memory.Writers.{IsFilled-cong, store-IsFilled, Off, IsFilled, loop-IsFilled}
use meta_pb.Operator.Kernels.{chunk_at, elementwise, affine_cpu, elew_add_cpu, elew_prod_cpu}
use meta_pb.Operator.Kernels.Items.{item_num_small}

-- Two regions of `n` and `k` words that share none.
abbrev pub Disjoint : ℕ → ℕ → ℕ → ℕ → Type 0
Disjoint a n b k = (a + n ≤ b) ⊎ (b + k ≤ a)

-- The task's buffers of the first `n` words: the destination shares no word with a source.
pub record HasBuffers (tcb : CpuTcb) (n : ℕ) : Type 0 where
  pub src1_apart : Disjoint (word_index tcb.src1_page_base) n (word_index tcb.dst_page_base) n
  pub src2_apart : Disjoint (word_index tcb.src2_page_base) n (word_index tcb.dst_page_base) n

pub chunk_word : (page k : ℕ) → chunk_at page k ≡ word_index page + 256 * k
chunk_word page k = omega arith

module _ (tcb : CpuTcb) (m : Memory) where
  abbrev pub src1 : ℕ → ℕ
  src1 i = m (word_index tcb.src1_page_base + i)

  abbrev pub src2 : ℕ → ℕ
  src2 i = m (word_index tcb.src2_page_base + i)

module _ (schedule : ℕ → List ℕ) (ok : IsSchedule schedule) (tcb : CpuTcb) (m : Memory) where
  open tcb use {src1_page_base, src2_page_base, dst_page_base, page_blk_cnt}

  elementwise-IsFilled :
      (item : ℕ → ℕ → ℕ) (n : ℕ)
      → HasBuffers tcb n
      → IsFilled
          (word_index dst_page_base)
          n
          (λ i. item (src1 tcb m i) (src2 tcb m i))
          m
          (parallel (schedule n) (elementwise tcb item) m)
  elementwise-IsFilled item n buffers =
      IsFilled-cong (word_index dst_page_base) (λ i. value m (i / 1) (i % 1)) _ m _ (omega arith)
        (λ i h. ap (λ k. item (src1 tcb m k) (src2 tcb m k)) (omega arith))
        (tiles-IsFilled (word_index dst_page_base) 1 n (omega arith) value (elementwise tcb item)
          fills reads schedule ok m)
    where
      value : Memory → ℕ → ℕ → ℕ
      value s k i = item (s (word_index src1_page_base + k)) (s (word_index src2_page_base + k))

      fills :
          (k : ℕ)
          → k < n
          → (s : Memory)
          → IsFilled (word_index dst_page_base + 1 * k) 1 (value s k) s (elementwise tcb item k s)
      fills k h s = unfold elementwise in store-IsFilled s _ _ _ (omega arith)

      reads :
          (s s' : Memory)
          → ((a : ℕ) → Off (word_index dst_page_base) (1 * n) a → s a ≡ s' a)
          → (k i : ℕ) → k < n
          → i < 1
          → value s k i ≡ value s' k i
      reads s s' h k i p q =
          ap₂ item (h (word_index src1_page_base + k) (omega (arith, p, buffers.src1_apart)))
            (h (word_index src2_page_base + k) (omega (arith, p, buffers.src2_apart)))

  -- A loop over chunks whose items are computed from the chunk of the first source and a margin of
  -- words behind it.
  module _ (item : (ℕ → ℕ) → ℕ → ℕ) (n margin : ℕ)
      (ext : (f g : ℕ → ℕ) (i : ℕ)
        → i < 256
        → ((x : ℕ) → x < 256 + margin → f x ≡ g x)
        → item f i ≡ item g i)
      (apart : Disjoint
        (word_index src1_page_base)
        (256 * n + margin)
        (word_index dst_page_base)
        (256 * n)) where
    pub chunk : ℕ → Memory → Memory
    chunk k s =
        counted 256 0
          (λ i s.
            store s (chunk_at dst_page_base k + i)
              (item (λ x. s (chunk_at src1_page_base k + x)) i))
          s

    value : Memory → ℕ → ℕ → ℕ
    value s k i = item (λ x. s (word_index src1_page_base + 256 * k + x)) i

    chunk-IsFilled :
        (k : ℕ)
        → k < n
        → (s : Memory) → IsFilled (word_index dst_page_base + 256 * k) 256 (value s k) s (chunk k s)
    unfolding chunk value
    chunk-IsFilled k h s =
        rw (chunk_word dst_page_base k, chunk_word src1_page_base k)
          (loop-IsFilled (word_index dst_page_base + 256 * k) 256 (λ s' i. value s' k i)
            (λ m m' same i p.
              ext _ _ i p (λ x q.
                same (word_index src1_page_base + 256 * k + x) (omega (arith, apart, h, q))))
            s)

    value_reads :
        (s s' : Memory)
        → ((a : ℕ) → Off (word_index dst_page_base) (256 * n) a → s a ≡ s' a)
        → (k i : ℕ) → k < n
        → i < 256
        → value s k i ≡ value s' k i
    unfolding value
    value_reads s s' same k i h p =
        ext _ _ i p
          (λ x q. same (word_index src1_page_base + 256 * k + x) (omega (arith, apart, h, q)))

    pub chunks-IsFilled :
        IsFilled
          (word_index dst_page_base)
          (256 * n)
          (λ i. item (λ x. src1 tcb m (256 * (i / 256) + x)) (i % 256))
          m
          (parallel (schedule n) chunk m)
    unfolding value
    chunks-IsFilled =
        IsFilled-cong (word_index dst_page_base) _ _ m _ refl
          (λ i h.
            ext (λ x. m (word_index src1_page_base + 256 * (i / 256) + x))
              (λ x. src1 tcb m (256 * (i / 256) + x)) (i % 256) (omega arith)
              (λ x q. ap m (omega arith)))
          (tiles-IsFilled (word_index dst_page_base) 256 n (omega arith) value chunk chunk-IsFilled
            value_reads schedule ok m)

-- AFFINE, ELEW_ADD and ELEW_PROD on the host, for up to 414 page blocks whose destination shares no
-- word with a source and for every order of the iterations: item `i` of the destination becomes
-- `2 * src1[i] + src2[i]`, `src1[i] + src2[i]` and `src1[i] * src2[i]`, modulo 2 ^ 32, of the sources
-- as they were, for all `2590720 * page_blk_cnt` items, and no other word changes.
pub host_elementwise :
    (schedule : ℕ → List ℕ) (tcb : CpuTcb) (m : Memory)
    → IsSchedule schedule
    → tcb.page_blk_cnt ≤ 414
    → HasBuffers tcb (2590720 * tcb.page_blk_cnt)
    → IsFilled
        (word_index tcb.dst_page_base)
        (2590720 * tcb.page_blk_cnt)
        (λ i. (2 * src1 tcb m i + src2 tcb m i) % 2 ^ 32)
        m
        (affine_cpu tcb schedule m)
      × IsFilled
          (word_index tcb.dst_page_base)
          (2590720 * tcb.page_blk_cnt)
          (λ i. (src1 tcb m i + src2 tcb m i) % 2 ^ 32)
          m
          (elew_add_cpu tcb schedule m)
      × IsFilled
          (word_index tcb.dst_page_base)
          (2590720 * tcb.page_blk_cnt)
          (λ i. (src1 tcb m i * src2 tcb m i) % 2 ^ 32)
          m
          (elew_prod_cpu tcb schedule m)
unfolding affine_cpu elew_add_cpu elew_prod_cpu add32 mul32
host_elementwise schedule tcb m ok h buffers = rw (item_num_small tcb.page_blk_cnt h) (
  IsFilled-cong _ _ _ m _ refl (λ i p. omega arith)
      (elementwise-IsFilled schedule ok tcb m (λ a b. (a * 2 % 2 ^ 32 + b) % 2 ^ 32) n buffers),
  elementwise-IsFilled schedule ok tcb m (λ a b. (a + b) % 2 ^ 32) n buffers,
  elementwise-IsFilled schedule ok tcb m (λ a b. (a * b) % 2 ^ 32) n buffers,
)
  where
    n : ℕ
    n = 2590720 * tcb.page_blk_cnt
