-- ===== src/Operator/Dpu/Programs.antt =====
-- The DPU programs, for every interleaving of their tasklets.
use meta_pb.Common.{
  ℕ, ◌+◌, ◌*◌, ◌/◌, ◌%◌, ◌^◌, ◌≤◌, ◌<◌, ◌≡◌, refl, ap, ap₂, ◌∙◌, List, All, arith, ltb, lt→ltb,
  if_true,
}
use meta_pb.Operator.Pages.{DpuTcb}
use meta_pb.Operator.Memory.{Memory, add32, mul32, div_int}
use meta_pb.Operator.Memory.Writers.{IsFilled, IsFilled-cong}
use meta_pb.Operator.Kernels.{gaussian_kernel, conv_item, filter_item}
use meta_pb.Operator.Kernels.Items.{
  sum_range, padded, cut, conv_item_ext, filter_item_ext, conv_item-sum_range,
  filter_item-sum_range,
}
use meta_pb.Operator.Dpu.{
  DpuCache, mram_read, dpu_chunk, dpu_start, run_tasklets, affine_dpu, elew_add_dpu, elew_prod_dpu,
  conv_1d_dpu, filter_dpu,
}
use meta_pb.Operator.Dpu.Inv.{HasPages}
use meta_pb.Operator.Dpu.Run.{count, run_tasklets-IsFilled}

-- The words of a page and those behind it.
abbrev pub page_words : Memory → ℕ → ℕ → ℕ
page_words m idx i = m (1024 * idx + i)

-- Runs in which every tasklet has the steps that it needs.
abbrev pub IsComplete : DpuTcb → List ℕ → Type 0
IsComplete tcb ids =
    All (λ id. id < 12) ids × ((t : ℕ) → t < 12 → 2 * tcb.page_cnt + 3 ≤ 3 * count t ids)

pub read_word :
    (m : Memory) (idx j i : ℕ)
    → i < 256
    → mram_read m (dpu_chunk idx (1024 * j)) i ≡ page_words m idx (256 * j + i)
unfolding mram_read
read_word m idx j i h = if_true (ltb i 256) _ 0 (lt→ltb i 256 h) ∙ ap m (omega arith)

module _ (tcb : DpuTcb) (m : Memory) (ids : List ℕ) (caches : ℕ → DpuCache) (pages : HasPages tcb)
    (complete : IsComplete tcb ids) where
  abbrev src1 : ℕ → ℕ
  src1 = page_words m tcb.src1_page_idx

  abbrev src2 : ℕ → ℕ
  src2 = page_words m tcb.src2_page_idx

  elementwise_run :
      (item : ℕ → ℕ → ℕ)
      → IsFilled
          (1024 * tcb.dst_page_idx)
          (1024 * tcb.page_cnt)
          (λ i. item (src1 i) (src2 i))
          m
          (run_tasklets (λ a b c i. item (a i) (b i)) tcb ids (dpu_start m caches)).mram
  elementwise_run item =
      run_tasklets-IsFilled (λ a b c i. item (a i) (b i)) (λ a b i. item (a i) (b i)) (λ i. Unit)
        (λ a b c i h s. refl) tcb pages m ids caches complete.0 complete.1
        (λ i. item (src1 i) (src2 i)) (λ i. tt)
        (λ j i h.
          ap₂ item (read_word m tcb.src1_page_idx j i h) (read_word m tcb.src2_page_idx j i h))

-- AFFINE, ELEW_ADD and ELEW_PROD on a DPU, for every interleaving of the twelve tasklets that gives
-- each of them at least `2 * page_cnt / 3 + 1` steps: word `i` of the destination's pages becomes
-- `2 * src1[i] + src2[i]`, `src1[i] + src2[i]` and `src1[i] * src2[i]`, modulo 2 ^ 32, of the
-- sources' pages as they were, and no other word of the memory changes.
pub dpu_elementwise :
    (tcb : DpuTcb) (m : Memory) (ids : List ℕ) (caches : ℕ → DpuCache)
    → HasPages tcb
    → IsComplete tcb ids
    → IsFilled
        (1024 * tcb.dst_page_idx)
        (1024 * tcb.page_cnt)
        (λ i. (2 * page_words m tcb.src1_page_idx i + page_words m tcb.src2_page_idx i) % 2 ^ 32)
        m
        (run_tasklets affine_dpu tcb ids (dpu_start m caches)).mram
      × IsFilled
          (1024 * tcb.dst_page_idx)
          (1024 * tcb.page_cnt)
          (λ i. (page_words m tcb.src1_page_idx i + page_words m tcb.src2_page_idx i) % 2 ^ 32)
          m
          (run_tasklets elew_add_dpu tcb ids (dpu_start m caches)).mram
      × IsFilled
          (1024 * tcb.dst_page_idx)
          (1024 * tcb.page_cnt)
          (λ i. (page_words m tcb.src1_page_idx i * page_words m tcb.src2_page_idx i) % 2 ^ 32)
          m
          (run_tasklets elew_prod_dpu tcb ids (dpu_start m caches)).mram
unfolding affine_dpu elew_add_dpu elew_prod_dpu add32 mul32
dpu_elementwise tcb m ids caches pages complete = (
  IsFilled-cong _ _ _ m _ refl (λ i h. omega arith)
      (elementwise_run tcb m ids caches pages complete (λ a b. (2 * a % 2 ^ 32 + b) % 2 ^ 32)),
  elementwise_run tcb m ids caches pages complete (λ a b. (a + b) % 2 ^ 32),
  elementwise_run tcb m ids caches pages complete (λ a b. (a * b) % 2 ^ 32),
)

-- A word of the chunk that item `i` of a source's pages belongs to.
abbrev pub chunk_words : Memory → ℕ → ℕ → ℕ → ℕ
chunk_words m idx i x = page_words m idx (256 * (i / 256) + x)

-- CONV_1D and FILTER on a DPU, for every interleaving of the tasklets with enough steps: item `i` of
-- the destination's pages becomes, modulo 2 ^ 32, for CONV_1D the sum of the eight items from the
-- third before it on, times 8, 1, 1, 3, 3, 1, 1, 8, and for FILTER an eighth of the sum of the eighths
-- of the eight items from it on, where items outside the 256 of its chunk count as zero; no other word
-- of the memory changes.
pub dpu_windows :
    (tcb : DpuTcb) (m : Memory) (ids : List ℕ) (caches : ℕ → DpuCache)
    → HasPages tcb
    → IsComplete tcb ids
    → IsFilled
        (1024 * tcb.dst_page_idx)
        (1024 * tcb.page_cnt)
        (λ i.
          sum_range 8 0
            (λ j. padded (chunk_words m tcb.src1_page_idx i) (i % 256 + j) * gaussian_kernel j)
          % 2 ^ 32)
        m
        (run_tasklets conv_1d_dpu tcb ids (dpu_start m caches)).mram
      × IsFilled
          (1024 * tcb.dst_page_idx)
          (1024 * tcb.page_cnt)
          (λ i.
            div_int
              (sum_range 8 0 (λ j. cut 256 (chunk_words m tcb.src1_page_idx i) (i % 256 + j))
                % 2 ^ 32)
              8)
          m
          (run_tasklets filter_dpu tcb ids (dpu_start m caches)).mram
dpu_windows tcb m ids caches pages complete = (
  run_tasklets-IsFilled conv_1d_dpu (λ a b i. conv_item a i) (λ i. Unit)
      (λ a b c i h s. unfold conv_1d_dpu in refl) tcb pages m ids caches complete.0 complete.1 conv
      (λ i. tt)
      (λ j i h.
        conv_item_ext _ _ (read_word m tcb.src1_page_idx j) i
        ∙ conv_item-sum_range (λ x. src1 (256 * j + x)) i
        ∙ ap₂
            (λ k r.
              sum_range 8 0 (λ q. padded (λ x. src1 (256 * k + x)) (r + q) * gaussian_kernel q)
              % 2 ^ 32)
            (chunk_no j i h) (item_no j i h)),
  run_tasklets-IsFilled filter_dpu (λ a b i. filter_item 256 a i) (λ i. Unit)
      (λ a b c i h s. unfold filter_dpu in refl) tcb pages m ids caches complete.0 complete.1 filter
      (λ i. tt)
      (λ j i h.
        filter_item_ext 256 _ (λ x. src1 (256 * j + x)) (read_word m tcb.src1_page_idx j) i
        ∙ filter_item-sum_range 256 (λ x. src1 (256 * j + x)) i
        ∙ ap₂
            (λ k r.
              div_int (sum_range 8 0 (λ q. cut 256 (λ x. src1 (256 * k + x)) (r + q)) % 2 ^ 32) 8)
            (chunk_no j i h) (item_no j i h)),
)
  where
    src1 : ℕ → ℕ
    src1 = page_words m tcb.src1_page_idx

    conv : ℕ → ℕ
    conv i =
        sum_range 8 0
          (λ j. padded (chunk_words m tcb.src1_page_idx i) (i % 256 + j) * gaussian_kernel j)
        % 2 ^ 32

    filter : ℕ → ℕ
    filter i =
        div_int
          (sum_range 8 0 (λ j. cut 256 (chunk_words m tcb.src1_page_idx i) (i % 256 + j)) % 2 ^ 32)
          8

    chunk_no : (j i : ℕ) → i < 256 → j ≡ (256 * j + i) / 256
    chunk_no j i h = omega (arith, h)

    item_no : (j i : ℕ) → i < 256 → i ≡ (256 * j + i) % 256
    item_no j i h = omega (arith, h)
