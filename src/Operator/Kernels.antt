-- ===== src/Operator/Kernels.antt =====
-- The operators that compute on the host: `execCPU` of src/Operator/OperatorAffine.cpp,
-- OperatorELEW_ADD.cpp, OperatorELEW_PROD.cpp, OperatorCONV_1D.cpp, OperatorEUDIST.cpp,
-- OperatorMAC.cpp, OperatorLOOKUP.cpp and OperatorFILTER.cpp. `schedule n` is the order in which
-- OpenMP runs the `n` iterations of the parallel loop.
pub mod Items
pub mod Host
pub mod Fold
use meta_pb.Common.{
  ℕ, ◌+◌, ◌-◌, ◌*◌, ◌/◌, List, if◌then◌else◌, leb, ltb, ◌==◌, ◌&&◌, [], ◌∷◌, get_or,
}
use meta_pb.Operator.Pages.{u32, page_blk_size, CpuTcb}
use meta_pb.Operator.Memory.{
  Memory, add32, sub32, mul32, div_int, word_index, store, counted, parallel,
}

abbrev pub dpu_dma_bffr_byte : ℕ
dpu_dma_bffr_byte = 1024

-- The `int`s of a chunk.
abbrev pub page_item_num : ℕ
page_item_num = 256

-- `pageBlkCnt * pageBlkSize` is a product of two `uint32_t`.
unfoldable pub max_offset : ℕ → ℕ
max_offset page_blk_cnt = u32 (page_blk_cnt * page_blk_size)

unfoldable pub item_num : ℕ → ℕ
item_num page_blk_cnt = max_offset page_blk_cnt / 4

-- The iterations of `for (offset = 0; offset < maxOffset; offset += DPU_DMA_BFFR_BYTE)`.
unfoldable pub chunk_num : ℕ → ℕ
chunk_num page_blk_cnt = (max_offset page_blk_cnt + (dpu_dma_bffr_byte - 1)) / dpu_dma_bffr_byte

-- The word index of `page + offset` in the `k`-th iteration.
abbrev pub chunk_at : ℕ → ℕ → ℕ
chunk_at page k = word_index (page + dpu_dma_bffr_byte * k)

-- `(int)weight` and `(int)target` of 2.5f.
abbrev pub affine_weight : ℕ
affine_weight = 2

abbrev pub lookup_target : ℕ
lookup_target = 2

abbrev pub kernel_size : ℕ
kernel_size = 8

-- `(int)gaussianKernel[j]`
unfoldable pub gaussian_kernel : ℕ → ℕ
gaussian_kernel j = get_or (8 ∷ 1 ∷ 1 ∷ 3 ∷ 3 ∷ 1 ∷ 1 ∷ 8 ∷ []) j 0

module _ (tcb : CpuTcb) where
  open tcb use {src1_page_base, src2_page_base, dst_page_base, page_blk_cnt}

  -- `dst[i] = item i src1[i] src2[i]`
  unfoldable pub elementwise : (ℕ → ℕ → ℕ) → ℕ → Memory → Memory
  elementwise item i m =
      store m (word_index dst_page_base + i)
        (item (m (word_index src1_page_base + i)) (m (word_index src2_page_base + i)))

  unfoldable pub affine_cpu : (ℕ → List ℕ) → Memory → Memory
  affine_cpu schedule m =
      parallel (schedule (item_num page_blk_cnt))
        (elementwise (λ a b. add32 (mul32 a affine_weight) b)) m

  unfoldable pub elew_add_cpu : (ℕ → List ℕ) → Memory → Memory
  elew_add_cpu schedule m = parallel (schedule (item_num page_blk_cnt)) (elementwise add32) m

  unfoldable pub elew_prod_cpu : (ℕ → List ℕ) → Memory → Memory
  elew_prod_cpu schedule m = parallel (schedule (item_num page_blk_cnt)) (elementwise mul32) m

-- The `j`-th round of CONV_1D for item `i` of a chunk: `inputIndex` is `i - padding + j`, and what
-- lies outside the chunk is skipped.
unfoldable pub conv_step : (ℕ → ℕ) → ℕ → ℕ → ℕ → ℕ
conv_step src i j sum =
    let padding : ℕ = (kernel_size - 1) / 2 in
    if leb padding (i + j) && ltb (i + j - padding) page_item_num
    then add32 sum (mul32 (src (i + j - padding)) (gaussian_kernel j))
    else sum

unfoldable pub conv_item : (ℕ → ℕ) → ℕ → ℕ
conv_item src i = counted kernel_size 0 (conv_step src i) 0

-- The `j`-th round of FILTER for item `i` of a chunk, with the bound on `i + j`.
unfoldable pub filter_step : ℕ → (ℕ → ℕ) → ℕ → ℕ → ℕ → ℕ
filter_step bound src i j sum =
    if ltb (i + j) bound then add32 sum (div_int (src (i + j)) kernel_size) else sum

unfoldable pub filter_item : ℕ → (ℕ → ℕ) → ℕ → ℕ
filter_item bound src i = div_int (counted kernel_size 0 (filter_step bound src i) 0) kernel_size

module _ (tcb : CpuTcb) where
  open tcb use {src1_page_base, src2_page_base, dst_page_base, page_blk_cnt}

  unfoldable pub conv_chunk : ℕ → Memory → Memory
  conv_chunk k m =
      counted page_item_num 0
        (λ i s.
          store s (chunk_at dst_page_base k + i)
            (conv_item (λ x. s (chunk_at src1_page_base k + x)) i))
        m

  unfoldable pub conv_1d_cpu : (ℕ → List ℕ) → Memory → Memory
  conv_1d_cpu schedule m = parallel (schedule (chunk_num page_blk_cnt)) conv_chunk m

  -- The bound is the number of items of the whole buffer, though `i + j` counts from the chunk.
  unfoldable pub filter_chunk : ℕ → Memory → Memory
  filter_chunk k m =
      counted page_item_num 0
        (λ i s.
          store s (chunk_at dst_page_base k + i)
            (filter_item (item_num page_blk_cnt) (λ x. s (chunk_at src1_page_base k + x)) i))
        m

  unfoldable pub filter_cpu : (ℕ → List ℕ) → Memory → Memory
  filter_cpu schedule m = parallel (schedule (chunk_num page_blk_cnt)) filter_chunk m

  -- `myDst[0] = 0`, and then for each item `myDst[0] += term mySrc1[i] mySrc2[i]`.
  unfoldable pub fold_chunk : (ℕ → ℕ → ℕ) → ℕ → Memory → Memory
  fold_chunk term k m =
      counted page_item_num 0
        (λ i s. store s (chunk_at dst_page_base k) (
          add32 (s (chunk_at dst_page_base k))
            (term (s (chunk_at src1_page_base k + i)) (s (chunk_at src2_page_base k + i)))))
        (store m (chunk_at dst_page_base k) 0)

  unfoldable pub eudist_cpu : (ℕ → List ℕ) → Memory → Memory
  eudist_cpu schedule m =
      parallel (schedule (chunk_num page_blk_cnt))
        (fold_chunk (λ a b. mul32 (sub32 b a) (sub32 b a))) m

  unfoldable pub mac_cpu : (ℕ → List ℕ) → Memory → Memory
  mac_cpu schedule m = parallel (schedule (chunk_num page_blk_cnt)) (fold_chunk mul32) m

  unfoldable pub lookup_chunk : ℕ → Memory → Memory
  lookup_chunk k m =
      counted page_item_num 0
        (λ i s.
          if s (chunk_at src1_page_base k + i) == lookup_target
          then store s (chunk_at dst_page_base k) (add32 (s (chunk_at dst_page_base k)) 1)
          else s)
        (store m (chunk_at dst_page_base k) 0)

  unfoldable pub lookup_cpu : (ℕ → List ℕ) → Memory → Memory
  lookup_cpu schedule m = parallel (schedule (chunk_num page_blk_cnt)) lookup_chunk m
