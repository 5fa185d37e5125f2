-- ===== src/Operator/Dpu.antt =====
-- The programs that the DPUs run: src/Operator/dpu/AFFINE.c, ELEW_ADD.c, ELEW_PROD.c, CONV_1D.c,
-- FILTER.c, MAC.c and LOOKUP.c, which share one `main`. A DPU is its memory, whose word 0 begins
-- `buffer`, and its tasklets, each with a cache of its own. A step of a tasklet is the part of a round
-- up to and with the computation, or the writing of the cache; the steps of the tasklets interleave.
pub mod Inv
pub mod Run
pub mod Programs
pub mod Folds
pub mod Distance
use meta_pb.Common.{
  ℕ, ◌+◌, ◌-◌, ◌*◌, List, [], ◌∷◌, Bool, true, false, if◌then◌else◌, ltb, ◌==◌, ◌&&◌, leb,
}
use meta_pb.Operator.Pages.{u32, DpuTcb, page_size_byte}
use meta_pb.Operator.Memory.{Memory, add32, mul32, word_index, counted}
use meta_pb.Operator.Kernels.{
  affine_weight, lookup_target, dpu_dma_bffr_byte, page_item_num, conv_item, filter_item,
}

abbrev pub nr_tasklets : ℕ
nr_tasklets = 12

-- The words of a cache.
abbrev pub DpuCache : Type 0
DpuCache = ℕ → ℕ

pub record Tasklet : Type 0 where
  pub byte_index : ℕ
  pub loaded : Bool
  pub cache : DpuCache

pub record Dpu : Type 0 where
  pub mram : Memory
  pub tasklet : ℕ → Tasklet

unfoldable pub mram_read : Memory → ℕ → DpuCache
mram_read mram base = λ i. if ltb i page_item_num then mram (base + i) else 0

unfoldable pub mram_write : DpuCache → Memory → ℕ → Memory
mram_write cache mram base =
    λ a. if leb base a && ltb a (base + page_item_num) then cache (a - base) else mram a

-- What a program computes in the destination's cache from the caches of the sources.
abbrev pub DpuKernel : Type 0
DpuKernel = DpuCache → DpuCache → DpuCache → DpuCache

unfoldable pub affine_dpu : DpuKernel
affine_dpu src1 src2 dst = λ i. add32 (mul32 affine_weight (src1 i)) (src2 i)

unfoldable pub elew_add_dpu : DpuKernel
elew_add_dpu src1 src2 dst = λ i. add32 (src1 i) (src2 i)

unfoldable pub elew_prod_dpu : DpuKernel
elew_prod_dpu src1 src2 dst = λ i. mul32 (src1 i) (src2 i)

unfoldable pub conv_1d_dpu : DpuKernel
conv_1d_dpu src src2 dst = λ i. conv_item src i

-- The bound on `i + j` is the chunk's.
unfoldable pub filter_dpu : DpuKernel
filter_dpu src src2 dst = λ i. filter_item page_item_num src i

unfoldable pub mac_round : DpuCache → DpuCache → ℕ → ℕ → ℕ
mac_round src1 src2 j sum = add32 sum (mul32 (src1 j) (src2 j))

-- `dst[0]` is the sum; the other items stay what they are.
unfoldable pub mac_dpu : DpuKernel
mac_dpu src1 src2 dst =
    λ i. if i == 0 then counted page_item_num 0 (mac_round src1 src2) 0 else dst i

unfoldable pub lookup_round : DpuCache → ℕ → ℕ → ℕ
lookup_round src j n = if src j == lookup_target then add32 n 1 else n

unfoldable pub lookup_dpu : DpuKernel
lookup_dpu src src2 dst =
    λ i. if i == 0 then counted page_item_num 0 (lookup_round src) 0 else dst i

unfoldable pub dpu_max_offset : DpuTcb → ℕ
dpu_max_offset tcb = u32 (tcb.page_cnt * page_size_byte)

-- The words at `byte_index` behind a page.
abbrev pub dpu_chunk : ℕ → ℕ → ℕ
dpu_chunk idx byte_index = word_index (page_size_byte * idx + byte_index)

unfoldable pub set_tasklet : ℕ → Tasklet → (ℕ → Tasklet) → ℕ → Tasklet
set_tasklet id t tasklets x = if x == id then t else tasklets x

-- `byte_index = DPU_DMA_BFFR_BYTE * tasklet_id`; the caches hold whatever they held.
unfoldable pub dpu_start : Memory → (ℕ → DpuCache) → Dpu
dpu_start mram caches = record {
  mram = mram;
  tasklet = λ id. record { byte_index = dpu_dma_bffr_byte * id; loaded = false; cache = caches id };
}

module _ (kernel : DpuKernel) (tcb : DpuTcb) where
  unfoldable pub load_step : ℕ → Dpu → Dpu
  load_step id dpu =
      let t = dpu.tasklet id in
      record {
        mram = dpu.mram;
        tasklet =
            set_tasklet id
              (record {
                byte_index = t.byte_index;
                loaded = true;
                cache =
                    kernel (mram_read dpu.mram (dpu_chunk tcb.src1_page_idx t.byte_index))
                      (mram_read dpu.mram (dpu_chunk tcb.src2_page_idx t.byte_index)) t.cache;
              })
              dpu.tasklet;
      }

  unfoldable pub write_step : ℕ → Dpu → Dpu
  write_step id dpu =
      let t = dpu.tasklet id in
      record {
        mram = mram_write t.cache dpu.mram (dpu_chunk tcb.dst_page_idx t.byte_index);
        tasklet =
            set_tasklet id
              (record {
                byte_index = u32 (t.byte_index + dpu_dma_bffr_byte * nr_tasklets);
                loaded = false;
                cache = t.cache;
              })
              dpu.tasklet;
      }

  unfoldable pub tasklet_step : ℕ → Dpu → Dpu
  tasklet_step id dpu =
      let t = dpu.tasklet id in
      if ltb t.byte_index (dpu_max_offset tcb)
      then (if t.loaded then write_step id dpu else load_step id dpu)
      else dpu

  -- The steps of the tasklets in the order of `ids`.
  unfoldable pub run_tasklets : List ℕ → Dpu → Dpu
  run_tasklets [] dpu = dpu
  run_tasklets (id ∷ ids) dpu = run_tasklets ids (tasklet_step id dpu)
