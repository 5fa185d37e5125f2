-- ===== src/Operator/Pages.antt =====
-- Pages and page blocks: the constants of include/Operator/OperatorBase.hpp and
-- include/Operator/dpu/common.h, the control blocks that name memory, and the arithmetic on them.
-- Pointers are byte addresses; `uint32_t` arithmetic wraps at 2 ^ 32.
pub mod Cover
use meta_pb.Common.{ℕ, ◌+◌, ◌-◌, ◌*◌, ◌/◌, ◌%◌, ◌^◌, Option, none, some, leb, if◌then◌else◌}

abbrev pub u32 : ℕ → ℕ
u32 n = n % 2 ^ 32

abbrev pub u64 : ℕ → ℕ
u64 n = n % 2 ^ 64

abbrev pub page_size_byte : ℕ
page_size_byte = 4096

abbrev pub dpu_num : ℕ
dpu_num = 2530

-- One page on each DPU.
abbrev pub page_blk_size : ℕ
page_blk_size = 10362880

pub record SgXferContext : Type 0 where
  pub cpu_page_blk_base_addr : ℕ
  pub dpu_page_base_idx : ℕ
  pub page_blk_cnt : ℕ

pub record CpuTcb : Type 0 where
  pub src1_page_base : ℕ
  pub src2_page_base : ℕ
  pub dst_page_base : ℕ
  pub page_blk_cnt : ℕ
  pub sg_info : SgXferContext

pub record DpuTcb : Type 0 where
  pub src1_page_idx : ℕ
  pub src2_page_idx : ℕ
  pub dst_page_idx : ℕ
  pub page_cnt : ℕ

-- The page blocks that hold a size in MiB.
unfoldable pub get_nearest_page_blk_cnt : ℕ → ℕ
get_nearest_page_blk_cnt input_size_mib =
    u32 (u64 (input_size_mib * 2 ^ 20 + page_blk_size - 1) / page_blk_size)

-- The address of a DPU's block of a scatter-gather transfer, `none` after the last block.
unfoldable pub get_block : SgXferContext → ℕ → ℕ → Option (ℕ × ℕ)
get_block args dpu_index block_index =
    if leb args.page_blk_cnt block_index
    then none
    else some (
      args.cpu_page_blk_base_addr + u32 (page_size_byte * u32 (block_index * dpu_num + dpu_index)),
      page_size_byte,
    )
