-- ===== src/Operator/Transfer.antt =====
-- The operators MAP and REDUCE, which move page blocks between the host's memory and those of the
-- DPUs: `execCPU` of src/Operator/OperatorMAP.cpp and OperatorREDUCE.cpp. The scatter-gather transfer
-- is a function of the UPMEM SDK and hence a parameter, with what the SDK's manual says of it for
-- blocks of a page: a DPU's blocks follow each other from the offset on, up to the first block that
-- `get_block` does not have.
pub mod Blocks
pub mod Copy
use meta_pb.Common.{ℕ, ◌+◌, ◌*◌, ◌<◌, ◌≡◌, ◌≢◌, ◌⊎◌, Option, none, some}
use meta_pb.Operator.Pages.{u32, page_size_byte, dpu_num, CpuTcb, get_block}
use meta_pb.Operator.Memory.{Memory, word_index}
use meta_pb.Operator.Memory.Writers.{Off}

-- The memories of the DPUs.
abbrev pub Mrams : Type 0
Mrams = ℕ → Memory

-- The address and the length of a DPU's block.
abbrev pub GetBlock : Type 0
GetBlock = ℕ → ℕ → Option (ℕ × ℕ)

-- Each DPU has `n` blocks, all pages, which make up the length.
pub record IsPaged (blocks : GetBlock) (length n : ℕ) (address : ℕ → ℕ → ℕ) : Type 0 where
  pub whole : length ≡ page_size_byte * n
  pub block : (d b : ℕ) → d < dpu_num → b < n → blocks d b ≡ some (address d b, page_size_byte)
  pub stop : (d : ℕ) → d < dpu_num → blocks d n ≡ none

-- No two blocks share a word of the host's memory.
abbrev pub Separate : ℕ → (ℕ → ℕ → ℕ) → Type 0
Separate n address =
    (d b d' b' i : ℕ)
    → d < dpu_num
    → b < n
    → d' < dpu_num
    → b' < n
    → (d ≢ d') ⊎ (b ≢ b')
    → i < 1024
    → Off (word_index (address d b)) 1024 (word_index (address d' b') + i)

pub record SgXfer : Type 0 where
  pub to_dpu : GetBlock → ℕ → ℕ → Memory → Mrams → Mrams
  pub from_dpu : GetBlock → ℕ → ℕ → Mrams → Memory → Memory

pub record SgLaws (xfer : SgXfer) : Type 0 where
  pub to_page :
      (blocks : GetBlock) (offset length n : ℕ) (address : ℕ → ℕ → ℕ) (host : Memory)
      (mrams : Mrams)
      → IsPaged blocks length n address
      → (d b i : ℕ) → d < dpu_num
      → b < n
      → i < 1024
      → xfer.to_dpu blocks offset length host mrams d (word_index offset + 1024 * b + i)
        ≡ host (word_index (address d b) + i)
  pub to_rest :
      (blocks : GetBlock) (offset length n : ℕ) (address : ℕ → ℕ → ℕ) (host : Memory)
      (mrams : Mrams)
      → IsPaged blocks length n address
      → (d a : ℕ) → d < dpu_num
      → Off (word_index offset) (1024 * n) a
      → xfer.to_dpu blocks offset length host mrams d a ≡ mrams d a
  pub from_page :
      (blocks : GetBlock) (offset length n : ℕ) (address : ℕ → ℕ → ℕ) (mrams : Mrams)
      (host : Memory)
      → IsPaged blocks length n address
      → Separate n address
      → (d b i : ℕ) → d < dpu_num
      → b < n
      → i < 1024
      → xfer.from_dpu blocks offset length mrams host (word_index (address d b) + i)
        ≡ mrams d (word_index offset + 1024 * b + i)
  pub from_rest :
      (blocks : GetBlock) (offset length n : ℕ) (address : ℕ → ℕ → ℕ) (mrams : Mrams)
      (host : Memory)
      → IsPaged blocks length n address
      → Separate n address
      → (a : ℕ) → ((d b : ℕ) → d < dpu_num → b < n → Off (word_index (address d b)) 1024 a)
      → xfer.from_dpu blocks offset length mrams host a ≡ host a

module _ (xfer : SgXfer) (tcb : CpuTcb) where
  -- The offset and the length of the transfer are products of `uint32_t`.
  unfoldable pub map_cpu : Memory → Mrams → Mrams
  map_cpu host mrams =
      xfer.to_dpu (get_block tcb.sg_info) (u32 (tcb.sg_info.dpu_page_base_idx * page_size_byte))
        (u32 (tcb.sg_info.page_blk_cnt * page_size_byte)) host mrams

  unfoldable pub reduce_cpu : Mrams → Memory → Memory
  reduce_cpu mrams host =
      xfer.from_dpu (get_block tcb.sg_info) (u32 (tcb.sg_info.dpu_page_base_idx * page_size_byte))
        (u32 (tcb.sg_info.page_blk_cnt * page_size_byte)) mrams host
