-- ===== src/Operator/Transfer/Copy.antt =====
-- MAP and REDUCE of the same pages of the DPUs, one after the other.
use meta_pb.Common.{ℕ, ◌+◌, ◌*◌, ◌/◌, ◌%◌, ◌<◌, ◌≡◌, ap, ◌∙◌, arith}
use meta_pb.Operator.Pages.{CpuTcb}
use meta_pb.Operator.Memory.{Memory, word_index}
use meta_pb.Operator.Memory.Writers.{IsFilled, IsFilled-cong}
use meta_pb.Operator.Transfer.{Mrams, SgXfer, SgLaws, map_cpu, reduce_cpu}
use meta_pb.Operator.Transfer.Blocks.{FitsSg, map_word, reduce-IsFilled}

-- REDUCE brings back what MAP took: after MAP of up to 414 page blocks of a buffer, REDUCE of the same
-- pages of the DPUs into a buffer, of whatever the host's memory holds by then, writes the words of
-- the first buffer as they were, in their order, and changes no other word.
pub reduce_cpu-map_cpu :
    (xfer : SgXfer) (from to : CpuTcb) (host host' : Memory) (mrams : Mrams)
    → SgLaws xfer
    → FitsSg from.sg_info
    → to.sg_info.page_blk_cnt ≡ from.sg_info.page_blk_cnt
    → to.sg_info.dpu_page_base_idx ≡ from.sg_info.dpu_page_base_idx
    → IsFilled
        (word_index to.sg_info.cpu_page_blk_base_addr)
        (2590720 * from.sg_info.page_blk_cnt)
        (λ w. host (word_index from.sg_info.cpu_page_blk_base_addr + w))
        host'
        (reduce_cpu xfer to (map_cpu xfer from host mrams) host')
reduce_cpu-map_cpu xfer from to host host' mrams laws fits blocks pages =
    IsFilled-cong _ _ _ host' _ (omega (arith, blocks)) moved
      (reduce-IsFilled xfer laws to fits_to (map_cpu xfer from host mrams) host')
  where
    fits_to : FitsSg to.sg_info
    fits_to = record { few = rw blocks fits.few; low = rw pages fits.low }

    moved :
        (w : ℕ)
        → w < 2590720 * to.sg_info.page_blk_cnt
        → map_cpu xfer from host mrams
            (w / 1024 % 2530)
            (1024 * to.sg_info.dpu_page_base_idx + (1024 * (w / 1024 / 2530) + w % 1024))
          ≡ host (word_index from.sg_info.cpu_page_blk_base_addr + w)
    moved w h =
        ap
          (λ p.
            map_cpu xfer from host mrams (w / 1024 % 2530)
              (1024 * p + (1024 * (w / 1024 / 2530) + w % 1024)))
          pages
        ∙ map_word xfer laws from fits host mrams w (omega (arith, h, blocks))
