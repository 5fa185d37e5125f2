-- ===== src/Operator/Offload/Loaded.antt =====
-- What the DPUs' memories hold once both sources are mapped.
use meta_pb.Common.{ℕ, ◌+◌, ◌*◌, ◌/◌, ◌%◌, ◌≤◌, ◌<◌, ◌≡◌, ◌∙◌, arith}
use meta_pb.Operator.Pages.{CpuTcb, DpuTcb}
use meta_pb.Operator.Memory.{Memory}
use meta_pb.Operator.Kernels.Host.{Disjoint, src1, src2}
use meta_pb.Operator.Dpu.Inv.{HasPages}
use meta_pb.Operator.Transfer.{Mrams, SgXfer, SgLaws}
use meta_pb.Operator.Transfer.Blocks.{FitsSg, map_word, map_rest}
use meta_pb.Operator.Offload.{sg_task, mapped_sources}

-- The pages of a task on the DPUs: as many as the host's page blocks, in the DPUs' memory, and the
-- pages of the two sources apart.
pub record IsOffload (tcb : CpuTcb) (dpu_tcb : DpuTcb) : Type 0 where
  pub same_size : dpu_tcb.page_cnt ≡ tcb.page_blk_cnt
  pub few : tcb.page_blk_cnt ≤ 414
  pub src1_low : dpu_tcb.src1_page_idx ≤ 15360
  pub src2_low : dpu_tcb.src2_page_idx ≤ 15360
  pub dst_low : dpu_tcb.dst_page_idx ≤ 15360
  pub sources_apart :
      Disjoint dpu_tcb.src1_page_idx tcb.page_blk_cnt dpu_tcb.src2_page_idx tcb.page_blk_cnt
  pub pages : HasPages dpu_tcb

module _ (xfer : SgXfer) (laws : SgLaws xfer) (tcb : CpuTcb) (dpu_tcb : DpuTcb)
    (ok : IsOffload tcb dpu_tcb) (host : Memory) (mrams : Mrams) where
  -- The word of a page of the DPUs that belongs to word `w` of the host's buffers.
  abbrev pub at_word : Mrams → ℕ → ℕ → ℕ
  at_word m idx w = m (w / 1024 % 2530) (1024 * idx + (1024 * (w / 1024 / 2530) + w % 1024))

  fits1 : FitsSg (sg_task tcb.src1_page_base dpu_tcb.src1_page_idx tcb.page_blk_cnt).sg_info
  fits1 = record { few = ok.few; low = ok.src1_low }

  fits2 : FitsSg (sg_task tcb.src2_page_base dpu_tcb.src2_page_idx tcb.page_blk_cnt).sg_info
  fits2 = record { few = ok.few; low = ok.src2_low }

  pub mapped_sources-src2 :
      (w : ℕ)
      → w < 2590720 * tcb.page_blk_cnt
      → at_word (mapped_sources xfer tcb dpu_tcb host mrams) dpu_tcb.src2_page_idx w
        ≡ src2 tcb host w
  unfolding mapped_sources
  mapped_sources-src2 w h =
      map_word xfer laws (sg_task tcb.src2_page_base dpu_tcb.src2_page_idx tcb.page_blk_cnt) fits2
        host _ w h

  pub mapped_sources-src1 :
      (w : ℕ)
      → w < 2590720 * tcb.page_blk_cnt
      → at_word (mapped_sources xfer tcb dpu_tcb host mrams) dpu_tcb.src1_page_idx w
        ≡ src1 tcb host w
  unfolding mapped_sources
  mapped_sources-src1 w h =
      map_rest xfer laws (sg_task tcb.src2_page_base dpu_tcb.src2_page_idx tcb.page_blk_cnt) fits2
        host _ (w / 1024 % 2530) _ (omega arith) (omega (arith, h, ok.sources_apart))
      ∙ map_word xfer laws (sg_task tcb.src1_page_base dpu_tcb.src1_page_idx tcb.page_blk_cnt) fits1
          host mrams w h
