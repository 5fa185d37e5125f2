-- ===== src/Operator/Transfer/Blocks.antt =====
-- The blocks that `get_block` gives to a transfer, and where MAP and REDUCE move them.
use meta_pb.Common.{ℕ, ◌+◌, ◌*◌, ◌/◌, ◌%◌, ◌≤◌, ◌<◌, ◌≡◌, sym, ap, ap₂, ◌∙◌, arith}
use meta_pb.Operator.Pages.{u32, page_size_byte, dpu_num, SgXferContext, CpuTcb, get_block}
use meta_pb.Operator.Pages.Cover.{get_block_page}
use meta_pb.Operator.Memory.{Memory, word_index}
use meta_pb.Operator.Memory.Writers.{Off, IsFilled}
use meta_pb.Operator.Transfer.{Mrams, IsPaged, Separate, SgXfer, SgLaws, map_cpu, reduce_cpu}

-- Block `b` of DPU `d` is the page `b * 2530 + d`.
abbrev pub page_address : SgXferContext → ℕ → ℕ → ℕ
page_address sg d b = sg.cpu_page_blk_base_addr + 4096 * (b * 2530 + d)

pub get_block-IsPaged :
    (sg : SgXferContext)
    → sg.page_blk_cnt ≤ 414
    → IsPaged
        (get_block sg)
        (u32 (sg.page_blk_cnt * page_size_byte))
        sg.page_blk_cnt
        (page_address sg)
get_block-IsPaged sg h = record {
  whole = omega (arith, h);
  block = λ d b p q.
      let page : (b * 2530 + d) % 2530 ≡ d = omega (arith, p) in
      let round : (b * 2530 + d) / 2530 ≡ b = omega (arith, p) in
      sym (ap₂ (get_block sg) page round)
      ∙ (get_block_page sg (b * 2530 + d) d h).0 (omega (arith, p, q));
  stop = λ d p. (get_block_page sg 0 d h).1;
}

pub page_address-Separate : (sg : SgXferContext) → Separate sg.page_blk_cnt (page_address sg)
page_address-Separate sg d b d' b' i p q p' q' ne h = omega (arith, p, p', ne, h)

-- The transfer's pages lie in the DPUs' memory, so that its offset does not wrap.
pub record FitsSg (sg : SgXferContext) : Type 0 where
  pub few : sg.page_blk_cnt ≤ 414
  pub low : sg.dpu_page_base_idx ≤ 15360

module _ (xfer : SgXfer) (laws : SgLaws xfer) (tcb : CpuTcb) (fits : FitsSg tcb.sg_info) where
  offset_words :
      word_index (u32 (tcb.sg_info.dpu_page_base_idx * page_size_byte))
      ≡ 1024 * tcb.sg_info.dpu_page_base_idx
  offset_words = omega (arith, fits.low)

  page_words_at :
      (d b : ℕ)
      → word_index (page_address tcb.sg_info d b)
        ≡ word_index tcb.sg_info.cpu_page_blk_base_addr + 1024 * (b * 2530 + d)
  page_words_at d b = omega arith

  pub map_page :
      (host : Memory) (mrams : Mrams) (d b i : ℕ)
      → d < dpu_num
      → b < tcb.sg_info.page_blk_cnt
      → i < 1024
      → map_cpu xfer tcb host mrams d (1024 * tcb.sg_info.dpu_page_base_idx + 1024 * b + i)
        ≡ host (word_index tcb.sg_info.cpu_page_blk_base_addr + 1024 * (b * 2530 + d) + i)
  unfolding map_cpu
  map_page host mrams d b i p q h =
      ap (map_cpu xfer tcb host mrams d) (ap (λ o. o + 1024 * b + i) (sym offset_words))
      ∙ laws.to_page (get_block tcb.sg_info) _ _ tcb.sg_info.page_blk_cnt (page_address tcb.sg_info)
          host mrams (get_block-IsPaged tcb.sg_info fits.few) d b i p q h
      ∙ ap (λ o. host (o + i)) (page_words_at d b)

  -- Where word `w` of the buffer goes.
  pub map_word :
      (host : Memory) (mrams : Mrams) (w : ℕ)
      → w < 2590720 * tcb.sg_info.page_blk_cnt
      → map_cpu xfer tcb host mrams
          (w / 1024 % 2530)
          (1024 * tcb.sg_info.dpu_page_base_idx + (1024 * (w / 1024 / 2530) + w % 1024))
        ≡ host (word_index tcb.sg_info.cpu_page_blk_base_addr + w)
  map_word host mrams w h =
      let place : 1024 * tcb.sg_info.dpu_page_base_idx + (1024 * (w / 1024 / 2530) + w % 1024)
          ≡ 1024 * tcb.sg_info.dpu_page_base_idx + 1024 * (w / 1024 / 2530) + w % 1024 =
        omega arith in
      ap (map_cpu xfer tcb host mrams (w / 1024 % 2530)) place
      ∙ map_page host mrams (w / 1024 % 2530) (w / 1024 / 2530) (w % 1024) (omega arith)
          (omega (arith, h)) (omega arith)
      ∙ ap host (omega arith)

  pub map_rest :
      (host : Memory) (mrams : Mrams) (d a : ℕ)
      → d < dpu_num
      → Off (1024 * tcb.sg_info.dpu_page_base_idx) (1024 * tcb.sg_info.page_blk_cnt) a
      → map_cpu xfer tcb host mrams d a ≡ mrams d a
  unfolding map_cpu
  map_rest host mrams d a p off =
      laws.to_rest (get_block tcb.sg_info) _ _ tcb.sg_info.page_blk_cnt (page_address tcb.sg_info)
        host mrams (get_block-IsPaged tcb.sg_info fits.few) d a p (rw offset_words off)

  -- The word of the DPUs' memories that word `w` of the host's buffer comes from.
  abbrev pub mram_word : Mrams → ℕ → ℕ
  mram_word mrams w =
      mrams (w / 1024 % 2530)
        (1024 * tcb.sg_info.dpu_page_base_idx + (1024 * (w / 1024 / 2530) + w % 1024))

  pub reduce-IsFilled :
      (mrams : Mrams) (host : Memory)
      → IsFilled
          (word_index tcb.sg_info.cpu_page_blk_base_addr)
          (2590720 * tcb.sg_info.page_blk_cnt)
          (mram_word mrams)
          host
          (reduce_cpu xfer tcb mrams host)
  unfolding reduce_cpu
  reduce-IsFilled mrams host = record {
    inside = λ w h.
        let place : base + w ≡ base + 1024 * (w / 1024 / 2530 * 2530 + w / 1024 % 2530) + w % 1024 =
          omega arith in
        ap (reduce_cpu xfer tcb mrams host)
          (place ∙ ap (λ o. o + w % 1024) (sym (page_words_at (w / 1024 % 2530) (w / 1024 / 2530))))
        ∙ laws.from_page (get_block tcb.sg_info) _ _ tcb.sg_info.page_blk_cnt
            (page_address tcb.sg_info) mrams host (get_block-IsPaged tcb.sg_info fits.few)
            (page_address-Separate tcb.sg_info) (w / 1024 % 2530) (w / 1024 / 2530) (w % 1024)
            (omega arith) (omega (arith, h)) (omega arith)
        ∙ ap (λ o. mrams (w / 1024 % 2530) (o + 1024 * (w / 1024 / 2530) + w % 1024)) offset_words
        ∙ ap (mrams (w / 1024 % 2530)) (omega arith);
    outside = λ a off.
        laws.from_rest (get_block tcb.sg_info) _ _ tcb.sg_info.page_blk_cnt
          (page_address tcb.sg_info) mrams host (get_block-IsPaged tcb.sg_info fits.few)
          (page_address-Separate tcb.sg_info) a (λ d b p q. omega (arith, off, p, q));
  }
    where
      base : ℕ
      base = word_index tcb.sg_info.cpu_page_blk_base_addr
