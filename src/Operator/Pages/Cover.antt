-- ===== src/Operator/Pages/Cover.antt =====
-- Sizes in page blocks, and the pages of a scatter-gather transfer.
use meta_pb.Common.{ℕ, ◌+◌, ◌*◌, ◌/◌, ◌%◌, ◌^◌, ◌≤◌, ◌<◌, ◌≡◌, none, some, arith}
use meta_pb.Operator.Pages.{
  page_blk_size, page_size_byte, dpu_num, get_nearest_page_blk_cnt, get_block, SgXferContext,
}

-- For sizes up to 2 ^ 35 MiB: the page blocks hold the bytes, and one block fewer would not.
pub get_nearest_page_blk_cnt_covers :
    (size : ℕ)
    → size ≤ 2 ^ 35
    → (size * 2 ^ 20 ≤ get_nearest_page_blk_cnt size * page_blk_size)
      × (get_nearest_page_blk_cnt size * page_blk_size < size * 2 ^ 20 + page_blk_size)
unfolding get_nearest_page_blk_cnt
get_nearest_page_blk_cnt_covers size h = omega arith

-- Up to 414 page blocks (4 GiB), every page of the host's buffer is one DPU's block: page `n` is
-- block `n / 2530` of DPU `n % 2530`, and lies `n` pages behind the base. Past the last block the
-- transfer of each DPU ends.
pub get_block_page :
    (args : SgXferContext) (n dpu : ℕ)
    → args.page_blk_cnt ≤ 414
    → (n < args.page_blk_cnt * dpu_num
        → get_block args (n % dpu_num) (n / dpu_num)
          ≡ some (args.cpu_page_blk_base_addr + page_size_byte * n, page_size_byte))
      × (get_block args dpu args.page_blk_cnt ≡ none)
unfolding get_block
get_block_page args n dpu h = ground arith

-- From 415 page blocks on the offset wraps: the pages `n` and `n + 2 ^ 20` of the DPUs go to, or
-- come from, one address of the host.
pub get_block_aliases :
    (args : SgXferContext) (n : ℕ)
    → n + 2 ^ 20 < args.page_blk_cnt * dpu_num
    → args.page_blk_cnt < 2 ^ 20
    → get_block args (n % dpu_num) (n / dpu_num)
      ≡ get_block args ((n + 2 ^ 20) % dpu_num) ((n + 2 ^ 20) / dpu_num)
unfolding get_block
get_block_aliases args n h k = ground arith
