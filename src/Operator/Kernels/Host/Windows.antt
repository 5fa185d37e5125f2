-- ===== src/Operator/Kernels/Host/Windows.antt =====
-- `execCPU` of the operators that give every item from a window of the source: CONV_1D and FILTER.
use meta_pb.Common.{ℕ, ◌+◌, ◌*◌, ◌/◌, ◌%◌, ◌^◌, ◌≤◌, ◌<◌, ◌≡◌, sym, ap, ◌∙◌, List, arith}
use meta_pb.Operator.Pages.{CpuTcb}
use meta_pb.Operator.Memory.{Memory, div_int, word_index, IsSchedule}
use meta_pb.Operator.Memory.Writers.{IsFilled-cong, IsFilled}
use meta_pb.Operator.Kernels.{
  item_num, gaussian_kernel, conv_item, conv_chunk, conv_1d_cpu, filter_item, filter_chunk,
  filter_cpu,
}
use meta_pb.Operator.Kernels.Items.{
  item_num_small, chunk_num_small, conv_item_ext, conv_item-sum_range, sum_range, sum_range_ext,
  padded, window_item, window_item_ext, filter_item-window_item,
}
use meta_pb.Operator.Kernels.Host.{Disjoint, src1, chunk, chunks-IsFilled}

-- CONV_1D on the host, for up to 414 page blocks whose destination shares no word with the source
-- and for every order of the iterations: item `i` of the destination becomes, modulo 2 ^ 32, the sum
-- of the eight items from the third before it on, times 8, 1, 1, 3, 3, 1, 1, 8, where items outside
-- the 256 of its chunk count as zero; no other word changes.
pub host_conv :
    (schedule : ℕ → List ℕ) (tcb : CpuTcb) (m : Memory)
    → IsSchedule schedule
    → tcb.page_blk_cnt ≤ 414
    → Disjoint
        (word_index tcb.src1_page_base)
        (2590720 * tcb.page_blk_cnt)
        (word_index tcb.dst_page_base)
        (2590720 * tcb.page_blk_cnt)
    → IsFilled
        (word_index tcb.dst_page_base)
        (2590720 * tcb.page_blk_cnt)
        (λ i.
          sum_range 8 0
            (λ j. padded (λ x. src1 tcb m (256 * (i / 256) + x)) (i % 256 + j) * gaussian_kernel j)
          % 2 ^ 32)
        m
        (conv_1d_cpu tcb schedule m)
unfolding conv_1d_cpu conv_chunk chunk
host_conv schedule tcb m ok h apart = rw (chunk_num_small tcb.page_blk_cnt h) (
    IsFilled-cong _ _ _ m _ (omega arith) (λ i p. conv_item-sum_range _ (i % 256))
      (chunks-IsFilled schedule ok tcb m conv_item (10120 * tcb.page_blk_cnt) 0
        (λ f g i p same. conv_item_ext f g (λ x q. same x (omega (arith, q))) i)
        (omega (arith, apart))))

-- FILTER on the host, for 1 to 414 page blocks whose destination shares no word with the source and
-- the seven words behind it, and for every order of the iterations: item `i` of the destination
-- becomes an eighth of the sum of the eighths of the words `i` to `i + 7` of the source, modulo
-- 2 ^ 32, across the chunks and, for the last seven items, behind the end of the source.
pub host_filter :
    (schedule : ℕ → List ℕ) (tcb : CpuTcb) (m : Memory)
    → IsSchedule schedule
    → 0 < tcb.page_blk_cnt
    → tcb.page_blk_cnt ≤ 414
    → Disjoint
        (word_index tcb.src1_page_base)
        (2590720 * tcb.page_blk_cnt + 7)
        (word_index tcb.dst_page_base)
        (2590720 * tcb.page_blk_cnt)
    → IsFilled
        (word_index tcb.dst_page_base)
        (2590720 * tcb.page_blk_cnt)
        (window_item (src1 tcb m))
        m
        (filter_cpu tcb schedule m)
unfolding filter_cpu filter_chunk chunk
host_filter schedule tcb m ok pos h apart = rw (chunk_num_small tcb.page_blk_cnt h) (
    IsFilled-cong _ _ _ m _ (omega arith) same (
      chunks-IsFilled schedule ok tcb m (filter_item bound) (10120 * tcb.page_blk_cnt) 7 ext
        (omega (arith, apart))))
  where
    bound : ℕ
    bound = item_num tcb.page_blk_cnt

    open_window : (f : ℕ → ℕ) (i : ℕ) → i < 256 → filter_item bound f i ≡ window_item f i
    open_window f i p =
        filter_item-window_item _ f i (omega (arith, p, pos, item_num_small tcb.page_blk_cnt h))

    ext :
        (f g : ℕ → ℕ) (i : ℕ)
        → i < 256
        → ((x : ℕ) → x < 256 + 7 → f x ≡ g x)
        → filter_item bound f i ≡ filter_item bound g i
    ext f g i p q =
        open_window f i p
        ∙ window_item_ext f g i (λ j r. q (i + j) (omega (arith, p, r)))
        ∙ sym (open_window g i p)

    chunk_of : ℕ → ℕ → ℕ
    chunk_of i x = src1 tcb m (256 * (i / 256) + x)

    same :
        (i : ℕ)
        → i < 256 * (10120 * tcb.page_blk_cnt)
        → filter_item bound (chunk_of i) (i % 256) ≡ window_item (src1 tcb m) i
    same i p =
        open_window (chunk_of i) (i % 256) (omega arith)
        ∙ ap (λ s. div_int (s % 2 ^ 32) 8)
            (sum_range_ext 8 0 (λ j. div_int (chunk_of i (i % 256 + j)) 8)
              (λ j. div_int (src1 tcb m (i + j)) 8)
              (λ j q r. ap (λ x. div_int (m x) 8) (omega arith)))
