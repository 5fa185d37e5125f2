-- ===== src/Operator/Dpu/Folds.antt =====
-- The DPU programs that give one item for each chunk, for every interleaving of their tasklets.
use meta_pb.Common.{
  ℕ, ◌+◌, ◌*◌, ◌%◌, ◌^◌, ◌<◌, ◌≡◌, refl, ap, ap₂, ◌∙◌, List, arith, if◌then◌else◌, ◌==◌, if_true,
  ==_iff,
}
use meta_pb.Operator.Pages.{DpuTcb}
use meta_pb.Operator.Memory.{Memory, add32, mul32, counted}
use meta_pb.Operator.Memory.Writers.{Off}
use meta_pb.Operator.Kernels.Items.{sum_range, sum_range_ext, counted_zero-sum_range}
use meta_pb.Operator.Dpu.{
  DpuCache, dpu_start, run_tasklets, mac_dpu, lookup_dpu, mac_round, lookup_round,
}
use meta_pb.Operator.Dpu.Inv.{HasPages, IsKernel}
use meta_pb.Operator.Dpu.Run.{run_items, run_outside}
use meta_pb.Operator.Dpu.Programs.{page_words, IsComplete, read_word}

mac_round-add :
    (a b : DpuCache) (j s : ℕ) → s < 2 ^ 32 → mac_round a b j s ≡ (s + a j * b j) % 2 ^ 32
unfolding mac_round add32 mul32
mac_round-add a b j s low = omega arith

lookup_round-add :
    (a : DpuCache) (j s : ℕ)
    → s < 2 ^ 32
    → lookup_round a j s ≡ (s + (if a j == 2 then 1 else 0)) % 2 ^ 32
unfolding lookup_round add32
lookup_round-add a j s low = ground (arith, low)

mac-IsKernel : IsKernel mac_dpu (λ a b i. sum_range 256 0 (λ j. a j * b j) % 2 ^ 32) (λ i. i ≡ 0)
unfolding mac_dpu
mac-IsKernel a b c i h s =
    if_true (i == 0) (counted 256 0 (mac_round a b) 0) (c i) ((==_iff i 0).1 s)
    ∙ counted_zero-sum_range (λ j. a j * b j) (mac_round a b) (mac_round-add a b) 256

lookup-IsKernel :
    IsKernel lookup_dpu
      (λ a b i. sum_range 256 0 (λ j. if a j == 2 then 1 else 0) % 2 ^ 32)
      (λ i. i ≡ 0)
unfolding lookup_dpu
lookup-IsKernel a b c i h s =
    if_true (i == 0) (counted 256 0 (lookup_round a) 0) (c i) ((==_iff i 0).1 s)
    ∙ counted_zero-sum_range (λ j. if a j == 2 then 1 else 0) (lookup_round a) (lookup_round-add a)
        256

-- MAC and LOOKUP on a DPU, for every interleaving of the tasklets with enough steps: the first item
-- of each chunk of 256 of the destination's pages becomes, modulo 2 ^ 32, the sum of
-- `src1[i] * src2[i]` over the chunk and the number of its items that are 2, as on the host; outside
-- the destination's pages no word changes.
pub dpu_folds :
    (tcb : DpuTcb) (m : Memory) (ids : List ℕ) (caches : ℕ → DpuCache)
    → HasPages tcb
    → IsComplete tcb ids
    → ((j : ℕ)
        → j < 4 * tcb.page_cnt
        → ((run_tasklets mac_dpu tcb ids (dpu_start m caches)).mram
              (1024 * tcb.dst_page_idx + 256 * j)
            ≡ sum_range 256 0 (λ i.
              page_words m tcb.src1_page_idx (256 * j + i)
              * page_words m tcb.src2_page_idx (256 * j + i))
              % 2 ^ 32)
          × ((run_tasklets lookup_dpu tcb ids (dpu_start m caches)).mram
                (1024 * tcb.dst_page_idx + 256 * j)
              ≡ sum_range 256 0
                  (λ i. if page_words m tcb.src1_page_idx (256 * j + i) == 2 then 1 else 0)
                % 2 ^ 32))
      × ((a : ℕ)
          → Off (1024 * tcb.dst_page_idx) (1024 * tcb.page_cnt) a
          → ((run_tasklets mac_dpu tcb ids (dpu_start m caches)).mram a ≡ m a)
            × ((run_tasklets lookup_dpu tcb ids (dpu_start m caches)).mram a ≡ m a))
dpu_folds tcb m ids caches pages complete = (
  (λ j h. (
    ap (run_tasklets mac_dpu tcb ids (dpu_start m caches)).mram (first j)
        ∙ run_items mac_dpu mac_spec (λ i. i ≡ 0) mac-IsKernel tcb pages m ids caches complete.0
            complete.1 j 0 h (omega arith) refl
        ∙ ap (λ s. s % 2 ^ 32)
            (sum_range_ext 256 0 _
              (λ i.
                page_words m tcb.src1_page_idx (256 * j + i)
                * page_words m tcb.src2_page_idx (256 * j + i))
              (λ i p q.
                ap₂ ◌*◌ (read_word m tcb.src1_page_idx j i q)
                  (read_word m tcb.src2_page_idx j i q))),
    ap (run_tasklets lookup_dpu tcb ids (dpu_start m caches)).mram (first j)
        ∙ run_items lookup_dpu lookup_spec (λ i. i ≡ 0) lookup-IsKernel tcb pages m ids caches
            complete.0 complete.1 j 0 h (omega arith) refl
        ∙ ap (λ s. s % 2 ^ 32)
            (sum_range_ext 256 0 _
              (λ i. if page_words m tcb.src1_page_idx (256 * j + i) == 2 then 1 else 0)
              (λ i p q. ap (λ v. if v == 2 then 1 else 0) (read_word m tcb.src1_page_idx j i q))),
  )),
  (λ a h. (
    run_outside mac_dpu mac_spec (λ i. i ≡ 0) mac-IsKernel tcb pages m ids caches complete.0
        complete.1 a h,
    run_outside lookup_dpu lookup_spec (λ i. i ≡ 0) lookup-IsKernel tcb pages m ids caches
        complete.0 complete.1 a h,
  )),
)
  where
    mac_spec : DpuCache → DpuCache → ℕ → ℕ
    mac_spec a b i = sum_range 256 0 (λ j. a j * b j) % 2 ^ 32

    lookup_spec : DpuCache → DpuCache → ℕ → ℕ
    lookup_spec a b i = sum_range 256 0 (λ j. if a j == 2 then 1 else 0) % 2 ^ 32

    first : (j : ℕ) → 1024 * tcb.dst_page_idx + 256 * j ≡ 1024 * tcb.dst_page_idx + 256 * j + 0
    first j = omega arith
