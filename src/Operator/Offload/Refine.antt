-- ===== src/Operator/Offload/Refine.antt =====
-- Tasks on the DPUs against the operators' `execCPU`.
use meta_pb.Common.{ℕ, ◌+◌, ◌*◌, ◌/◌, ◌%◌, ◌^◌, ◌<◌, ◌≡◌, refl, ap, ap₂, ◌∙◌, List, arith, ◌-◌}
use meta_pb.Operator.Pages.{CpuTcb, DpuTcb}
use meta_pb.Operator.Memory.{Memory, word_index, IsSchedule}
use meta_pb.Operator.Memory.Writers.{IsFilled, IsFilled-cong, IsFilled-unique}
use meta_pb.Operator.Kernels.{affine_cpu, elew_add_cpu, elew_prod_cpu, conv_1d_cpu, gaussian_kernel}
use meta_pb.Operator.Kernels.Items.{sum_range, sum_range_ext, padded}
use meta_pb.Operator.Kernels.Host.{HasBuffers, src1, src2, host_elementwise}
use meta_pb.Operator.Kernels.Host.Windows.{host_conv}
use meta_pb.Operator.Dpu.{DpuKernel, affine_dpu, elew_add_dpu, elew_prod_dpu, conv_1d_dpu}
use meta_pb.Operator.Dpu.Programs.{
  IsComplete, page_words, chunk_words, dpu_elementwise, dpu_windows,
}
use meta_pb.Operator.Transfer.{Mrams, SgXfer, SgLaws}
use meta_pb.Operator.Transfer.Blocks.{reduce-IsFilled}
use meta_pb.Operator.Offload.{Launch, sg_task, launch_all, mapped_sources, offload}
use meta_pb.Operator.Offload.Loaded.{IsOffload, mapped_sources-src1, mapped_sources-src2}

-- The DPU of word `w` of a buffer, and its place behind the first page there.
abbrev dpu_of : ℕ → ℕ
dpu_of w = w / 1024 % 2530

abbrev page_of : ℕ → ℕ
page_of w = 1024 * (w / 1024 / 2530) + w % 1024

padded_ext : (f g : ℕ → ℕ) → ((x : ℕ) → x < 256 → f x ≡ g x) → (y : ℕ) → padded f y ≡ padded g y
padded_ext f g h y = ground (arith, h (y - 3))

module _ (xfer : SgXfer) (laws : SgLaws xfer) (tcb : CpuTcb) (dpu_tcb : DpuTcb)
    (ok : IsOffload tcb dpu_tcb) (host : Memory) (mrams : Mrams) (launch : Launch)
    (complete : (d : ℕ) → d < 2530 → IsComplete dpu_tcb (launch.ids d)) where
  sources : Mrams
  sources = mapped_sources xfer tcb dpu_tcb host mrams

  -- The results of the DPUs, page by page, are those of the host's buffer.
  offload-IsFilled :
      (kernel : DpuKernel) (v : ℕ → ℕ → ℕ) (v' : ℕ → ℕ)
      → ((d : ℕ)
          → d < 2530
          → IsFilled
              (1024 * dpu_tcb.dst_page_idx)
              (1024 * dpu_tcb.page_cnt)
              (v d)
              (sources d)
              (launch_all kernel dpu_tcb launch sources d))
      → ((w : ℕ) → w < 2590720 * tcb.page_blk_cnt → v (dpu_of w) (page_of w) ≡ v' w)
      → IsFilled
          (word_index tcb.dst_page_base)
          (2590720 * tcb.page_blk_cnt)
          v'
          host
          (offload xfer tcb dpu_tcb host mrams kernel launch)
  unfolding offload sources
  offload-IsFilled kernel v v' filled same =
      IsFilled-cong _ _ v' host _ refl
        (λ w h.
          (filled (w / 1024 % 2530) (omega arith)).inside (1024 * (w / 1024 / 2530) + w % 1024)
            (omega (arith, h, ok.same_size))
          ∙ same w h)
        (reduce-IsFilled xfer laws (sg_task tcb.dst_page_base dpu_tcb.dst_page_idx tcb.page_blk_cnt)
          (record { few = ok.few; low = ok.dst_low }) (launch_all kernel dpu_tcb launch sources)
          host)

  elementwise_same :
      (item : ℕ → ℕ → ℕ) (w : ℕ)
      → w < 2590720 * tcb.page_blk_cnt
      → item
          (page_words (sources (dpu_of w)) dpu_tcb.src1_page_idx (page_of w))
          (page_words (sources (dpu_of w)) dpu_tcb.src2_page_idx (page_of w))
        ≡ item (src1 tcb host w) (src2 tcb host w)
  unfolding sources
  elementwise_same item w h =
      ap₂ item (mapped_sources-src1 xfer laws tcb dpu_tcb ok host mrams w h)
        (mapped_sources-src2 xfer laws tcb dpu_tcb ok host mrams w h)

  conv_value : (ℕ → ℕ) → ℕ → ℕ
  conv_value chunk r = sum_range 8 0 (λ j. padded chunk (r + j) * gaussian_kernel j) % 2 ^ 32

  conv_same :
      (w : ℕ)
      → w < 2590720 * tcb.page_blk_cnt
      → conv_value
          (chunk_words (sources (dpu_of w)) dpu_tcb.src1_page_idx (page_of w))
          (page_of w % 256)
        ≡ conv_value (λ x. src1 tcb host (256 * (w / 256) + x)) (w % 256)
  unfolding conv_value
  conv_same w h =
      ap (λ r. conv_value (chunk_words (sources (dpu_of w)) dpu_tcb.src1_page_idx (page_of w)) r)
        item_no
      ∙ ap (λ s. s % 2 ^ 32)
          (sum_range_ext 8 0 _ (λ j. padded host_chunk (w % 256 + j) * gaussian_kernel j)
            (λ j p q.
              ap (λ v. v * gaussian_kernel j) (padded_ext _ host_chunk chunk_same (w % 256 + j))))
    where
      item_no : page_of w % 256 ≡ w % 256
      item_no = omega arith

      host_chunk : ℕ → ℕ
      host_chunk x = src1 tcb host (256 * (w / 256) + x)

      chunk_same :
          (x : ℕ)
          → x < 256
          → chunk_words (sources (dpu_of w)) dpu_tcb.src1_page_idx (page_of w) x ≡ host_chunk x
      chunk_same x p =
          let dpu : dpu_of w ≡ dpu_of (256 * (w / 256) + x) = omega (arith, p) in
          let place : 1024 * dpu_tcb.src1_page_idx + (256 * (page_of w / 256) + x)
              ≡ 1024 * dpu_tcb.src1_page_idx + page_of (256 * (w / 256) + x) =
            omega (arith, p) in
          ap₂ sources dpu place
          ∙ unfold sources in
            mapped_sources-src1 xfer laws tcb dpu_tcb ok host mrams (256 * (w / 256) + x)
              (omega (arith, p, h))

  dpu_results :
      (d : ℕ)
      → d < 2530
      → IsFilled
          (1024 * dpu_tcb.dst_page_idx)
          (1024 * dpu_tcb.page_cnt)
          (λ i.
            (2 * page_words (sources d) dpu_tcb.src1_page_idx i
              + page_words (sources d) dpu_tcb.src2_page_idx i)
            % 2 ^ 32)
          (sources d)
          (launch_all affine_dpu dpu_tcb launch sources d)
        × IsFilled
            (1024 * dpu_tcb.dst_page_idx)
            (1024 * dpu_tcb.page_cnt)
            (λ i.
              (page_words (sources d) dpu_tcb.src1_page_idx i
                + page_words (sources d) dpu_tcb.src2_page_idx i)
              % 2 ^ 32)
            (sources d)
            (launch_all elew_add_dpu dpu_tcb launch sources d)
        × IsFilled
            (1024 * dpu_tcb.dst_page_idx)
            (1024 * dpu_tcb.page_cnt)
            (λ i.
              (page_words (sources d) dpu_tcb.src1_page_idx i
                * page_words (sources d) dpu_tcb.src2_page_idx i)
              % 2 ^ 32)
            (sources d)
            (launch_all elew_prod_dpu dpu_tcb launch sources d)
  unfolding launch_all
  dpu_results d p =
      dpu_elementwise dpu_tcb (sources d) (launch.ids d) (launch.caches d) ok.pages (complete d p)

  conv_results :
      (d : ℕ)
      → d < 2530
      → IsFilled
          (1024 * dpu_tcb.dst_page_idx)
          (1024 * dpu_tcb.page_cnt)
          (λ i. conv_value (chunk_words (sources d) dpu_tcb.src1_page_idx i) (i % 256))
          (sources d)
          (launch_all conv_1d_dpu dpu_tcb launch sources d)
  unfolding launch_all conv_value
  conv_results d p =
      (dpu_windows dpu_tcb (sources d) (launch.ids d) (launch.caches d) ok.pages (complete d p)).0

  module _ (schedule : ℕ → List ℕ) (order : IsSchedule schedule)
      (buffers : HasBuffers tcb (2590720 * tcb.page_blk_cnt)) (a : ℕ) where
    same_as_host :
        (v : ℕ → ℕ) (m m' : Memory)
        → IsFilled (word_index tcb.dst_page_base) (2590720 * tcb.page_blk_cnt) v host m
        → IsFilled (word_index tcb.dst_page_base) (2590720 * tcb.page_blk_cnt) v host m'
        → m a ≡ m' a
    same_as_host v m m' f g =
        IsFilled-unique (word_index tcb.dst_page_base) (2590720 * tcb.page_blk_cnt) v host m m' f g
          a

    refines_elementwise :
        (offload xfer tcb dpu_tcb host mrams affine_dpu launch a ≡ affine_cpu tcb schedule host a)
        × (offload xfer tcb dpu_tcb host mrams elew_add_dpu launch a
            ≡ elew_add_cpu tcb schedule host a)
        × (offload xfer tcb dpu_tcb host mrams elew_prod_dpu launch a
            ≡ elew_prod_cpu tcb schedule host a)
    refines_elementwise =
        let on_host = host_elementwise schedule tcb host order ok.few buffers in
        (
          same_as_host _ _ _
              (offload-IsFilled affine_dpu _ _ (λ d p. (dpu_results d p).0)
                (elementwise_same (λ x y. (2 * x + y) % 2 ^ 32)))
              on_host.0,
          same_as_host _ _ _
              (offload-IsFilled elew_add_dpu _ _ (λ d p. (dpu_results d p).1)
                (elementwise_same (λ x y. (x + y) % 2 ^ 32)))
              on_host.1,
          same_as_host _ _ _
              (offload-IsFilled elew_prod_dpu _ _ (λ d p. (dpu_results d p).2)
                (elementwise_same (λ x y. (x * y) % 2 ^ 32)))
              on_host.2,
        )

    refines_conv :
        offload xfer tcb dpu_tcb host mrams conv_1d_dpu launch a ≡ conv_1d_cpu tcb schedule host a
    unfolding conv_value
    refines_conv =
        same_as_host _ _ _ (offload-IsFilled conv_1d_dpu _ _ conv_results conv_same)
          (host_conv schedule tcb host order ok.few buffers.src1_apart)

-- Running AFFINE, ELEW_ADD, ELEW_PROD or CONV_1D on the DPUs refines running it on the host: for up to
-- 414 page blocks, with the destination apart from the sources in both memories, MAP of the sources,
-- the program on every DPU under any interleavings with enough steps and REDUCE of the result leave
-- every word of the host's memory as `execCPU` does, under any order of its iterations.
pub offload_refines :
    (xfer : SgXfer) (tcb : CpuTcb) (dpu_tcb : DpuTcb) (host : Memory) (mrams : Mrams)
    (launch : Launch) (schedule : ℕ → List ℕ)
    → SgLaws xfer
    → IsOffload tcb dpu_tcb
    → ((d : ℕ) → d < 2530 → IsComplete dpu_tcb (launch.ids d))
    → IsSchedule schedule
    → HasBuffers tcb (2590720 * tcb.page_blk_cnt)
    → (a : ℕ)
    → (offload xfer tcb dpu_tcb host mrams affine_dpu launch a ≡ affine_cpu tcb schedule host a)
      × (offload xfer tcb dpu_tcb host mrams elew_add_dpu launch a
          ≡ elew_add_cpu tcb schedule host a)
      × (offload xfer tcb dpu_tcb host mrams elew_prod_dpu launch a
          ≡ elew_prod_cpu tcb schedule host a)
      × (offload xfer tcb dpu_tcb host mrams conv_1d_dpu launch a ≡ conv_1d_cpu tcb schedule host a)
offload_refines xfer tcb dpu_tcb host mrams launch schedule laws ok complete order buffers a =
    let first =
      refines_elementwise xfer laws tcb dpu_tcb ok host mrams launch complete schedule order buffers
        a in
    (
      first.0,
      first.1,
      first.2,
      refines_conv xfer laws tcb dpu_tcb ok host mrams launch complete schedule order buffers a,
    )
