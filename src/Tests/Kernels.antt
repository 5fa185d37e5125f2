-- ===== src/Tests/Kernels.antt =====
-- The operators' kernels at one page block on the host and one page on a DPU, and tasks on the DPUs.
use meta_pb.Common.{ℕ, ◌+◌, ◌*◌, ◌/◌, ◌%◌, ◌^◌, ◌<◌, ◌≡◌, refl, arith, if◌then◌else◌, ◌==◌}
use meta_pb.Operator.Pages.{CpuTcb, DpuTcb}
use meta_pb.Operator.Memory.{Memory, sub32, div_int}
use meta_pb.Operator.Memory.Writers.{IsFilled, Off}
use meta_pb.Operator.Kernels.{
  affine_cpu, elew_add_cpu, elew_prod_cpu, conv_1d_cpu, filter_cpu, eudist_cpu, mac_cpu, lookup_cpu,
  gaussian_kernel,
}
use meta_pb.Operator.Kernels.Items.{sum_range, padded, window_item, cut}
use meta_pb.Operator.Kernels.Host.{HasBuffers, src1, src2, host_elementwise}
use meta_pb.Operator.Kernels.Host.Windows.{host_conv, host_filter}
use meta_pb.Operator.Kernels.Fold.Loop.{IsFolded}
use meta_pb.Operator.Kernels.Fold.{host_folds}
use meta_pb.Operator.Dpu.{
  DpuCache, dpu_start, run_tasklets, affine_dpu, elew_add_dpu, elew_prod_dpu, conv_1d_dpu,
  filter_dpu, mac_dpu, lookup_dpu,
}
use meta_pb.Operator.Dpu.Inv.{HasPages}
use meta_pb.Operator.Dpu.Programs.{page_words, chunk_words, dpu_elementwise, dpu_windows}
use meta_pb.Operator.Dpu.Folds.{dpu_folds}
use meta_pb.Operator.Transfer.{Mrams, map_cpu, reduce_cpu}
use meta_pb.Operator.Transfer.Copy.{reduce_cpu-map_cpu}
use meta_pb.Operator.Offload.{Launch, sg_task, launch_all}
use meta_pb.Operator.Offload.Loaded.{IsOffload}
use meta_pb.Operator.Manager.Exec.{Memories, op_exec_cpu}
use meta_pb.Operator.Manager.Exec.Refine.{offloaded, offloaded-refines}
use meta_pb.Operator.Registry.{conv_1d}
use meta_pb.Executor.Parse.{mem_plan}
use meta_pb.Executor.Parse.Reduced.{mem_plan-reduce_cpu}
use meta_pb.Tests.Schedules.{countdown, countdown-IsSchedule, two_rounds, two_rounds-IsComplete}
use meta_pb.Tests.Transfer.{word_copy, word_copy-SgLaws}

abbrev host : Memory
host a = (7 * a) % 2 ^ 32

-- Three buffers of a page block, with a page between them.
abbrev buffers : CpuTcb
buffers = record {
  src1_page_base = 0;
  src2_page_base = 10366976;
  dst_page_base = 20733952;
  page_blk_cnt = 1;
  sg_info = record { cpu_page_blk_base_addr = 0; dpu_page_base_idx = 0; page_blk_cnt = 0 };
}

buffers-HasBuffers : HasBuffers buffers (2590720 * 1)
buffers-HasBuffers = record { src1_apart = omega arith; src2_apart = omega arith }

host_elementwise_example :
    IsFilled 5183488
      (2590720 * 1)
      (λ i. (2 * src1 buffers host i + src2 buffers host i) % 2 ^ 32)
      host
      (affine_cpu buffers countdown host)
    × IsFilled 5183488
        (2590720 * 1)
        (λ i. (src1 buffers host i + src2 buffers host i) % 2 ^ 32)
        host
        (elew_add_cpu buffers countdown host)
    × IsFilled 5183488
        (2590720 * 1)
        (λ i. (src1 buffers host i * src2 buffers host i) % 2 ^ 32)
        host
        (elew_prod_cpu buffers countdown host)
host_elementwise_example =
    host_elementwise countdown buffers host countdown-IsSchedule (omega arith) buffers-HasBuffers

host_conv_example :
    IsFilled 5183488
      (2590720 * 1)
      (λ i.
        sum_range 8 0 (λ j.
          padded (λ x. src1 buffers host (256 * (i / 256) + x)) (i % 256 + j) * gaussian_kernel j)
        % 2 ^ 32)
      host
      (conv_1d_cpu buffers countdown host)
host_conv_example =
    host_conv countdown buffers host countdown-IsSchedule (omega arith) (omega arith)

host_filter_example :
    IsFilled 5183488
      (2590720 * 1)
      (window_item (src1 buffers host))
      host
      (filter_cpu buffers countdown host)
host_filter_example =
    host_filter countdown buffers host countdown-IsSchedule (omega arith) (omega arith)
      (omega arith)

host_folds_example :
    IsFolded 5183488
      (10120 * 1)
      (λ k.
        sum_range 256 0 (λ i.
          sub32 (src2 buffers host (256 * k + i)) (src1 buffers host (256 * k + i))
          * sub32 (src2 buffers host (256 * k + i)) (src1 buffers host (256 * k + i)))
        % 2 ^ 32)
      host
      (eudist_cpu buffers countdown host)
    × IsFolded 5183488
        (10120 * 1)
        (λ k.
          sum_range 256 0 (λ i. src1 buffers host (256 * k + i) * src2 buffers host (256 * k + i))
          % 2 ^ 32)
        host
        (mac_cpu buffers countdown host)
    × IsFolded 5183488
        (10120 * 1)
        (λ k. sum_range 256 0 (λ i. if src1 buffers host (256 * k + i) == 2 then 1 else 0) % 2 ^ 32)
        host
        (lookup_cpu buffers countdown host)
host_folds_example =
    host_folds countdown buffers host countdown-IsSchedule (omega arith) buffers-HasBuffers

-- A page of each buffer.
abbrev pages : DpuTcb
pages = record { src1_page_idx = 0; src2_page_idx = 1; dst_page_idx = 2; page_cnt = 1 }

pages-HasPages : HasPages pages
pages-HasPages = record { few = omega arith; src1_apart = omega arith; src2_apart = omega arith }

abbrev stale : ℕ → DpuCache
stale id i = 1000 + id

abbrev final : (DpuCache → DpuCache → DpuCache → DpuCache) → Memory
final kernel = (run_tasklets kernel pages two_rounds (dpu_start host stale)).mram

dpu_elementwise_example :
    IsFilled 2048
      (1024 * 1)
      (λ i. (2 * page_words host 0 i + page_words host 1 i) % 2 ^ 32)
      host
      (final affine_dpu)
    × IsFilled 2048
        (1024 * 1)
        (λ i. (page_words host 0 i + page_words host 1 i) % 2 ^ 32)
        host
        (final elew_add_dpu)
    × IsFilled 2048
        (1024 * 1)
        (λ i. (page_words host 0 i * page_words host 1 i) % 2 ^ 32)
        host
        (final elew_prod_dpu)
dpu_elementwise_example =
    dpu_elementwise pages host two_rounds stale pages-HasPages (two_rounds-IsComplete pages refl)

dpu_windows_example :
    IsFilled 2048
      (1024 * 1)
      (λ i.
        sum_range 8 0 (λ j. padded (chunk_words host 0 i) (i % 256 + j) * gaussian_kernel j)
        % 2 ^ 32)
      host
      (final conv_1d_dpu)
    × IsFilled 2048
        (1024 * 1)
        (λ i.
          div_int (sum_range 8 0 (λ j. cut 256 (chunk_words host 0 i) (i % 256 + j)) % 2 ^ 32) 8)
        host
        (final filter_dpu)
dpu_windows_example =
    dpu_windows pages host two_rounds stale pages-HasPages (two_rounds-IsComplete pages refl)

dpu_folds_example :
    ((j : ℕ)
      → j < 4 * 1
      → (final mac_dpu (2048 + 256 * j)
          ≡ sum_range 256 0 (λ i. page_words host 0 (256 * j + i) * page_words host 1 (256 * j + i))
            % 2 ^ 32)
        × (final lookup_dpu (2048 + 256 * j)
            ≡ sum_range 256 0 (λ i. if page_words host 0 (256 * j + i) == 2 then 1 else 0)
              % 2 ^ 32))
    × ((a : ℕ) → Off 2048 (1024 * 1) a → (final mac_dpu a ≡ host a) × (final lookup_dpu a ≡ host a))
dpu_folds_example =
    dpu_folds pages host two_rounds stale pages-HasPages (two_rounds-IsComplete pages refl)

abbrev zeros : Mrams
zeros d a = 0

reduce_cpu-map_cpu_example :
    IsFilled 4096
      (2590720 * 1)
      (λ w. host (16 + w))
      (zeros 0)
      (reduce_cpu word_copy
        (sg_task 16384 3 1)
        (map_cpu word_copy (sg_task 64 3 1) host zeros)
        (zeros 0))
reduce_cpu-map_cpu_example =
    reduce_cpu-map_cpu word_copy (sg_task 64 3 1) (sg_task 16384 3 1) host (zeros 0) zeros
      word_copy-SgLaws (record { few = omega arith; low = omega arith }) refl refl

abbrev fair : Launch
fair = record { ids = λ d. two_rounds; caches = λ d. stale }

buffers-IsOffload : IsOffload buffers pages
buffers-IsOffload = record {
  same_size = refl;
  few = omega arith;
  src1_low = omega arith;
  src2_low = omega arith;
  dst_low = omega arith;
  sources_apart = omega arith;
  pages = pages-HasPages;
}

abbrev memories : Memories
memories = record { host = host; mrams = zeros }

offloaded-refines_example :
    ((a : ℕ)
      → (offloaded word_copy countdown fair conv_1d buffers pages memories).host a
        ≡ (op_exec_cpu word_copy countdown conv_1d buffers memories).host a)
    × ((op_exec_cpu word_copy countdown conv_1d buffers memories).mrams ≡ zeros)
offloaded-refines_example =
    offloaded-refines word_copy conv_1d buffers pages memories fair countdown tt word_copy-SgLaws
      buffers-IsOffload (λ d p. two_rounds-IsComplete pages refl) countdown-IsSchedule
      buffers-HasBuffers

mem_plan-reduce_cpu_example :
    let plan = mem_plan 4096 1 1 1 1 in
    reduce_cpu word_copy plan.reduce_tcb (launch_all affine_dpu plan.dpu_tcb fair zeros) host 2000
    ≡ reduce_cpu word_copy plan.reduce_tcb zeros host 2000
mem_plan-reduce_cpu_example =
    mem_plan-reduce_cpu word_copy 4096 1 1 1 1 affine_dpu fair zeros host word_copy-SgLaws
      (omega arith) (omega arith) (omega arith)
      (λ d p. two_rounds-IsComplete (mem_plan 4096 1 1 1 1).dpu_tcb (unfold mem_plan in refl)) 2000
