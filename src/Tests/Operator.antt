-- ===== src/Tests/Operator.antt =====
-- Samples, page blocks and scatter-gather blocks of concrete sizes.
use meta_pb.Common.{
  ℕ, ◌+◌, ◌*◌, ◌/◌, ◌%◌, ◌^◌, ◌≤◌, ◌<◌, ◌≡◌, ◌≢◌, ◌↔◌, true, false, none, some, arith,
}
use meta_pb.Executor.Perf.{PerfStats, zero_perf}
use meta_pb.Operator.Pages.{
  page_blk_size, page_size_byte, get_nearest_page_blk_cnt, get_block, SgXferContext,
}
use meta_pb.Operator.Pages.Cover.{get_nearest_page_blk_cnt_covers, get_block_page}
use meta_pb.Operator.Samples.{
  deduce, Model, untrained, train_model, deduce_perf_cpu, deduce_perf_dpu,
}
use meta_pb.Operator.Samples.Deduce.{deduce_total}
use meta_pb.Operator.Samples.Train.{Answers, train_model-deduce}
use meta_pb.Tests.Numbers.{nat_real, nat_zero}

get_nearest_page_blk_cnt_covers_example :
    (100 * 2 ^ 20 ≤ get_nearest_page_blk_cnt 100 * page_blk_size)
    × (get_nearest_page_blk_cnt 100 * page_blk_size < 100 * 2 ^ 20 + page_blk_size)
get_nearest_page_blk_cnt_covers_example = get_nearest_page_blk_cnt_covers 100 (omega arith)

abbrev sg : ℕ → SgXferContext
sg n = record { cpu_page_blk_base_addr = 64; dpu_page_base_idx = 0; page_blk_cnt = n }

get_block_page_example :
    (3000 < 3 * 2530
      → get_block (sg 3) (3000 % 2530) (3000 / 2530)
        ≡ some (64 + page_size_byte * 3000, page_size_byte))
    × (get_block (sg 3) 7 3 ≡ none)
get_block_page_example = get_block_page (sg 3) 3000 7 (omega arith)

abbrev dpu_costs : ℕ → PerfStats nat_real
dpu_costs n = record { energy_cost_joule = 5 * n; time_cost_second = n; data_movement_mib = n }

abbrev costs : ℕ → PerfStats nat_real
costs n = record { energy_cost_joule = 3 * n; time_cost_second = 2 * n; data_movement_mib = n }

deduce_total_example :
    ((cnt : ℕ) → deduce nat_real costs 26 cnt ≢ none) ↔ ((15 ≤ 26) × (26 % 15 ≤ 26 / 15))
deduce_total_example = deduce_total nat_real costs 26 (omega arith)

train_model-deduce_example :
    (t : Model nat_real) × (train_model nat_real true false none none costs dpu_costs
        (untrained nat_real)
        240
      ≡ some t)
    × Answers (deduce_perf_cpu nat_real t) costs (zero_perf nat_real) 240
    × (false ≡ false → Answers (deduce_perf_dpu nat_real t) dpu_costs (zero_perf nat_real) 240)
train_model-deduce_example =
    train_model-deduce nat_real nat_zero false none costs dpu_costs (untrained nat_real) 240
      (omega arith) (omega arith) (omega arith)
