-- ===== src/Tests/Manager.antt =====
-- Training for a graph of three tasks.
use meta_pb.Common.{◌≡◌, ◌≤◌, refl, [], ◌∷◌, none, some, In, inl, inr, arith}
use meta_pb.Executor.Graph.{TaskGraph, TaskProperties}
use meta_pb.Executor.Perf.{zero_perf}
use meta_pb.Operator.Pages.{get_nearest_page_blk_cnt}
use meta_pb.Operator.Registry.{
  logic_start, logic_end, mac, map_op, reduce_op, logical, memory_bound,
}
use meta_pb.Operator.Manager.{
  World, OpMap, instantiate_all, note_size, note_sizes, gen_regression_task, max_blk, train_task,
}
use meta_pb.Operator.Manager.Trained.{
  Asks, Sizes, IsBounded, gen_regression_task-covers, train_task-bound,
}
use meta_pb.Tests.Numbers.{nat_real}
use meta_pb.Tests.Executor.{node, edge}

abbrev big_task : TaskProperties nat_real
big_task = node mac memory_bound 2500

abbrev big_chain : TaskGraph nat_real
big_chain = record {
  vertices = node logic_start logical 0 ∷ big_task ∷ node logic_end logical 0 ∷ [];
  edges = edge 0 1 ∷ edge 1 2 ∷ [];
  name = "chain";
}

abbrev world : World nat_real
world = record {
  probe_cpu = λ op cnt. zero_perf nat_real;
  probe_dpu = λ op cnt. zero_perf nat_real;
  cpu_file = λ op upper. none;
  dpu_file = λ op upper. none;
}

big_chain-Sizes : Sizes (gen_regression_task nat_real big_chain)
unfolding gen_regression_task note_size note_sizes
big_chain-Sizes = (omega arith, (omega arith, (omega arith, tt)))

big_chain_blk : max_blk (gen_regression_task nat_real big_chain) 0 ≡ 253
unfolding gen_regression_task note_size note_sizes max_blk get_nearest_page_blk_cnt
big_chain_blk = refl

gen_regression_task-covers_example :
    Asks (gen_regression_task nat_real big_chain) mac 2500
    × (get_nearest_page_blk_cnt 2500 ≤ max_blk (gen_regression_task nat_real big_chain) 0)
gen_regression_task-covers_example =
    gen_regression_task-covers nat_real big_chain big_task big_chain-Sizes (inr (inl refl))

abbrev BoundedTask : OpMap nat_real → TaskProperties nat_real → Type 0
BoundedTask ops v =
    IsBounded nat_real 253 ops v.op × (get_nearest_page_blk_cnt v.input_size_mib ≤ 253)

train_task-bound_example :
    (ops : OpMap nat_real) × (train_task nat_real world
        (gen_regression_task nat_real big_chain)
        (instantiate_all nat_real)
      ≡ some ops)
    × ((v : TaskProperties nat_real) → In v big_chain.vertices → BoundedTask ops v)
    × IsBounded nat_real 253 ops map_op
    × IsBounded nat_real 253 ops reduce_op
train_task-bound_example =
    train_task-bound nat_real world 253 (λ op. refl) (omega arith) (omega arith) (omega arith)
      big_chain (instantiate_all nat_real) big_chain-Sizes big_chain_blk
