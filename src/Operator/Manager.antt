-- ===== src/Operator/Manager.antt =====
-- `OperatorManager` of include/Operator/OperatorManager.hpp, `genRegressionTask` of
-- src/Executor/TaskGraph.cpp, and what the operators' headers say of training. `opMap` is a function
-- of the tag, `none` where it has no operator; the measurements and the files of cached samples are
-- parameters. `isTrained` is one static member in the source, here one for each operator.
pub mod Trained
pub mod Exec
use mathlib.Core.Option
use meta_pb.Common.{
  ℕ, List, [], ◌∷◌, Bool, true, false, Option, none, some, if◌then◌else◌, ltb, map,
}
use meta_pb.Common.Real.{Real}
use meta_pb.Executor.Graph.{TaskGraph}
use meta_pb.Executor.Perf.{PerfStats}
use meta_pb.Operator.Pages.{get_nearest_page_blk_cnt}
use meta_pb.Operator.Registry.{
  OperatorTag, logic_start, logic_end, undefined, map_op, reduce_op, index, same_tag,
  all_perf_rel_op_set,
}
use meta_pb.Operator.Samples.{Model, untrained, train_model, deduce_perf_cpu, deduce_perf_dpu}

abbrev pub check_if_is_trainable : OperatorTag → Bool
check_if_is_trainable logic_start = false
check_if_is_trainable logic_end = false
check_if_is_trainable undefined = false
check_if_is_trainable _ = true

abbrev pub check_if_is_cpu_only : OperatorTag → Bool
check_if_is_cpu_only logic_start = true
check_if_is_cpu_only logic_end = true
check_if_is_cpu_only undefined = true
check_if_is_cpu_only map_op = true
check_if_is_cpu_only reduce_op = true
check_if_is_cpu_only _ = false

-- `regressionTask`: a map from operators to sizes, in the order of the tags.
abbrev pub RegressionTask : Type 0
RegressionTask = List (OperatorTag × ℕ)

-- The body of the loop of `genRegressionTask`.
unfoldable pub note_size : RegressionTask → OperatorTag → ℕ → RegressionTask
note_size [] op size = (op, size) ∷ []
note_size ((t, n) ∷ rest) op size =
    let rest' = note_size rest op size in
    if same_tag t op
    then (t, if ltb n size then size else n) ∷ rest
    else if ltb (index op) (index t)
    then (op, size) ∷ (t, n) ∷ rest
    else (t, n) ∷ rest'

unfoldable pub note_sizes {ℓ} :
    {A : Type ℓ} → (A → OperatorTag × ℕ) → RegressionTask → List A → RegressionTask
unfolding note_size
note_sizes of task [] = task
note_sizes of task (v ∷ vs) = note_sizes of (note_size task (of v).0 (of v).1) vs

unfoldable pub gen_regression_task : (R : Real) → TaskGraph R → RegressionTask
unfolding note_sizes
gen_regression_task R g = note_sizes (λ v. (v.op, v.input_size_mib)) [] g.vertices

-- `maxBlk` of `trainModel`.
unfoldable pub max_blk : RegressionTask → ℕ → ℕ
max_blk [] m = m
max_blk ((op, size) ∷ task) m =
    let blk_num = get_nearest_page_blk_cnt size in
    max_blk task (if ltb m blk_num then blk_num else m)

module _ (R : Real) where
  -- What the operators measure, and the files of samples that are there.
  pub record World : Type 0 where
    pub probe_cpu : OperatorTag → ℕ → PerfStats R
    pub probe_dpu : OperatorTag → ℕ → PerfStats R
    pub cpu_file : OperatorTag → ℕ → Option (List (PerfStats R))
    pub dpu_file : OperatorTag → ℕ → Option (List (PerfStats R))

  abbrev pub OpMap : Type 0
  OpMap = OperatorTag → Option (Model R)

  -- Every tag is one of `allOPSet`.
  abbrev pub instantiate_all : OpMap
  instantiate_all op = some (untrained R)

  abbrev pub put_op : OpMap → OperatorTag → Model R → OpMap
  put_op ops op m t = if same_tag op t then some m else ops t

  -- `opMap[opTag]`, after `getOperator` where it has none.
  abbrev pub contained : Option (Model R) → Model R
  contained none = untrained R
  contained (some m) = m

  module _ (world : World) where
    -- `opMap[opTag]->trainModel(upper)`.
    unfoldable pub train_op : OpMap → OperatorTag → Model R → ℕ → Option OpMap
    train_op ops op m upper =
        Option.map (λ t. put_op ops op t)
          (train_model R (check_if_is_trainable op) (check_if_is_cpu_only op)
            (world.cpu_file op upper) (world.dpu_file op upper) (world.probe_cpu op)
            (world.probe_dpu op) m upper)

    abbrev after_op : Option OpMap → (OpMap → Option OpMap) → Option OpMap
    after_op none next = none
    after_op (some ops) next = next ops

    -- The loops of `trainModel` and `trainAll`.
    unfoldable pub train_ops : List OperatorTag → ℕ → OpMap → Option OpMap
    unfolding train_op
    train_ops [] upper ops = some ops
    train_ops (op ∷ rest) upper ops =
        after_op (train_op ops op (contained (ops op)) upper) (λ ops'. train_ops rest upper ops')

    -- `trainModel`: the operators of the task, then fresh ones for both transfers.
    unfoldable pub train_task : RegressionTask → OpMap → Option OpMap
    unfolding train_ops max_blk
    train_task task ops =
        let upper = max_blk task 0 in
        after_op (train_ops (map (λ entry. entry.0) task) upper ops) (λ ops'.
          after_op (train_op ops' map_op (untrained R) upper)
            (λ ops''. train_op ops'' reduce_op (untrained R) upper))

    abbrev train_sets : List (List OperatorTag) → ℕ → OpMap → Option OpMap
    train_sets [] upper ops = some ops
    train_sets (set ∷ sets) upper ops =
        after_op (train_ops set upper ops) (λ ops'. train_sets sets upper ops')

    unfoldable pub train_all : ℕ → OpMap → Option OpMap
    unfolding train_ops
    train_all upper ops = train_sets all_perf_rel_op_set upper ops

  -- `deducePerfCPU` and `deducePerfDPU`; `none` where `at` throws, too.
  unfoldable pub manager_deduce_cpu : OpMap → OperatorTag → ℕ → Option (PerfStats R)
  manager_deduce_cpu ops op cnt = elim (ops op) [ none ↦ none | some m ↦ deduce_perf_cpu R m cnt ]

  unfoldable pub manager_deduce_dpu : OpMap → OperatorTag → ℕ → Option (PerfStats R)
  manager_deduce_dpu ops op cnt = elim (ops op) [ none ↦ none | some m ↦ deduce_perf_dpu R m cnt ]
