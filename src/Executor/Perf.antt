-- ===== src/Executor/Perf.antt =====
-- `perfStats` of include/utils/Stats.hpp, and what the pool asks of an `OperatorManager`.
use meta_pb.Common.{ℕ}
use meta_pb.Common.Real.{Real}
use meta_pb.Operator.Registry.{OperatorTag}

pub record PerfStats (R : Real) : Type 0 where
  pub energy_cost_joule : R.Num
  pub time_cost_second : R.Num
  pub data_movement_mib : R.Num

module _ (R : Real) where
  -- `perfStats{}`.
  abbrev pub zero_perf : PerfStats R
  zero_perf = record {
    energy_cost_joule = R.zero;
    time_cost_second = R.zero;
    data_movement_mib = R.zero;
  }

  unfoldable pub perf_add : PerfStats R → PerfStats R → PerfStats R
  perf_add x y = record {
    energy_cost_joule = R.add x.energy_cost_joule y.energy_cost_joule;
    time_cost_second = R.add x.time_cost_second y.time_cost_second;
    data_movement_mib = R.add x.data_movement_mib y.data_movement_mib;
  }

  unfoldable pub perf_sub : PerfStats R → PerfStats R → PerfStats R
  perf_sub x y = record {
    energy_cost_joule = R.sub x.energy_cost_joule y.energy_cost_joule;
    time_cost_second = R.sub x.time_cost_second y.time_cost_second;
    data_movement_mib = R.sub x.data_movement_mib y.data_movement_mib;
  }

  unfoldable pub perf_mul : PerfStats R → ℕ → PerfStats R
  perf_mul x n = record {
    energy_cost_joule = R.mul x.energy_cost_joule (R.of_ℕ n);
    time_cost_second = R.mul x.time_cost_second (R.of_ℕ n);
    data_movement_mib = R.mul x.data_movement_mib (R.of_ℕ n);
  }

  unfoldable pub perf_div : PerfStats R → ℕ → PerfStats R
  perf_div x n = record {
    energy_cost_joule = R.div x.energy_cost_joule (R.of_ℕ n);
    time_cost_second = R.div x.time_cost_second (R.of_ℕ n);
    data_movement_mib = R.div x.data_movement_mib (R.of_ℕ n);
  }

-- `deducePerfCPU` and `deducePerfDPU` of the manager.
pub record PerfModel (R : Real) : Type 0 where
  pub deduce_cpu : OperatorTag → ℕ → PerfStats R
  pub deduce_dpu : OperatorTag → ℕ → PerfStats R
