-- ===== src/Tests/Files.antt =====
-- Files of samples.
use meta_pb.Common.{
  ap, zero, ℕ, suc, ◌*◌, ◌/◌, ◌≡◌, ◌<◌, refl, List, [], ◌∷◌, length, none, some, replicate,
  All-replicate, true, false, arith,
}
use meta_pb.Executor.Perf.{PerfStats}
use meta_pb.Operator.Samples.{Model, untrained, train_model, deduce_perf_cpu, deduce_perf_dpu}
use meta_pb.Operator.Samples.File.{NumText, load_row, save_perf_samples, rows_of_file}
use meta_pb.Operator.Samples.File.Kept.{NumTextLaws, kept}
use meta_pb.Operator.Samples.File.Again.{train_model-again}
use meta_pb.Utils.Lines.{Text, codes, lines, get_word, split_at}
use meta_pb.Tests.Numbers.{nat_real, nat_zero}

-- Tally marks.
abbrev tallies : NumText nat_real
tallies = record {
  to_string = λ n. replicate (suc n) 49;
  stod = λ t. elim t [ [] ↦ none | x ∷ xs ↦ some (length xs) ];
}

length-tallies : (n : ℕ) → length {A = ℕ} (replicate n 49) ≡ n
length-tallies zero = refl
length-tallies (suc n) = ap suc (length-tallies n)

tally_laws : NumTextLaws nat_real tallies
tally_laws = record {
  rounded = λ n. n;
  stod-to_string = λ n. ap some (length-tallies n);
  no_comma = λ n. (omega arith, All-replicate _ n 49 (omega arith));
  no_newline = λ n. (omega arith, All-replicate _ n 49 (omega arith));
}

abbrev costs : ℕ → PerfStats nat_real
costs n = record { energy_cost_joule = 2 * n; time_cost_second = n; data_movement_mib = 0 }

lines_read : lines (codes "ab,c\n\nd") ≡ codes "ab,c" ∷ [] ∷ codes "d" ∷ []
unfolding lines
lines_read = refl

-- A line with two fields repeats the second one, since the word is kept when the line has ended.
short_row :
    load_row nat_real tallies (codes "1,111")
    ≡ some (record { energy_cost_joule = 2; time_cost_second = 2; data_movement_mib = 0 })
unfolding load_row get_word split_at
short_row = refl

train_model-again_example :
    (t t' : Model nat_real) × (cpu_file dpu_file : Text) × (cpu_rows dpu_rows : List
      (PerfStats nat_real))
    × (train_model nat_real true false none none costs (λ n. costs (suc n)) (untrained nat_real) 240
        ≡ some t)
    × (save_perf_samples nat_real tallies 240 t.cpu_perf_samples ≡ some cpu_file)
    × (save_perf_samples nat_real tallies 240 t.dpu_perf_samples ≡ some dpu_file)
    × (rows_of_file nat_real tallies cpu_file ≡ some cpu_rows)
    × (rows_of_file nat_real tallies dpu_file ≡ some dpu_rows)
    × (train_model nat_real true false
          (some cpu_rows)
          (some dpu_rows)
          (λ n. costs 0)
          (λ n. costs 0)
          (untrained nat_real)
          240
        ≡ some t')
    × ((i : ℕ)
        → i * (240 / 15) < 240
        → deduce_perf_cpu nat_real t' (i * (240 / 15))
          ≡ some (kept tallies tally_laws (costs (i * (240 / 15)))))
    × (false ≡ false
        → (i : ℕ) → i * (240 / 15) < 240
        → deduce_perf_dpu nat_real t' (i * (240 / 15))
          ≡ some (kept tallies tally_laws (costs (suc (i * (240 / 15))))))
train_model-again_example =
    train_model-again nat_zero tallies tally_laws false costs (λ n. costs (suc n)) (λ n. costs 0)
      (λ n. costs 0) (untrained nat_real) (untrained nat_real) 240 (omega arith) (omega arith)
      (omega arith)
