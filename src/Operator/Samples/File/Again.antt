-- ===== src/Operator/Samples/File/Again.antt =====
-- An operator that finds the files of an earlier training.
use meta_pb.Common.{
  ℕ, ◌*◌, ◌/◌, ◌%◌, ◌^◌, ◌≡◌, ◌≤◌, ◌<◌, refl, sym, ap, List, none, some, Bool, true, false, dec_le,
  leb, ◌&&◌, if◌then◌else◌, arith,
}
use mathlib.Core.Bool.{false≢true}
use meta_pb.Common.Real.{Real, ZeroLaws}
use meta_pb.Executor.Perf.{PerfStats}
use meta_pb.Operator.Samples.{
  Model, load_perf_samples, load_model_cache, train_model, deduce_perf_cpu, deduce_perf_dpu,
}
use meta_pb.Operator.Samples.Loop.{trained-multiple}
use meta_pb.Operator.Samples.Train.{train_model-samples}
use meta_pb.Operator.Samples.File.{NumText, save_perf_samples, rows_of_file}
use meta_pb.Operator.Samples.File.Kept.{NumTextLaws, kept, load_perf_file-save}
use meta_pb.Utils.Lines.{Text}

module _ {R : Real} where
  abbrev found : ℕ → Model R → Model R
  found upper m = record m { is_trained = true; deduce_page_blk_upper_bound = upper }

  -- Where both files are there, training loads them.
  train_model-found :
      (only : Bool) (cpu_rows dpu_rows : List (PerfStats R)) (probe_cpu probe_dpu : ℕ → PerfStats R)
      (m : Model R) (upper : ℕ) (c d : ℕ → PerfStats R)
      → load_perf_samples R m.cpu_perf_samples 0 cpu_rows ≡ some c
      → load_perf_samples R m.dpu_perf_samples 0 dpu_rows ≡ some d
      → (t : Model R) × (train_model R true only
            (some cpu_rows)
            (some dpu_rows)
            probe_cpu
            probe_dpu
            m
            upper
          ≡ some t)
        × (t.cpu_perf_samples ≡ c)
        × (only ≡ false → t.dpu_perf_samples ≡ d)
        × (t.deduce_page_blk_upper_bound ≡ upper)
  unfolding train_model load_model_cache
  train_model-found true cpu_rows dpu_rows probe_cpu probe_dpu m upper c d e f = (
    found upper (record m { cpu_perf_samples = c }),
    rw e refl,
    refl,
    λ h. absurd (false≢true (sym h)),
    refl,
  )
  train_model-found false cpu_rows dpu_rows probe_cpu probe_dpu m upper c d e f = (
    found upper (record m { cpu_perf_samples = c; dpu_perf_samples = d }),
    rw (e, f) refl,
    refl,
    λ h. refl,
    refl,
  )

module _ {R : Real} (zeros : ZeroLaws R) (nums : NumText R) (laws : NumTextLaws R nums) where
  -- The entries that are read are those that were measured.
  reloaded :
      (probe_cpu : ℕ → PerfStats R) (upper : ℕ) (first old c : ℕ → PerfStats R) (j : ℕ)
      → (j * (upper / 15) ≤ upper → first j ≡ probe_cpu (j * (upper / 15)))
      → c j ≡ (if leb (j * (upper / 15)) upper then kept nums laws (first j) else old j)
      → c j ≡ (
          if leb 0 j && leb (j * (upper / 15)) upper
          then kept nums laws (probe_cpu (j * (upper / 15)))
          else old j)
  reloaded probe_cpu upper first old c j w cw = elim (dec_le (j * (upper / 15)) upper) [
    | yes p ↦ ground (arith, cw, ap (λ x. kept nums laws x) (w p))
    | no n ↦ ground (arith, cw)
  ]

  -- An operator is trained for an upper bound below 2 ^ 31 whose quotient by 15 is positive and no
  -- less than its remainder, and its samples are saved. Training succeeds, and so do both files. An
  -- operator that is trained later for the same bound, whatever it held and would measure, finds them,
  -- and then its deduction for the CPU, for no page block or for a multiple of the step below the bound,
  -- is what the first one measured there on the CPU, as rounded for the file; and if the operator does
  -- not run on the CPU only, the same holds of the DPUs.
  pub train_model-again :
      (only : Bool) (probe_cpu probe_dpu probe_cpu' probe_dpu' : ℕ → PerfStats R) (m m' : Model R)
      (upper : ℕ)
      → 15 ≤ upper
      → upper < 2 ^ 31
      → upper % 15 ≤ upper / 15
      → (t t' : Model R) × (cpu_file dpu_file : Text) × (cpu_rows dpu_rows : List (PerfStats R))
        × (train_model R true only none none probe_cpu probe_dpu m upper ≡ some t)
        × (save_perf_samples R nums upper t.cpu_perf_samples ≡ some cpu_file)
        × (save_perf_samples R nums upper t.dpu_perf_samples ≡ some dpu_file)
        × (rows_of_file R nums cpu_file ≡ some cpu_rows)
        × (rows_of_file R nums dpu_file ≡ some dpu_rows)
        × (train_model R true only (some cpu_rows) (some dpu_rows) probe_cpu' probe_dpu' m' upper
            ≡ some t')
        × ((i : ℕ)
            → i * (upper / 15) < upper
            → deduce_perf_cpu R t' (i * (upper / 15))
              ≡ some (kept nums laws (probe_cpu (i * (upper / 15)))))
        × (only ≡ false
            → (i : ℕ) → i * (upper / 15) < upper
            → deduce_perf_dpu R t' (i * (upper / 15))
              ≡ some (kept nums laws (probe_dpu (i * (upper / 15)))))
  unfolding deduce_perf_cpu deduce_perf_dpu
  train_model-again only probe_cpu probe_dpu probe_cpu' probe_dpu' m m' upper h s k =
      let (t, e, u, w, v) = train_model-samples only none probe_cpu probe_dpu m upper h s k in
      let (cf, cr, cs, cl, ck) = load_perf_file-save nums laws t.cpu_perf_samples upper h s k in
      let (df, dr, ds, dl, dk) = load_perf_file-save nums laws t.dpu_perf_samples upper h s k in
      let (c, ce, cw) = ck m'.cpu_perf_samples in
      let (d, de, dw) = dk m'.dpu_perf_samples in
      let (t', e', here, there, bound) =
        train_model-found only cr dr probe_cpu' probe_dpu' m' upper c d ce de in
      (
        t,
        t',
        cf,
        df,
        cr,
        dr,
        e,
        cs,
        ds,
        cl,
        dl,
        e',
        λ i l.
            rw (here, bound)
              (trained-multiple R (λ n. kept nums laws (probe_cpu n)) probe_dpu only (upper / 15)
                upper (omega arith) (omega arith) (omega arith) s zeros c m'.cpu_perf_samples
                (λ j.
                  reloaded probe_cpu upper t.cpu_perf_samples m'.cpu_perf_samples c j (w j) (cw j))
                i refl k l),
        λ both i l.
            rw (there both, bound)
              (trained-multiple R (λ n. kept nums laws (probe_dpu n)) probe_cpu only (upper / 15)
                upper (omega arith) (omega arith) (omega arith) s zeros d m'.dpu_perf_samples
                (λ j.
                  reloaded probe_dpu upper t.dpu_perf_samples m'.dpu_perf_samples d j (v both j)
                    (dw j))
                i refl k l),
      )
