-- ===== src/Operator/Samples/File/Kept.antt =====
-- Samples that are saved and loaded again.
use meta_pb.Common.{
  ℕ, zero, suc, ◌+◌, ◌*◌, ◌/◌, ◌%◌, ◌^◌, ◌≡◌, ◌≤◌, ◌<◌, refl, ap, ◌∙◌, subst, List, [], ◌∷◌, ◌++◌,
  some, leb, ◌&&◌, if◌then◌else◌, ℕ_discrete, dec_le, true, false, arith,
}
use mathlib.Core.List.{append-nil}
use meta_pb.Common.Real.{Real}
use meta_pb.Executor.Perf.{PerfStats, zero_perf}
use meta_pb.Operator.Pages.{u32}
use meta_pb.Operator.Samples.{set_sample, load_perf_samples}
use meta_pb.Operator.Samples.Loop.{index_le, mul_mono, mul_next}
use meta_pb.Operator.Samples.File.{
  NumText, samples_header, row_size, sample_row, row_end, save_rows, with_header, save_perf_samples,
  load_row, cons_row, load_rows, rows_of_file,
}
use meta_pb.Utils.Lines.{Text, newline, comma, lines, get_word}
use meta_pb.Utils.Lines.Laws.{
  Without, Without-append, lines-newline, lines-line, split_at-delimiter, split_at-last,
}

leb-true : (a b : ℕ) → a ≤ b → leb a b ≡ true
leb-true a b h = ground arith

leb-false : (a b : ℕ) → b < a → leb a b ≡ false
leb-false a b h = ground arith

-- A number is written without commas and newlines, and reads back as it was rounded to be written.
pub record NumTextLaws (R : Real) (nums : NumText R) : Type 0 where
  pub rounded : R.Num → R.Num
  pub stod-to_string : (a : R.Num) → nums.stod (nums.to_string a) ≡ some (rounded a)
  pub no_comma : (a : R.Num) → Without comma (nums.to_string a)
  pub no_newline : (a : R.Num) → Without newline (nums.to_string a)

module _ {R : Real} (nums : NumText R) (laws : NumTextLaws R nums) where
  -- What a file keeps of a sample.
  abbrev pub kept : PerfStats R → PerfStats R
  kept s = record (zero_perf R) {
    time_cost_second = laws.rounded s.time_cost_second;
    energy_cost_joule = laws.rounded s.energy_cost_joule;
  }

  load_row-sample_row :
      (cnt : ℕ) (s : PerfStats R) → load_row R nums (sample_row R nums cnt s) ≡ some (kept s)
  unfolding load_row get_word
  load_row-sample_row cnt s =
      rw
        (
          split_at-delimiter comma (nums.to_string (row_size R nums cnt))
              (nums.to_string s.time_cost_second ++ (comma ∷ nums.to_string s.energy_cost_joule))
              (laws.no_comma _),
          split_at-delimiter comma (nums.to_string s.time_cost_second)
              (nums.to_string s.energy_cost_joule) (laws.no_comma _),
          split_at-last comma (nums.to_string s.energy_cost_joule) (laws.no_comma _),
          laws.stod-to_string s.time_cost_second,
          laws.stod-to_string s.energy_cost_joule,
        )
        refl

  sample_row-Without : (cnt : ℕ) (s : PerfStats R) → Without newline (sample_row R nums cnt s)
  sample_row-Without cnt s =
      Without-append newline (nums.to_string (row_size R nums cnt)) _ (laws.no_newline _) (
        omega arith,
        Without-append newline (nums.to_string s.time_cost_second) _ (laws.no_newline _)
            (omega arith, laws.no_newline _),
      )

  rows-more :
      (cnt : ℕ) (s : PerfStats R) (rest : Text) (rows : List (PerfStats R))
      → load_rows R nums (lines rest) ≡ some rows
      → load_rows R nums (lines (sample_row R nums cnt s ++ (newline ∷ rest)))
        ≡ some (kept s ∷ rows)
  unfolding load_rows
  rows-more cnt s rest rows h =
      rw (lines-newline (sample_row R nums cnt s) rest (sample_row-Without cnt s))
        (rw (load_row-sample_row cnt s, h) refl)

  rows-last :
      (cnt : ℕ) (s : PerfStats R)
      → load_rows R nums (lines (sample_row R nums cnt s)) ≡ some (kept s ∷ [])
  unfolding load_rows
  rows-last cnt s =
      rw (lines-line (nums.to_string (row_size R nums cnt)) comma _ (sample_row-Without cnt s))
        (rw (load_row-sample_row cnt s) refl)

  module _ (src : ℕ → PerfStats R) (q upper : ℕ) (pos : 0 < q) (few : upper < 17 * q)
      (within : q ≤ upper) (small : upper < 2 ^ 31) where
    -- An array that the rows from `i` on have been read into.
    abbrev pub kept_from : ℕ → (ℕ → PerfStats R) → ℕ → PerfStats R
    kept_from i dst j = if leb i j && leb (j * q) upper then kept (src j) else dst j

    -- What the rounds from `i` on write, and what is read back from it.
    pub record Saved (fuel i : ℕ) : Type 0 where
      pub text : Text
      pub rows : List (PerfStats R)
      pub saved : save_rows R nums fuel q upper (i * q) i src ≡ some text
      pub read : load_rows R nums (lines text) ≡ some rows
      pub past : upper < i * q → text ≡ []
      pub load :
          (dst : ℕ → PerfStats R)
          → (dst' : ℕ → PerfStats R) × (load_perf_samples R dst i rows ≡ some dst')
            × ((j : ℕ) → dst' j ≡ kept_from i dst j)

    Saved-past : (fuel i : ℕ) → upper < i * q → Saved (suc fuel) i
    unfolding save_rows load_rows lines load_perf_samples
    Saved-past fuel i over = record {
      text = [];
      rows = [];
      saved = ground arith;
      read = refl;
      past = λ h. refl;
      load = λ dst. (dst, refl, λ j. ground (arith, mul_mono i j q));
    }

    next_count : (i : ℕ) → i * q ≤ upper → u32 (i * q + q) ≡ (i + 1) * q
    next_count i h = omega (arith, mul_next i q)

    kept_from-set :
        (i : ℕ) (dst : ℕ → PerfStats R) (j : ℕ)
        → i * q ≤ upper
        → kept_from (i + 1) (set_sample R dst i (kept (src i))) j ≡ kept_from i dst j
    kept_from-set i dst j h = elim (ℕ_discrete i j) [
      | yes e ↦
          subst (λ k. kept_from (i + 1) (set_sample R dst i (kept (src i))) k ≡ kept_from i dst k) e
            (ground arith)
      | no n ↦ ground arith
    ]

    row_text : (i : ℕ) → Text → Text
    row_text i rest = sample_row R nums (i * q) (src i) ++ row_end R nums q upper (i * q) rest

    read_here :
        (fuel i : ℕ) (s : Saved fuel (i + 1))
        → load_rows R nums (lines (row_text i s.text)) ≡ some (kept (src i) ∷ s.rows)
    unfolding row_text load_rows lines
    read_here fuel i s = elim (dec_le (i * q + q) upper) [
      | yes more ↦
          rw (leb-true (i * q + q) upper more) (rows-more (i * q) (src i) s.text s.rows s.read)
      | no over ↦
          let none_left = s.past (omega (arith, mul_next i q)) in
          rw
            (
              leb-false (i * q + q) upper (omega arith),
              none_left,
              append-nil (sample_row R nums (i * q) (src i)),
            )
            (rows-last (i * q) (src i)
              ∙ ap (cons_row R nums (some (kept (src i))))
                  (subst (λ t. load_rows R nums (lines t) ≡ some s.rows) none_left s.read))
    ]

    load_here :
        (fuel i : ℕ) (s : Saved fuel (i + 1)) (dst : ℕ → PerfStats R)
        → i * q ≤ upper
        → i ≤ 16
        → (dst' : ℕ → PerfStats R) × (load_perf_samples R dst i (kept (src i) ∷ s.rows) ≡ some dst')
          × ((j : ℕ) → dst' j ≡ kept_from i dst j)
    unfolding load_perf_samples
    load_here fuel i s dst in_range room =
        let (dst', e, w) = s.load (set_sample R dst i (kept (src i))) in
        (dst', rw (leb-true i 16 room) e, λ j. w j ∙ kept_from-set i dst j in_range)

    Saved-here : (fuel i : ℕ) → i * q ≤ upper → i ≤ 16 → Saved fuel (i + 1) → Saved (suc fuel) i
    unfolding save_rows row_text
    Saved-here fuel i in_range room s = record {
      text = row_text i s.text;
      rows = kept (src i) ∷ s.rows;
      saved =
          rw (next_count i in_range, s.saved, leb-true (i * q) upper in_range, leb-true i 16 room)
            refl;
      read = read_here fuel i s;
      past = λ h. absurd (omega arith);
      load = λ dst. load_here fuel i s dst in_range room;
    }

    pub save_rows-Saved : (fuel i : ℕ) → fuel + i ≡ 19 → i ≤ 17 → Saved fuel i
    save_rows-Saved zero i f l = absurd (omega arith)
    save_rows-Saved (suc fuel) i f l = elim (dec_le (i * q) upper) [
      | no over ↦ Saved-past fuel i (omega arith)
      | yes in_range ↦
          let room = index_le i q upper pos few in_range in
          let s = save_rows-Saved fuel (i + 1) (omega arith) (omega arith) in
          Saved-here fuel i in_range room s
    ]

  header_line :
      (text : Text)
      → rows_of_file R nums (samples_header ++ (newline ∷ text)) ≡ load_rows R nums (lines text)
  unfolding rows_of_file
  header_line text = rw (lines-newline samples_header text (omega arith)) refl

  -- The samples that training for an upper bound has measured are saved in a file from which they are
  -- loaded: into any array, each sample at up to the upper bound's page blocks becomes what was saved,
  -- with the time and the energy as rounded for writing, and the other entries stay.
  pub load_perf_file-save :
      (src : ℕ → PerfStats R) (upper : ℕ)
      → 15 ≤ upper
      → upper < 2 ^ 31
      → upper % 15 ≤ upper / 15
      → (text : Text) × (rows : List (PerfStats R)) × (save_perf_samples R nums upper src
          ≡ some text)
        × (rows_of_file R nums text ≡ some rows)
        × ((dst : ℕ → PerfStats R)
            → (dst' : ℕ → PerfStats R) × (load_perf_samples R dst 0 rows ≡ some dst')
              × ((j : ℕ) → dst' j ≡ (if leb (j * (upper / 15)) upper then kept (src j) else dst j)))
  unfolding save_perf_samples
  load_perf_file-save src upper h b k =
      let s =
        save_rows-Saved src (upper / 15) upper (omega arith) (omega arith) (omega arith) b 19 0
          (omega arith) (omega arith) in
      let z : 0 * (upper / 15) ≡ 0 = omega arith in
      (
        samples_header ++ (newline ∷ s.text),
        s.rows,
        subst
            (λ c.
              with_header R nums (save_rows R nums 19 (upper / 15) upper c 0 src)
              ≡ some (samples_header ++ (newline ∷ s.text)))
            z (ap (with_header R nums) s.saved),
        header_line s.text ∙ s.read,
        λ dst. let (dst', e, w) = s.load dst in (dst', e, λ j. w j ∙ ground arith),
      )
