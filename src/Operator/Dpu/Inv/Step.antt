-- ===== src/Operator/Dpu/Inv/Step.antt =====
-- The steps of the tasklets against their invariant.
use mathlib.Core.Path.{fun_ext}
use mathlib.Core.Bool.{false≢true}
use meta_pb.Common.{
  ℕ, ◌+◌, ◌*◌, ◌/◌, ◌%◌, ◌<◌, ◌≡◌, ◌≢◌, refl, sym, ap, ap₂, ◌∙◌, arith, true, ltb, Bool-cases, inl,
  inr, ℕ_discrete, ltb→lt,
}
use meta_pb.Operator.Pages.{DpuTcb, u32}
use meta_pb.Operator.Memory.{Memory}
use meta_pb.Operator.Memory.Writers.{Off}
use meta_pb.Operator.Kernels.Host.{Disjoint}
use meta_pb.Operator.Dpu.{
  Dpu, DpuCache, DpuKernel, mram_read, mram_write, dpu_max_offset, dpu_chunk, dpu_start, load_step,
  write_step, tasklet_step,
}
use meta_pb.Operator.Dpu.Inv.{
  HasPages, IsKernel, expected, max_offset_exact, IsInv, set_tasklet_elim,
}

mram_write_inside :
    (cache : DpuCache) (mram : Memory) (base i : ℕ)
    → i < 256
    → mram_write cache mram base (base + i) ≡ cache i
unfolding mram_write
mram_write_inside cache mram base i h = ground arith

pub mram_write-Off :
    (cache : DpuCache) (mram : Memory) (base a : ℕ)
    → Off base 256 a
    → mram_write cache mram base a ≡ mram a
unfolding mram_write
mram_write-Off cache mram base a h = ground arith

module _ (kernel : DpuKernel) (spec : DpuCache → DpuCache → ℕ → ℕ) (Sure : ℕ → Type 0)
    (ok : IsKernel kernel spec Sure) (tcb : DpuTcb) (pages : HasPages tcb) (m : Memory) where
  pub dpu_start-IsInv : (caches : ℕ → DpuCache) → IsInv spec Sure tcb m (dpu_start m caches)
  unfolding dpu_start
  dpu_start-IsInv caches = record {
    outside = λ a h. refl;
    own = λ t h. omega (arith, h);
    written = λ j i p q s h. absurd (omega (arith, h));
    held = λ t i p q s h l. absurd (false≢true l);
  }

  -- Reading a source's chunk in the destination's absence.
  read_same :
      (dpu : Dpu) (idx byte_index : ℕ)
      → Disjoint (1024 * idx) (1024 * tcb.page_cnt) (1024 * tcb.dst_page_idx) (1024 * tcb.page_cnt)
      → byte_index % 1024 ≡ 0
      → byte_index < 4096 * tcb.page_cnt
      → ((a : ℕ) → Off (1024 * tcb.dst_page_idx) (1024 * tcb.page_cnt) a → dpu.mram a ≡ m a)
      → mram_read dpu.mram (dpu_chunk idx byte_index) ≡ mram_read m (dpu_chunk idx byte_index)
  unfolding mram_read
  read_same dpu idx byte_index apart r low out =
      fun_ext λ i. ground (arith, out ((4096 * idx + byte_index) / 4 + i))

  load_step-IsInv :
      (id : ℕ) (dpu : Dpu)
      → id < 12
      → (dpu.tasklet id).byte_index < 4096 * tcb.page_cnt
      → IsInv spec Sure tcb m dpu
      → IsInv spec Sure tcb m (load_step kernel tcb id dpu)
  unfolding load_step
  load_step-IsInv id dpu low more inv = record {
    outside = inv.outside;
    own = λ t h.
        set_tasklet_elim (λ tk. tk.byte_index % 12288 ≡ 1024 * t) id _ dpu.tasklet t
          (λ e. rw e (inv.own id low)) (λ ne. inv.own t h);
    written = λ j i p q s.
        set_tasklet_elim
          (λ tk.
            1024 * j < tk.byte_index
            → dpu.mram (1024 * tcb.dst_page_idx + 256 * j + i) ≡ expected spec tcb m (1024 * j) i)
          id _ dpu.tasklet (j % 12) (λ e h. inv.written j i p q s (rw e h))
          (λ ne. inv.written j i p q s);
    held = λ t i p q s.
        set_tasklet_elim
          (λ tk.
            tk.byte_index < 4096 * tcb.page_cnt
            → tk.loaded ≡ true
            → tk.cache i ≡ expected spec tcb m tk.byte_index i)
          id _ dpu.tasklet t (λ e h l. computed i q s) (λ ne. inv.held t i p q s);
  }
    where
      byte_index : ℕ
      byte_index = (dpu.tasklet id).byte_index

      aligned : byte_index % 1024 ≡ 0
      aligned = omega (arith, inv.own id low)

      computed :
          (i : ℕ)
          → i < 256
          → Sure i
          → kernel
              (mram_read dpu.mram (dpu_chunk tcb.src1_page_idx byte_index))
              (mram_read dpu.mram (dpu_chunk tcb.src2_page_idx byte_index))
              (dpu.tasklet id).cache
              i
            ≡ expected spec tcb m byte_index i
      computed i q s =
          ok _ _ _ i q s
          ∙ ap₂ (λ a b. spec a b i)
              (read_same dpu tcb.src1_page_idx byte_index pages.src1_apart aligned more inv.outside)
              (read_same dpu tcb.src2_page_idx byte_index pages.src2_apart aligned more inv.outside)

  write_step-IsInv :
      (id : ℕ) (dpu : Dpu)
      → id < 12
      → (dpu.tasklet id).byte_index < 4096 * tcb.page_cnt
      → (dpu.tasklet id).loaded ≡ true
      → IsInv spec Sure tcb m dpu
      → IsInv spec Sure tcb m (write_step kernel tcb id dpu)
  unfolding write_step
  write_step-IsInv id dpu low more full inv = record {
    outside = λ a h. mram_write-Off cache dpu.mram base a (off_chunk a h) ∙ inv.outside a h;
    own = λ t h.
        set_tasklet_elim (λ tk. tk.byte_index % 12288 ≡ 1024 * t) id _ dpu.tasklet t
          (λ e. omega (arith, e, inv.own id low, more, pages.few)) (λ ne. inv.own t h);
    written = λ j i p q s.
        set_tasklet_elim
          (λ tk.
            1024 * j < tk.byte_index
            → mram_write cache dpu.mram base (1024 * tcb.dst_page_idx + 256 * j + i)
              ≡ expected spec tcb m (1024 * j) i)
          id _ dpu.tasklet (j % 12) (λ e h. own_chunk j i p q s e h)
          (λ ne h.
            other_chunk j i q (λ b. ne (omega (arith, b, inv.own id low)))
            ∙ inv.written j i p q s h);
    held = λ t i p q s.
        set_tasklet_elim
          (λ tk.
            tk.byte_index < 4096 * tcb.page_cnt
            → tk.loaded ≡ true
            → tk.cache i ≡ expected spec tcb m tk.byte_index i)
          id _ dpu.tasklet t (λ e h l. absurd (false≢true l)) (λ ne. inv.held t i p q s);
  }
    where
      byte_index : ℕ
      byte_index = (dpu.tasklet id).byte_index

      base : ℕ
      base = dpu_chunk tcb.dst_page_idx byte_index

      cache : DpuCache
      cache = (dpu.tasklet id).cache

      off_chunk : (a : ℕ) → Off (1024 * tcb.dst_page_idx) (1024 * tcb.page_cnt) a → Off base 256 a
      off_chunk a h = omega (arith, h, more, inv.own id low)

      other_chunk :
          (j i : ℕ)
          → i < 256
          → 1024 * j ≢ byte_index
          → mram_write cache dpu.mram base (1024 * tcb.dst_page_idx + 256 * j + i)
            ≡ dpu.mram (1024 * tcb.dst_page_idx + 256 * j + i)
      other_chunk j i q ne =
          mram_write-Off cache dpu.mram base _ (omega (arith, q, ne, inv.own id low))

      own_chunk :
          (j i : ℕ)
          → j < 4 * tcb.page_cnt
          → i < 256
          → Sure i
          → j % 12 ≡ id
          → 1024 * j < u32 (byte_index + 12288)
          → mram_write cache dpu.mram base (1024 * tcb.dst_page_idx + 256 * j + i)
            ≡ expected spec tcb m (1024 * j) i
      own_chunk j i p q s e h = elim (ℕ_discrete (1024 * j) byte_index) [
        | no ne ↦
            other_chunk j i q ne
            ∙ inv.written j i p q s
                (rw e (omega (arith, e, h, ne, inv.own id low, pages.few, more)))
        | yes y ↦
            let here : 1024 * tcb.dst_page_idx + 256 * j + i ≡ base + i = omega (arith, y) in
            ap (mram_write cache dpu.mram base) here
            ∙ mram_write_inside cache dpu.mram base i q
            ∙ inv.held id i low q s more full
            ∙ ap (λ b. expected spec tcb m b i) (sym y)
      ]

  -- A step of any of the tasklets keeps the invariant.
  pub tasklet_step-IsInv :
      (id : ℕ) (dpu : Dpu)
      → id < 12
      → IsInv spec Sure tcb m dpu
      → IsInv spec Sure tcb m (tasklet_step kernel tcb id dpu)
  unfolding tasklet_step
  tasklet_step-IsInv id dpu low inv = elim (Bool-cases (ltb byte_index (dpu_max_offset tcb))) [
    | inr n ↦ rw n inv
    | inl y ↦
        let more : byte_index < 4096 * tcb.page_cnt =
          omega (arith, ltb→lt byte_index (dpu_max_offset tcb) y, max_offset_exact tcb pages) in
        elim (Bool-cases (dpu.tasklet id).loaded) [
          | inl l ↦ rw (y, l) (write_step-IsInv id dpu low more l inv)
          | inr l ↦ rw (y, l) (load_step-IsInv id dpu low more inv)
        ]
  ]
    where
      byte_index : ℕ
      byte_index = (dpu.tasklet id).byte_index
