-- ===== src/Operator/Dpu/Run.antt =====
-- Runs of a DPU's tasklets.
use meta_pb.Common.{
  ℕ, ◌+◌, ◌*◌, ◌/◌, ◌%◌, ◌≤◌, ◌<◌, ◌≡◌, ◌≢◌, ◌⊎◌, ap, ◌∙◌, arith, false, if◌then◌else◌, ltb, ◌==◌,
  List, [], ◌∷◌, Bool-cases, inl, inr, All, ltb→lt, ℕ_discrete,
}
use meta_pb.Operator.Pages.{DpuTcb}
use meta_pb.Operator.Memory.{Memory}
use meta_pb.Operator.Memory.Writers.{Off, IsFilled}
use meta_pb.Operator.Dpu.{
  Dpu, Tasklet, DpuCache, DpuKernel, dpu_max_offset, dpu_start, load_step, write_step, tasklet_step,
  run_tasklets,
}
use meta_pb.Operator.Dpu.Inv.{
  HasPages, IsKernel, expected, IsInv, max_offset_exact, set_tasklet_elim,
}
use meta_pb.Operator.Dpu.Inv.Step.{dpu_start-IsInv, tasklet_step-IsInv}

-- The steps of tasklet `t`.
abbrev pub count : ℕ → List ℕ → ℕ
count t [] = 0
count t (id ∷ ids) = (if t == id then 1 else 0) + count t ids

abbrev own_step : ℕ → ℕ → ℕ
own_step t id = if t == id then 1 else 0

own_step_same : (t : ℕ) → own_step t t ≡ 1
own_step_same t = ground arith

own_step_other : (t id : ℕ) → t ≢ id → own_step t id ≡ 0
own_step_other t id ne = ground arith

le_of_ltb : (a b : ℕ) → ltb a b ≡ false → b ≤ a
le_of_ltb a b h = ground arith

-- A loading and a writing step each gain the bytes between two rounds.
abbrev potential : Tasklet → ℕ
potential tk = 2 * tk.byte_index + (if tk.loaded then 12288 else 0)

low_potential : (tk : Tasklet) → potential tk ≤ 2 * tk.byte_index + 12288
low_potential tk = ground arith

module _ (kernel : DpuKernel) (tcb : DpuTcb) (pages : HasPages tcb) where
  abbrev IsDone : Tasklet → Type 0
  IsDone tk = 4096 * tcb.page_cnt ≤ tk.byte_index

  -- A tasklet that is done stays so; another gains by its own steps and keeps by others'.
  abbrev IsProgress : ℕ → Tasklet → Tasklet → Type 0
  IsProgress gain tk tk' =
      (IsDone tk → IsDone tk') × (IsDone tk' ⊎ (potential tk + 12288 * gain ≤ potential tk'))

  IsProgress-trans :
      (g g' : ℕ) (tk tk' tk'' : Tasklet)
      → IsProgress g tk tk'
      → IsProgress g' tk' tk''
      → IsProgress (g + g') tk tk''
  IsProgress-trans g g' tk tk' tk'' p q = (
    (λ d. q.0 (p.0 d)),
    elim q.1 [
      | inl d ↦ inl d
      | inr b ↦ elim p.1 [ inl d ↦ inl (q.0 d) | inr a ↦ inr (omega (arith, a, b)) ]
    ],
  )

  tasklet_step-IsProgress :
      (id t : ℕ) (dpu : Dpu)
      → IsProgress (own_step t id) (dpu.tasklet t) ((tasklet_step kernel tcb id dpu).tasklet t)
  unfolding tasklet_step load_step write_step
  tasklet_step-IsProgress id t dpu = elim (Bool-cases (ltb byte_index (dpu_max_offset tcb))) [
    | inr n ↦ rw n (
      (λ d. d),
      elim (ℕ_discrete t id) [
        | yes e ↦ inl (rw e (omega (arith, max_offset_exact tcb pages, le_of_ltb byte_index _ n)))
        | no ne ↦ inr (rw (own_step_other t id ne) (omega arith))
      ],
    )
    | inl y ↦
        let more : byte_index < 4096 * tcb.page_cnt =
          omega (arith, ltb→lt byte_index (dpu_max_offset tcb) y, max_offset_exact tcb pages) in
        elim (Bool-cases (dpu.tasklet id).loaded) [
          | inl l ↦
              rw (y, l)
                (set_tasklet_elim (IsProgress (own_step t id) (dpu.tasklet t)) id _ dpu.tasklet t
                  (λ e.
                    rw (e, own_step_same id, l)
                      (λ d. absurd (omega (arith, d, more)), inr (omega (arith, more, pages.few))))
                  (λ ne. rw (own_step_other t id ne) ((λ d. d), inr (omega arith))))
          | inr l ↦
              rw (y, l)
                (set_tasklet_elim (IsProgress (own_step t id) (dpu.tasklet t)) id _ dpu.tasklet t
                  (λ e.
                    rw (e, own_step_same id, l)
                      (λ d. absurd (omega (arith, d, more)), inr (omega arith)))
                  (λ ne. rw (own_step_other t id ne) ((λ d. d), inr (omega arith))))
        ]
  ]
    where
      byte_index : ℕ
      byte_index = (dpu.tasklet id).byte_index

  run_tasklets-IsProgress :
      (ids : List ℕ) (t : ℕ) (dpu : Dpu)
      → IsProgress (count t ids) (dpu.tasklet t) ((run_tasklets kernel tcb ids dpu).tasklet t)
  unfolding run_tasklets
  run_tasklets-IsProgress [] t dpu = ((λ d. d), inr (omega arith))
  run_tasklets-IsProgress (id ∷ ids) t dpu =
      let first = tasklet_step-IsProgress id t dpu in
      let rest = run_tasklets-IsProgress ids t (tasklet_step kernel tcb id dpu) in
      IsProgress-trans (own_step t id) (count t ids) (dpu.tasklet t)
        ((tasklet_step kernel tcb id dpu).tasklet t)
        ((run_tasklets kernel tcb ids (tasklet_step kernel tcb id dpu)).tasklet t) first rest

  -- Enough steps of a tasklet take it past the last chunk.
  run_tasklets-IsDone :
      (ids : List ℕ) (t : ℕ) (caches : ℕ → DpuCache) (m : Memory)
      → 2 * tcb.page_cnt + 3 ≤ 3 * count t ids
      → IsDone ((run_tasklets kernel tcb ids (dpu_start m caches)).tasklet t)
  unfolding dpu_start
  run_tasklets-IsDone ids t caches m h =
      elim (run_tasklets-IsProgress ids t (dpu_start m caches)).1 [
        | inl d ↦ d
        | inr g ↦ omega (
          arith,
          g,
          h,
          low_potential ((run_tasklets kernel tcb ids (dpu_start m caches)).tasklet t),
        )
      ]

module _ (kernel : DpuKernel) (spec : DpuCache → DpuCache → ℕ → ℕ) (Sure : ℕ → Type 0)
    (ok : IsKernel kernel spec Sure) (tcb : DpuTcb) (pages : HasPages tcb) (m : Memory) where
  run_tasklets-IsInv :
      (ids : List ℕ) (dpu : Dpu)
      → All (λ id. id < 12) ids
      → IsInv spec Sure tcb m dpu
      → IsInv spec Sure tcb m (run_tasklets kernel tcb ids dpu)
  unfolding run_tasklets
  run_tasklets-IsInv [] dpu low inv = inv
  run_tasklets-IsInv (id ∷ ids) dpu low inv =
      run_tasklets-IsInv ids (tasklet_step kernel tcb id dpu) low.1
        (tasklet_step-IsInv kernel spec Sure ok tcb pages m id dpu low.0 inv)

  module _ (ids : List ℕ) (caches : ℕ → DpuCache) (low : All (λ id. id < 12) ids)
      (enough : (t : ℕ) → t < 12 → 2 * tcb.page_cnt + 3 ≤ 3 * count t ids) where
    final : IsInv spec Sure tcb m (run_tasklets kernel tcb ids (dpu_start m caches))
    final =
        run_tasklets-IsInv ids (dpu_start m caches) low
          (dpu_start-IsInv kernel spec Sure ok tcb pages m caches)

    pub run_items :
        (j i : ℕ)
        → j < 4 * tcb.page_cnt
        → i < 256
        → Sure i
        → (run_tasklets kernel tcb ids (dpu_start m caches)).mram
            (1024 * tcb.dst_page_idx + 256 * j + i)
          ≡ expected spec tcb m (1024 * j) i
    run_items j i p q s = final.written j i p q s (
        omega (
          arith,
          p,
          run_tasklets-IsDone kernel tcb pages ids (j % 12) caches m
              (enough (j % 12) (omega arith)),
        ))

    -- All the items, where every item of the cache is computed.
    pub run_tasklets-IsFilled :
        (v : ℕ → ℕ)
        → ((i : ℕ) → Sure i)
        → ((j i : ℕ) → i < 256 → expected spec tcb m (1024 * j) i ≡ v (256 * j + i))
        → IsFilled
            (1024 * tcb.dst_page_idx)
            (1024 * tcb.page_cnt)
            v
            m
            (run_tasklets kernel tcb ids (dpu_start m caches)).mram
    run_tasklets-IsFilled v sure e = record {
      inside = λ i h.
          let split : 1024 * tcb.dst_page_idx + i
              ≡ 1024 * tcb.dst_page_idx + 256 * (i / 256) + i % 256 =
            omega arith in
          let whole : 256 * (i / 256) + i % 256 ≡ i = omega arith in
          ap (run_tasklets kernel tcb ids (dpu_start m caches)).mram split
          ∙ run_items (i / 256) (i % 256) (omega (arith, h)) (omega arith) (sure (i % 256))
          ∙ e (i / 256) (i % 256) (omega arith)
          ∙ ap v whole;
      outside = final.outside;
    }

    pub run_outside :
        (a : ℕ)
        → Off (1024 * tcb.dst_page_idx) (1024 * tcb.page_cnt) a
        → (run_tasklets kernel tcb ids (dpu_start m caches)).mram a ≡ m a
    run_outside = final.outside
