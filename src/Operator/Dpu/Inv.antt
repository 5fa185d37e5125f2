-- ===== src/Operator/Dpu/Inv.antt =====
-- The invariant of a DPU's tasklets.
pub mod Step
use meta_pb.Common.{
  ℕ, ◌+◌, ◌*◌, ◌%◌, ◌≤◌, ◌<◌, ◌≡◌, ◌≢◌, arith, true, ◌==◌, Bool-cases, inl, inr, ℕ_discrete, ==_iff,
}
use meta_pb.Operator.Pages.{DpuTcb}
use meta_pb.Operator.Memory.{Memory}
use meta_pb.Operator.Memory.Writers.{Off}
use meta_pb.Operator.Kernels.Host.{Disjoint}
use meta_pb.Operator.Dpu.{
  Dpu, Tasklet, DpuCache, DpuKernel, mram_read, dpu_max_offset, dpu_chunk, set_tasklet,
}

-- The pages of a task: at most those of a DPU, and the destination's shares no word with a source's.
pub record HasPages (tcb : DpuTcb) : Type 0 where
  pub few : tcb.page_cnt ≤ 15360
  pub src1_apart :
      Disjoint
        (1024 * tcb.src1_page_idx)
        (1024 * tcb.page_cnt)
        (1024 * tcb.dst_page_idx)
        (1024 * tcb.page_cnt)
  pub src2_apart :
      Disjoint
        (1024 * tcb.src2_page_idx)
        (1024 * tcb.page_cnt)
        (1024 * tcb.dst_page_idx)
        (1024 * tcb.page_cnt)

-- `spec a b` is what the kernel computes from the caches `a` and `b` at the items that satisfy `Sure`,
-- whatever the destination's cache held.
abbrev pub IsKernel : DpuKernel → (DpuCache → DpuCache → ℕ → ℕ) → (ℕ → Type 0) → Type 0
IsKernel kernel spec Sure =
    (a b c : DpuCache) (i : ℕ) → i < 256 → Sure i → kernel a b c i ≡ spec a b i

-- Item `i` of the chunk at `byte_index`, from the memory as it was.
abbrev pub expected : (DpuCache → DpuCache → ℕ → ℕ) → DpuTcb → Memory → ℕ → ℕ → ℕ
expected spec tcb m byte_index i =
    spec (mram_read m (dpu_chunk tcb.src1_page_idx byte_index))
      (mram_read m (dpu_chunk tcb.src2_page_idx byte_index)) i

pub max_offset_exact : (tcb : DpuTcb) → HasPages tcb → dpu_max_offset tcb ≡ 4096 * tcb.page_cnt
unfolding dpu_max_offset
max_offset_exact tcb h = omega (arith, h.few)

-- Each tasklet stands at a chunk of its own, has written those before it, and holds the items of its
-- chunk when it is loaded; only the destination has changed.
pub record IsInv (spec : DpuCache → DpuCache → ℕ → ℕ) (Sure : ℕ → Type 0) (tcb : DpuTcb)
    (m : Memory) (dpu : Dpu) : Type 0 where
  pub outside : (a : ℕ) → Off (1024 * tcb.dst_page_idx) (1024 * tcb.page_cnt) a → dpu.mram a ≡ m a
  pub own : (t : ℕ) → t < 12 → (dpu.tasklet t).byte_index % 12288 ≡ 1024 * t
  pub written :
      (j i : ℕ)
      → j < 4 * tcb.page_cnt
      → i < 256
      → Sure i
      → 1024 * j < (dpu.tasklet (j % 12)).byte_index
      → dpu.mram (1024 * tcb.dst_page_idx + 256 * j + i) ≡ expected spec tcb m (1024 * j) i
  pub held :
      (t i : ℕ)
      → t < 12
      → i < 256
      → Sure i
      → (dpu.tasklet t).byte_index < 4096 * tcb.page_cnt
      → (dpu.tasklet t).loaded ≡ true
      → (dpu.tasklet t).cache i ≡ expected spec tcb m (dpu.tasklet t).byte_index i

-- What holds of the new tasklet and of the others holds after an update.
pub set_tasklet_elim :
    (P : Tasklet → Type 0) (id : ℕ) (new : Tasklet) (f : ℕ → Tasklet) (t : ℕ)
    → (t ≡ id → P new)
    → (t ≢ id → P (f t))
    → P (set_tasklet id new f t)
unfolding set_tasklet
set_tasklet_elim P id new f t y n = elim (ℕ_discrete t id) [
  | yes e ↦ let q : (t == id) ≡ true = (==_iff t id).1 e in rw q (y e)
  | no ne ↦ elim (Bool-cases (t == id)) [
    | inl q ↦ absurd (ne ((==_iff t id).0 q))
    | inr q ↦ rw q (n ne)
  ]
]
