-- ===== src/Operator/Dpu/Distance.antt =====
-- The DPU program of EUDIST, src/Operator/dpu/EUDIST.c, which writes its result after the loop. Of a
-- tasklet, `loaded` says here that it has written.
use meta_pb.Common.{
  ℕ, ◌+◌, ◌*◌, ◌≡◌, refl, ◌∙◌, List, [], ◌∷◌, true, false, if◌then◌else◌, ltb, ◌==◌, Bool-cases,
  inl, inr,
}
use meta_pb.Operator.Pages.{u32, DpuTcb}
use meta_pb.Operator.Memory.{add32, sub32, mul32, counted}
use meta_pb.Operator.Memory.Writers.{Off}
use meta_pb.Operator.Kernels.{dpu_dma_bffr_byte, page_item_num}
use meta_pb.Operator.Dpu.{
  nr_tasklets, DpuCache, DpuKernel, Dpu, mram_read, mram_write, dpu_max_offset, dpu_chunk,
  set_tasklet,
}
use meta_pb.Operator.Dpu.Inv.Step.{mram_write-Off}

unfoldable pub eudist_round : DpuCache → DpuCache → ℕ → ℕ → ℕ
eudist_round src1 src2 j sum = add32 sum (mul32 (sub32 (src2 j) (src1 j)) (sub32 (src2 j) (src1 j)))

unfoldable pub eudist_dpu : DpuKernel
eudist_dpu src1 src2 dst =
    λ i. if i == 0 then counted page_item_num 0 (eudist_round src1 src2) 0 else dst i

module _ (tcb : DpuTcb) where
  -- A round of the loop.
  unfoldable pub eudist_load : ℕ → Dpu → Dpu
  eudist_load id dpu =
      let t = dpu.tasklet id in
      record {
        mram = dpu.mram;
        tasklet =
            set_tasklet id
              (record {
                byte_index = u32 (t.byte_index + dpu_dma_bffr_byte * nr_tasklets);
                loaded = false;
                cache =
                    eudist_dpu (mram_read dpu.mram (dpu_chunk tcb.src1_page_idx t.byte_index))
                      (mram_read dpu.mram (dpu_chunk tcb.src2_page_idx t.byte_index)) t.cache;
              })
              dpu.tasklet;
      }

  -- The write behind the loop: `myDst` is the base of the destination.
  unfoldable pub eudist_write : ℕ → Dpu → Dpu
  eudist_write id dpu =
      let t = dpu.tasklet id in
      record {
        mram = mram_write t.cache dpu.mram (dpu_chunk tcb.dst_page_idx 0);
        tasklet =
            set_tasklet id (record { byte_index = t.byte_index; loaded = true; cache = t.cache })
              dpu.tasklet;
      }

  unfoldable pub eudist_step : ℕ → Dpu → Dpu
  eudist_step id dpu =
      let t = dpu.tasklet id in
      if ltb t.byte_index (dpu_max_offset tcb)
      then eudist_load id dpu
      else (if t.loaded then dpu else eudist_write id dpu)

  unfoldable pub run_eudist : List ℕ → Dpu → Dpu
  run_eudist [] dpu = dpu
  run_eudist (id ∷ ids) dpu = run_eudist ids (eudist_step id dpu)

  eudist_step-mram :
      (id : ℕ) (dpu : Dpu) (a : ℕ)
      → Off (dpu_chunk tcb.dst_page_idx 0) 256 a
      → (eudist_step id dpu).mram a ≡ dpu.mram a
  unfolding eudist_step eudist_load eudist_write
  eudist_step-mram id dpu a off =
      elim (Bool-cases (ltb (dpu.tasklet id).byte_index (dpu_max_offset tcb))) [
        | inl y ↦ rw y refl
        | inr n ↦ elim (Bool-cases (dpu.tasklet id).loaded) [
          | inl l ↦ rw (n, l) refl
          | inr l ↦
              rw (n, l)
                (mram_write-Off (dpu.tasklet id).cache dpu.mram (dpu_chunk tcb.dst_page_idx 0) a
                  off)
        ]
      ]

  -- Whatever the tasklets do, EUDIST on a DPU changes only the first chunk of the destination: the
  -- chunks behind it never get their distances.
  pub run_eudist-mram :
      (ids : List ℕ) (dpu : Dpu) (a : ℕ)
      → Off (dpu_chunk tcb.dst_page_idx 0) 256 a
      → (run_eudist ids dpu).mram a ≡ dpu.mram a
  unfolding run_eudist
  run_eudist-mram [] dpu a off = refl
  run_eudist-mram (id ∷ ids) dpu a off =
      run_eudist-mram ids (eudist_step id dpu) a off ∙ eudist_step-mram id dpu a off
