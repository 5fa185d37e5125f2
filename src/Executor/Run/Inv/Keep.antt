-- ===== src/Executor/Run/Inv/Keep.antt =====
-- Runs, and the invariant.
use meta_pb.Common.{ℕ, List, [], ◌∷◌}
use meta_pb.Common.Real.{Real}
use meta_pb.Executor.Perf.{PerfModel}
use meta_pb.Executor.Pool.{Worker}
use meta_pb.Executor.Run.{System, step, run}
use meta_pb.Executor.Run.Inv.{Inv}
use meta_pb.Executor.Run.Inv.Step.{step-split, step-Marked, step-Known, step-passed, step-wakers}
use meta_pb.Executor.Run.Inv.Mutex.{step-mutex}

module _ {R : Real} (om : PerfModel R) (order : List ℕ) where
  pub step-Inv : (s : System R) (u : Worker) → Inv order s → Inv order (step om s u)
  step-Inv s u v = record {
    split = λ w. step-split om order s u w (v.split w);
    marked = λ w. step-Marked om s u w (v.marked w);
    known = λ w. step-Known om s u w (v.known w);
    wakers = λ w x. step-wakers om s u w x (v.passed u) (v.wakers w x);
    passed = λ w. step-passed om s u w (v.passed u) (v.passed w);
    owner = λ w. (step-mutex om s u w v.owner v.held).0;
    held = λ w. (step-mutex om s u w v.owner v.held).1;
  }

  pub run-Inv : (s : System R) (ws : List Worker) → Inv order s → Inv order (run om s ws)
  unfolding run
  run-Inv s [] v = v
  run-Inv s (w ∷ ws) v = run-Inv (step om s w) ws (step-Inv s w v)
