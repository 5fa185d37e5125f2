-- ===== src/Executor/Run/Fair.antt =====
-- Rounds of steps, each of which lets every thread step, and the work that is left after them.
use meta_pb.Common.{
  ℕ, ◌+◌, ◌≤◌, ◌<◌, ◌≡◌, refl, List, [], ◌∷◌, ◌++◌, arith, true, false, Bool-cases, inl, inr,
  length, ap, ◌∙◌, In, All, dec_lt, if◌then◌else◌,
}
use mathlib.Core.List.{flatten}
use meta_pb.Common.Real.{Real}
use meta_pb.Executor.Perf.{PerfModel}
use meta_pb.Executor.Pool.{Worker, cpu_thread, dpu_thread, map_thread, reduce_thread}
use meta_pb.Executor.Run.{System, step, run}
use meta_pb.Executor.Run.Frame.{step-dependencies}
use meta_pb.Executor.Run.Inv.{Inv}
use meta_pb.Executor.Run.Inv.Keep.{run-Inv}
use meta_pb.Executor.Run.Measure.{
  enabled, steps_left, blocked-enabled, blocked-steps_left, enabled-steps_left,
}
use meta_pb.Executor.Run.Sleep.{Alert, step-Alert}
use meta_pb.Executor.Run.Progress.{IsTopological, no_deadlock}

-- Each of the four threads has a step in the round.
abbrev pub IsRound : List Worker → Type 0
IsRound ws = In cpu_thread ws × In dpu_thread ws × In map_thread ws × In reduce_thread ws

IsRound-In : (ws : List Worker) (w : Worker) → IsRound ws → In w ws
IsRound-In ws cpu_thread h = h.0
IsRound-In ws dpu_thread h = h.1
IsRound-In ws map_thread h = h.2
IsRound-In ws reduce_thread h = h.3

module _ {R : Real} (om : PerfModel R) where
  pub run-append :
      (s : System R) (us ws : List Worker) → run om s (us ++ ws) ≡ run om (run om s us) ws
  unfolding run
  run-append s [] ws = refl
  run-append s (u ∷ us) ws = run-append (step om s u) us ws

  pub run-dependencies :
      (s : System R) (ws : List Worker) → (run om s ws).pool.dependencies ≡ s.pool.dependencies
  unfolding run
  run-dependencies s [] = refl
  run-dependencies s (w ∷ ws) = run-dependencies (step om s w) ws ∙ step-dependencies om s w

  -- Every sleeper waits for what is not complete.
  abbrev pub AllAlert : System R → Type 0
  AllAlert s = (v : Worker) → Alert s v (s.pc v)

  step-AllAlert : (s : System R) (w : Worker) → AllAlert s → AllAlert (step om s w)
  step-AllAlert s w a v = step-Alert om s w v a

  run-AllAlert : (s : System R) (ws : List Worker) → AllAlert s → AllAlert (run om s ws)
  unfolding run
  run-AllAlert s [] a = a
  run-AllAlert s (w ∷ ws) a = run-AllAlert (step om s w) ws (step-AllAlert s w a)

  step-steps_left-le :
      (s : System R) (w : Worker) → AllAlert s → steps_left (step om s w) ≤ steps_left s
  step-steps_left-le s w a = elim (Bool-cases (enabled s w)) [
    | inl on ↦ omega (arith, enabled-steps_left om s w (a w) on)
    | inr off ↦ omega (arith, blocked-steps_left om s w off)
  ]

  run-steps_left-le :
      (s : System R) (ws : List Worker) → AllAlert s → steps_left (run om s ws) ≤ steps_left s
  unfolding run
  run-steps_left-le s [] a = omega arith
  run-steps_left-le s (w ∷ ws) a =
      omega
        (arith, run-steps_left-le (step om s w) ws (step-AllAlert s w a), step-steps_left-le s w a)

  -- An enabled thread stays so until something moves.
  round-moves :
      (s : System R) (w : Worker) (ws : List Worker)
      → AllAlert s
      → enabled s w ≡ true
      → In w ws
      → steps_left (run om s ws) < steps_left s
  unfolding run
  round-moves s w [] a on m = absurd m
  round-moves s w (u ∷ us) a on m = elim (Bool-cases (enabled s u)) [
    | inl moves ↦ omega (
      arith,
      run-steps_left-le (step om s u) us (step-AllAlert s u a),
      enabled-steps_left om s u (a u) moves,
    )
    | inr blocked ↦ elim m [
      | inl here ↦ absurd (off (ap (enabled s) here ∙ blocked))
      | inr later ↦ omega (
        arith,
        round-moves (step om s u) w us (step-AllAlert s u a) (blocked-enabled om s u w blocked ∙ on)
            later,
        blocked-steps_left om s u blocked,
      )
    ]
  ]
    where
      off : ¬ (enabled s w ≡ false)
      off h = cc

  -- As many rounds as steps are left bring every thread to its end.
  pub rounds_end :
      (order : List ℕ) (s : System R) (rounds : List (List Worker))
      → Inv order s
      → AllAlert s
      → IsTopological s.pool.dependencies order
      → All IsRound rounds
      → steps_left s ≤ length rounds
      → steps_left (run om s (flatten rounds)) ≡ 0
  unfolding run flatten
  rounds_end order s [] inv a topo h n = omega arith
  rounds_end order s (ws ∷ rounds) inv a topo h n = rw (run-append s ws (flatten rounds)) (
      rounds_end order (run om s ws) rounds (run-Inv om order s ws inv) (run-AllAlert s ws a)
        (rw (run-dependencies s ws) topo) h.1 (shorter (dec_lt 0 (steps_left s))))
    where
      shorter : Dec (0 < steps_left s) → steps_left (run om s ws) ≤ length rounds
      shorter (yes left) =
          let (w, on) = no_deadlock inv topo (λ e. absurd (omega arith)) in
          omega (arith, round-moves s w ws a on (IsRound-In ws w h.0))
      shorter (no none_left) = omega (arith, run-steps_left-le s ws a)

  -- The steps of an interleaving that move their thread on.
  pub moves : System R → List Worker → ℕ
  moves s [] = 0
  moves s (w ∷ ws) = (if enabled s w then 1 else 0) + moves (step om s w) ws

  pub moves-steps_left :
      (s : System R) (ws : List Worker)
      → AllAlert s
      → moves s ws + steps_left (run om s ws) ≡ steps_left s
  unfolding moves run
  moves-steps_left s [] a = omega arith
  moves-steps_left s (w ∷ ws) a = elim (Bool-cases (enabled s w)) [
    | inl on ↦ rw on (
        omega (
          arith,
          moves-steps_left (step om s w) ws (step-AllAlert s w a),
          enabled-steps_left om s w (a w) on,
        ))
    | inr off ↦ rw off (
        omega (
          arith,
          moves-steps_left (step om s w) ws (step-AllAlert s w a),
          blocked-steps_left om s w off,
        ))
  ]
