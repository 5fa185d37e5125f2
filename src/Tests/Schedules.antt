-- ===== src/Tests/Schedules.antt =====
-- Concrete schedules, for the tests of the kernels.
use meta_pb.Common.{
  ℕ, zero, suc, ◌+◌, ◌≤◌, ◌<◌, ◌≡◌, inl, inr, List, [], ◌∷◌, ◌++◌, In, Distinct, arith, ℕ_discrete,
}
use meta_pb.Operator.Memory.{IsSchedule}
use meta_pb.Operator.Pages.{DpuTcb}
use meta_pb.Operator.Dpu.Run.{count}
use meta_pb.Operator.Dpu.Programs.{IsComplete}

-- n - 1, ..., 1, 0
abbrev pub countdown : ℕ → List ℕ
countdown zero = []
countdown (suc n) = n ∷ countdown n

countdown_below : (n k : ℕ) → In k (countdown n) → k < n
countdown_below zero k p = absurd p
countdown_below (suc n) k (inl e) = omega (arith, e)
countdown_below (suc n) k (inr p) = omega (arith, countdown_below n k p)

countdown_all : (n k : ℕ) → k < n → In k (countdown n)
countdown_all zero k h = absurd (omega (arith, h))
countdown_all (suc n) k h = elim (ℕ_discrete k n) [
  | yes e ↦ inl e
  | no ne ↦ inr (countdown_all n k (omega (arith, h, ne)))
]

Distinct-countdown : (n : ℕ) → Distinct (countdown n)
Distinct-countdown zero = tt
Distinct-countdown (suc n) =
    ((λ p. absurd (omega (arith, countdown_below n n p))), Distinct-countdown n)

pub countdown-IsSchedule : IsSchedule countdown
countdown-IsSchedule n = ((λ k. (countdown_all n k, countdown_below n k)), Distinct-countdown n)

-- Each of the twelve tasklets twice.
abbrev pub two_rounds : List ℕ
two_rounds = countdown 12 ++ countdown 12

count-append : (t : ℕ) (xs ys : List ℕ) → count t (xs ++ ys) ≡ count t xs + count t ys
count-append t [] ys = omega arith
count-append t (x ∷ xs) ys = omega (arith, count-append t xs ys)

count-countdown : (n t : ℕ) → t < n → 1 ≤ count t (countdown n)
count-countdown zero t h = absurd (omega (arith, h))
count-countdown (suc n) t h = elim (ℕ_discrete t n) [
  | yes e ↦ ground (arith, e)
  | no ne ↦ omega (arith, count-countdown n t (omega (arith, h, ne)))
]

pub two_rounds-IsComplete : (tcb : DpuTcb) → tcb.page_cnt ≡ 1 → IsComplete tcb two_rounds
two_rounds-IsComplete tcb e = (
  ground arith,
  (λ t h. omega (arith, e, count-append t (countdown 12) (countdown 12), count-countdown 12 t h)),
)
