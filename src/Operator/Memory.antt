-- ===== src/Operator/Memory.antt =====
-- What the operators' code computes with: 32-bit words, memory, and loops. An `int` is its
-- two's-complement word, and its operations wrap. Memory holds a word at each word index, the address
-- divided by four: the pages are aligned. `parallel` is an `omp parallel for`, which runs its
-- iterations in the order that OpenMP chooses.
pub mod Writers
pub mod Tiles
use meta_pb.Common.{
  ℕ, zero, suc, ◌+◌, ◌-◌, ◌*◌, ◌/◌, ◌%◌, ◌^◌, ◌<◌, List, [], ◌∷◌, if◌then◌else◌, ltb, ◌==◌, In,
  Distinct, ◌↔◌,
}

unfoldable pub add32 : ℕ → ℕ → ℕ
add32 a b = (a + b) % 2 ^ 32

unfoldable pub sub32 : ℕ → ℕ → ℕ
sub32 a b = (a % 2 ^ 32 + 2 ^ 32 - b % 2 ^ 32) % 2 ^ 32

unfoldable pub mul32 : ℕ → ℕ → ℕ
mul32 a b = (a * b) % 2 ^ 32

-- `int` division, which rounds towards zero: a word from 2 ^ 31 on stands for a negative value.
unfoldable pub div_int : ℕ → ℕ → ℕ
div_int a d = if ltb a (2 ^ 31) then a / d else sub32 0 ((2 ^ 32 - a) / d)

abbrev pub Memory : Type 0
Memory = ℕ → ℕ

abbrev pub word_index : ℕ → ℕ
word_index address = address / 4

unfoldable pub store : Memory → ℕ → ℕ → Memory
store m a v = λ x. if x == a then v else m x

-- The rounds of a loop that counts up from `first`, each on the state that the one before has left.
unfoldable pub counted : {S : Type 0} → (rounds first : ℕ) → (ℕ → S → S) → S → S
counted zero first round state = state
counted (suc rounds) first round state = counted rounds (first + 1) round (round first state)

unfoldable pub parallel : List ℕ → (ℕ → Memory → Memory) → Memory → Memory
parallel [] body m = m
parallel (k ∷ ks) body m = parallel ks body (body k m)

-- What OpenMP promises of the order of `n` iterations: each runs once.
abbrev pub IsSchedule : (ℕ → List ℕ) → Type 0
IsSchedule schedule = (n : ℕ) → ((k : ℕ) → (k < n) ↔ In k (schedule n)) × Distinct (schedule n)
