-- ===== src/Common/Real.antt =====
-- The program's `float` and `double` values: a type with the operations that the source applies to
-- it, and, apart from them, the laws of IEEE 754 values other than NaN that the theorems use. An
-- operation is the rounded one, so no law says that addition is associative.
use Prim.Native.Nat.{ℕ}
use mathlib.Core.Path.{◌≡◌, sym, ◌∙◌}
use mathlib.Core.List.{List, [], ◌∷◌}
use mathlib.Core.Logic.{inl, inr}
use mathlib.Core.Bool.{Bool, true, false, false≢true}
use meta_pb.Common.Tests.{if◌then◌else◌, Bool-cases}

pub record Real : Type 1 where
  pub Num : Type 0
  pub zero : Num
  pub one : Num
  pub add : Num → Num → Num
  pub sub : Num → Num → Num
  pub mul : Num → Num → Num
  pub div : Num → Num → Num
  pub lt : Num → Num → Bool
  pub of_ℕ : ℕ → Num
  -- A conversion to an unsigned integer type, which drops the fraction.
  pub trunc : Num → ℕ

module _ (R : Real) where
  open R use {Num, zero, add, sub, lt}

  -- `std::max` and `std::min`.
  abbrev pub max_num : Num → Num → Num
  max_num a b = if lt a b then b else a

  abbrev pub min_num : Num → Num → Num
  min_num a b = if lt b a then b else a

  -- The sum of some numbers, from a first one on.
  abbrev pub sum_from : Num → List Num → Num
  sum_from a [] = a
  sum_from a (x ∷ xs) = sum_from (add a x) xs

  -- `a` is not above `b`.
  abbrev pub Le : Num → Num → Type 0
  Le a b = lt b a ≡ false

  pub record OrderLaws : Type 0 where
    pub lt_irrefl : (a : Num) → lt a a ≡ false
    pub lt_asym : (a b : Num) → lt a b ≡ true → lt b a ≡ false
    pub le_trans : (a b c : Num) → Le a b → Le b c → Le a c

  -- Rounding is monotone: adding what is not negative does not go down.
  pub record AddLaws : Type 0 where
    pub le_add : (a b : Num) → Le zero b → Le a (add a b)

  -- Exact where a factor is zero.
  pub record ZeroLaws : Type 0 where
    pub mul_zero : (a : Num) → R.mul a (R.of_ℕ 0) ≡ zero
    pub zero_div : (n : ℕ) → R.div zero (R.of_ℕ n) ≡ zero
    pub add_zero : (a : Num) → add a zero ≡ a

module _ {R : Real} (laws : OrderLaws R) where
  open R use {Num, lt}

  pub max_num-left : (a b : Num) → Le R a (max_num R a b)
  max_num-left a b = elim (Bool-cases (lt a b)) [
    | inl y ↦ rw y (laws.lt_asym a b y)
    | inr n ↦ rw n (laws.lt_irrefl a)
  ]

  pub max_num-right : (a b : Num) → Le R b (max_num R a b)
  max_num-right a b = elim (Bool-cases (lt a b)) [
    | inl y ↦ rw y (laws.lt_irrefl b)
    | inr n ↦ rw n n
  ]

  pub lt_Le : (a b : Num) → lt a b ≡ true → Le R a b
  lt_Le a b h = laws.lt_asym a b h

  pub lt_trans : (a b c : Num) → lt a b ≡ true → lt b c ≡ true → lt a c ≡ true
  lt_trans a b c h k = elim (Bool-cases (lt a c)) [
    | inl y ↦ y
    | inr n ↦ absurd (false≢true (sym (laws.le_trans c a b n (lt_Le a b h)) ∙ k))
  ]
