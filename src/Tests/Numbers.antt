-- ===== src/Tests/Numbers.antt =====
-- Whole numbers in the place of floating-point ones, for tests.
use meta_pb.Common.{ℕ, ◌+◌, ◌-◌, ◌*◌, ◌/◌, ltb, arith}
use native.Mathlib.Nat.{zero-div}
use meta_pb.Common.Real.{Real, OrderLaws, AddLaws, ZeroLaws}

abbrev pub nat_real : Real
nat_real = record {
  Num = ℕ;
  zero = 0;
  one = 1;
  add = ◌+◌;
  sub = ◌-◌;
  mul = ◌*◌;
  div = ◌/◌;
  lt = ltb;
  of_ℕ = λ n. n;
  trunc = λ n. n;
}

pub nat_order : OrderLaws nat_real
nat_order = record {
  lt_irrefl = λ a. ground arith;
  lt_asym = λ a b h. ground arith;
  le_trans = λ a b c h k. ground arith;
}

pub nat_add : AddLaws nat_real
nat_add = record { le_add = λ a b h. ground arith }

pub nat_zero : ZeroLaws nat_real
nat_zero = record {
  mul_zero = λ a. omega arith;
  zero_div = λ n. zero-div n;
  add_zero = λ a. omega arith;
}
