-- ===== src/Decimal.antt =====
-- `Decimal` of @prisma/client/runtime/library (decimal.js), which is not part of the repository: the
-- operations that the services call, and the laws that exact arithmetic has.
use stock_flow.Prelude.{ℕ, ◌+◌, ◌*◌, ◌/◌, ◌≡◌, Bool, false, arith, ◌==◌}

-- The operations. A quantity is an integer of at least zero where an amount meets it.
pub record Decimal (D : Type 0) : Type 0 where
  -- `new Decimal(0)`
  pub nought : D
  pub add : D → D → D
  -- `a.mul(n)` and `a.div(n)` at a whole number n
  pub times : D → ℕ → D
  pub over : D → ℕ → D
  pub is_zero : D → Bool
  pub is_negative : D → Bool
  -- what a column of type Decimal(18, 4) keeps of a value
  pub column : D → D

-- Arithmetic without loss: decimal.js is exact as long as no result needs more than its 20
-- significant digits.
pub record IsExact (D : Type 0) ⦃d : Decimal D⦄ : Type 0 where
  pub add_assoc : (a b c : D) → d.add (d.add a b) c ≡ d.add a (d.add b c)
  pub add_comm : (a b : D) → d.add a b ≡ d.add b a
  pub nought-add : (a : D) → d.add d.nought a ≡ a
  pub times-zero : (a : D) → d.times a 0 ≡ d.nought
  pub times-add : (a : D) (m n : ℕ) → d.times a (m + n) ≡ d.add (d.times a m) (d.times a n)

-- Amounts of at least zero in whole units, an instance with all the laws.
instance abbrev pub units_decimal : Decimal ℕ
units_decimal = record {
  nought = 0;
  add = λ a b. a + b;
  times = λ a n. a * n;
  over = λ a n. a / n;
  is_zero = λ a. a == 0;
  is_negative = λ a. false;
  column = λ a. a;
}

pub units-IsExact : IsExact ℕ
units-IsExact = record {
  add_assoc = λ a b c. omega arith;
  add_comm = λ a b. omega arith;
  nought-add = λ a. omega arith;
  times-zero = λ a. omega arith;
  times-add = λ a m n. omega arith;
}
