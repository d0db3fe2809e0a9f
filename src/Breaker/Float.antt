-- ===== src/Breaker/Float.antt =====
-- The arithmetic of Python's floats, as far as the program uses it: the operations, and the laws of
-- IEEE 754 that the theorems rest on. They hold for the finite values of the program, rounding
-- included: a comparison is a total order, and addition and multiplication by what is not negative
-- keep an order.
use uxon.Prelude.{ℕ, ◌≡◌, Bool, true, false}

pub record Floats : Type 1 where
  pub Num : Type 0
  -- a literal
  pub number : ℕ → Num
  pub add : Num → Num → Num
  pub sub : Num → Num → Num
  pub mul : Num → Num → Num
  pub div : Num → Num → Num
  pub neg : Num → Num
  pub lt : Num → Num → Bool

-- a ≤ b
abbrev pub Le : (fl : Floats) → fl.Num → fl.Num → Type 0
Le fl a b = fl.lt b a ≡ false

pub record FloatLaws (fl : Floats) : Type 0 where
  pub lt_irrefl : (a : fl.Num) → fl.lt a a ≡ false
  pub lt_asymm : (a b : fl.Num) → fl.lt a b ≡ true → fl.lt b a ≡ false
  pub le_trans : (a b c : fl.Num) → Le fl a b → Le fl b c → Le fl a c
  pub add_mono : (a b c : fl.Num) → Le fl a b → Le fl (fl.add c a) (fl.add c b)
  pub mul_mono :
      (a b c : fl.Num) → Le fl (fl.number 0) c → Le fl a b → Le fl (fl.mul a c) (fl.mul b c)
