-- ===== src/Base/Floats.antt =====
-- `double` as an interface: the carrier and the operations that the code uses, with no laws. The
-- comparisons are Boolean tests, so that a NaN may fail them all. What a theorem relies on stands
-- in `SlabLaws`, on numbers in the range of `int`: what multiplication of IEEE doubles, rounded to
-- nearest, their comparison and the conversion to `int` promise there.
use Prim.Native.Nat.{ℕ, ◌+◌, ◌-◌, ◌*◌, ◌/◌, ◌≤◌, ◌<◌, ◌^◌}
use mathlib.Core.Path.{◌≡◌, refl}
use mathlib.Core.Bool.{Bool, true}
use native.Mathlib.Omega.{arith}
use dmg_md.Base.Tests.{ltb, leb, ◌==◌, if◌then◌else◌}
use dmg_md.Base.Int.{ℤ, pos, pos_part}

pub record Floats : Type 1 where
  pub Double : Type 0
  pub add : Double → Double → Double
  pub sub : Double → Double → Double
  pub mul : Double → Double → Double
  pub div : Double → Double → Double
  pub abs : Double → Double
  pub ltd : Double → Double → Bool
  pub led : Double → Double → Bool
  pub eqd : Double → Double → Bool
  pub is_finite : Double → Bool
  pub of_int : ℤ → Double
  -- `static_cast<int>`: rounds towards zero.
  pub to_int : Double → ℤ

module _ (F : Floats) where
  open F use {Double, add, mul, ltd, led, of_int, to_int}

  -- `std::min` and `std::max`.
  unfoldable pub min_d : Double → Double → Double
  min_d a b = if ltd b a then b else a

  unfoldable pub max_d : Double → Double → Double
  max_d a b = if ltd a b then b else a

  -- What the slab arithmetic relies on, for a count below 2^31: its product with a fraction in [0, 1]
  -- stays in [0, count], and truncation of a number in [0, count] takes its integer part.
  pub record SlabLaws : Type 0 where
    pub mul_nonneg :
        (s : Double) (n : ℕ)
        → n < 2 ^ 31
        → led (of_int (pos 0)) s ≡ true
        → led s (of_int (pos 1)) ≡ true
        → led (of_int (pos 0)) (mul s (of_int (pos n))) ≡ true
    pub mul_le :
        (s : Double) (n : ℕ)
        → n < 2 ^ 31
        → led (of_int (pos 0)) s ≡ true
        → led s (of_int (pos 1)) ≡ true
        → led (mul s (of_int (pos n))) (of_int (pos n)) ≡ true
    pub below_int :
        (x : Double) (a b : ℕ)
        → a < 2 ^ 31
        → b ≤ a
        → led (of_int (pos a)) x ≡ true
        → led (of_int (pos b)) x ≡ true
    pub truncates :
        (x : Double) (n : ℕ)
        → n < 2 ^ 31
        → led (of_int (pos 0)) x ≡ true
        → led x (of_int (pos n)) ≡ true
        → (k : ℕ) × (to_int x ≡ pos k)
          × (k ≤ n)
          × (led (of_int (pos k)) x ≡ true)
          × (ltd x (of_int (pos (k + 1))) ≡ true)

-- Unsigned fixed-point numbers with three decimals, for evaluation: subtraction stops at 0.
abbrev pub milli : Floats
milli = record {
  Double = ℕ;
  add = λ a b. a + b;
  sub = λ a b. a - b;
  mul = λ a b. (a * b) / 1000;
  div = λ a b. (a * 1000) / b;
  abs = λ a. a;
  ltd = ltb;
  led = leb;
  eqd = λ a b. a == b;
  is_finite = λ _. true;
  of_int = λ z. pos_part z * 1000;
  to_int = λ a. pos (a / 1000);
}

scaled_le : (s m : ℕ) → s ≤ 1000 → s * m ≤ 1000 * m
scaled_le s m h = grind arith

milli_mul_le : (s n : ℕ) → leb s 1000 ≡ true → leb ((s * (n * 1000)) / 1000) (n * 1000) ≡ true
milli_mul_le s n h = ground (arith, scaled_le s (n * 1000) (ground arith))

milli_truncates :
    (x : ℕ) → (leb ((x / 1000) * 1000) x ≡ true) × (ltb x ((x / 1000 + 1) * 1000) ≡ true)
milli_truncates x = ground arith

pub milli-SlabLaws : SlabLaws milli
milli-SlabLaws = record {
  mul_nonneg = λ s n small h k. ground arith;
  mul_le = λ s n small h k. milli_mul_le s n k;
  below_int = λ x a b small h e. ground arith;
  truncates =
      λ x n small h k. (x / 1000, refl, ground arith, (milli_truncates x).0, (milli_truncates x).1);
}
