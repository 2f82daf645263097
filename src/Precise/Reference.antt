-- ===== src/Precise/Reference.antt =====
-- A concrete `PreciseNumber`, on which the programs run in the tests, and which shows that the
-- assumptions can be met.
use native.Mathlib.Nat.{div-add-mod, mod-lt}
use human_program_library.Base.{
  ℕ, ◌+◌, ◌-◌, ◌*◌, ◌/◌, ◌≤◌, ◌<◌, ◌≡◌, ◌≢◌, refl, Option, none, some, arith, leb, ◌==◌,
  if◌then◌else◌,
}
use human_program_library.Precise.{PreciseNumber, one}

abbrev pub half : ℕ
half = 500_000_000_000

abbrev pub quotient : ℕ → ℕ → Option ℕ
quotient a b = if b == 0 then none else some ((a * one + half) / b)

pub quotient_lem :
    (a b : ℕ)
    → b ≢ 0
    → (c : ℕ) × (quotient a b ≡ some c)
      × (2 * (c * b) ≤ 2 * (a * one) + one)
      × (a * one < (c + 1) * b)
quotient_lem a b h = (
  (a * one + half) / b,
  ground arith,
  omega (arith, div-add-mod (a * one + half) b),
  grind (arith, div-add-mod (a * one + half) b, mod-lt),
)

pub quotient_zero : (a b : ℕ) → b ≡ 0 → quotient a b ≡ none
quotient_zero a b h = ground arith

pub round_le : (a : ℕ) → 2 * ((a + half) / one * one) ≤ 2 * a + one
round_le a = omega arith

pub round_lt : (a : ℕ) → 2 * a < 2 * ((a + half) / one * one) + one
round_lt a = omega arith

pub difference_lem : (a b : ℕ) → b ≤ a → (if leb b a then some (a - b) else none) ≡ some (a - b)
difference_lem a b h = ground arith

abbrev pub reference : PreciseNumber
reference = record {
  Num = ℕ;
  value = λ n. n;
  new = λ n. some (n * one);
  add = λ a b. some (a + b);
  sub = λ a b. if leb b a then some (a - b) else none;
  mul = λ a b. some ((a * b + half) / one);
  div = quotient;
  floor = λ a. some (a / one * one);
  to_imprecise = λ a. some ((a + half) / one);
  less_than_or_equal = leb;
  new_lem = λ n h. (n * one, refl, refl);
  add_lem = λ a b h. (a + b, refl, refl);
  sub_lem = λ a b h. (a - b, difference_lem a b h, refl);
  mul_lem = λ a b h. ((a * b + half) / one, refl, round_le (a * b), round_lt (a * b));
  div_lem = λ a b h k. quotient_lem a b h;
  div_zero = quotient_zero;
  floor_lem = λ a. (a / one * one, refl, refl);
  to_imprecise_lem = λ a h. ((a + half) / one, refl, round_le a, round_lt a);
  le_lem = λ a b. refl;
}
