-- ===== src/Precise.antt =====
-- The decimal arithmetic of the crate `spl_math` (`PreciseNumber`), with which the programs take
-- their shares and commissions. The crate is not part of the repository, so its operations are a
-- parameter: a type of numbers, which stand for multiples of 10^-12, with the accuracy that the
-- crate documents. Products, quotients and conversions to integers are rounded.
pub mod Chain
pub mod Rounding
pub mod Portions
pub mod Reference
use human_program_library.Base.{
  ℕ, ◌+◌, ◌-◌, ◌*◌, ◌/◌, ◌≤◌, ◌<◌, ◌≡◌, ◌≢◌, Bool, Option, none, some, leb,
}

-- The number one, in units of 10^-12.
abbrev pub one : ℕ
one = 1_000_000_000_000

-- A range in which no operation overflows its 256 bits: 2 ^ 254.
abbrev pub safe_limit : ℕ
safe_limit = 0x4000000000000000000000000000000000000000000000000000000000000000

-- 2 ^ 128, the bound of the integers that `new` takes and `to_imprecise` returns.
abbrev pub u128_limit : ℕ
u128_limit = 0x100000000000000000000000000000000

pub record PreciseNumber : Type 1 where
  pub Num : Type 0
  pub value : Num → ℕ
  pub new : ℕ → Option Num
  pub add : Num → Num → Option Num
  pub sub : Num → Num → Option Num
  pub mul : Num → Num → Option Num
  pub div : Num → Num → Option Num
  pub floor : Num → Option Num
  pub to_imprecise : Num → Option ℕ
  pub less_than_or_equal : Num → Num → Bool
  pub new_lem : (n : ℕ) → n < u128_limit → (c : Num) × (new n ≡ some c) × (value c ≡ n * one)
  pub add_lem :
      (a b : Num)
      → value a + value b < safe_limit
      → (c : Num) × (add a b ≡ some c) × (value c ≡ value a + value b)
  pub sub_lem :
      (a b : Num)
      → value b ≤ value a
      → (c : Num) × (sub a b ≡ some c) × (value c ≡ value a - value b)
  pub mul_lem :
      (a b : Num)
      → value a * value b < safe_limit
      → (c : Num) × (mul a b ≡ some c)
        × (2 * (value c * one) ≤ 2 * (value a * value b) + one)
        × (2 * (value a * value b) < 2 * (value c * one) + one)
  pub div_lem :
      (a b : Num)
      → value b ≢ 0
      → value a * one < safe_limit
      → (c : Num) × (div a b ≡ some c)
        × (2 * (value c * value b) ≤ 2 * (value a * one) + one)
        × (value a * one < (value c + 1) * value b)
  pub div_zero : (a b : Num) → value b ≡ 0 → div a b ≡ none
  pub floor_lem : (a : Num) → (c : Num) × (floor a ≡ some c) × (value c ≡ value a / one * one)
  pub to_imprecise_lem :
      (a : Num)
      → value a + one < u128_limit * one
      → (n : ℕ) × (to_imprecise a ≡ some n)
        × (2 * (n * one) ≤ 2 * value a + one)
        × (2 * value a < 2 * (n * one) + one)
  pub le_lem : (a b : Num) → less_than_or_equal a b ≡ leb (value a) (value b)
