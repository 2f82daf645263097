-- ===== src/Base/Words.antt =====
-- Unsigned machine integers: a value is a number below the limit of its width, and Rust's checked
-- operations are written out.
use human_program_library.Base.{
  ℕ, ◌+◌, ◌-◌, ◌*◌, ◌/◌, ◌<◌, ◌≤◌, ◌≡◌, Option, none, some, arith, ltb, leb, ◌==◌, if◌then◌else◌,
}

abbrev pub u8_limit : ℕ
u8_limit = 256

abbrev pub u16_limit : ℕ
u16_limit = 65_536

abbrev pub u32_limit : ℕ
u32_limit = 4_294_967_296

abbrev pub u64_limit : ℕ
u64_limit = 18_446_744_073_709_551_616

-- A conversion with `try_into`, or the result of a checked operation.
abbrev pub fit : ℕ → ℕ → Option ℕ
fit limit n = if ltb n limit then some n else none

abbrev pub checked_add : ℕ → ℕ → ℕ → Option ℕ
checked_add limit a b = fit limit (a + b)

abbrev pub checked_mul : ℕ → ℕ → ℕ → Option ℕ
checked_mul limit a b = fit limit (a * b)

abbrev pub checked_sub : ℕ → ℕ → Option ℕ
checked_sub a b = if leb b a then some (a - b) else none

abbrev pub checked_div : ℕ → ℕ → Option ℕ
checked_div a b = if b == 0 then none else some (a / b)

pub fit_lem : (limit n : ℕ) → n < limit → fit limit n ≡ some n
fit_lem limit n h = ground arith

pub checked_sub_lem : (a b : ℕ) → b ≤ a → checked_sub a b ≡ some (a - b)
checked_sub_lem a b h = ground arith
