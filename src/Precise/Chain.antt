-- ===== src/Precise/Chain.antt =====
-- The chains of `PreciseNumber` calls that the programs write with `?`, and the bind of options.
use human_program_library.Base.{ℕ, Option, none, some}
use human_program_library.Base.Words.{fit, u64_limit}
use human_program_library.Precise.{PreciseNumber}

infixl 5 ◌>>=◌ ◌>>◌
abbrev pub ◌>>=◌ {ℓ κ} : {A : Type ℓ} {B : Type κ} → Option A → (A → Option B) → Option B
none >>= f = none
some a >>= f = f a

abbrev pub ◌>>◌ {ℓ κ} : {A : Type ℓ} {B : Type κ} → Option A → Option B → Option B
m >> k = m >>= λ _. k

module _ (pn : PreciseNumber) where
  -- `x.to_imprecise()?.try_into().ok()?` into a `u64`
  unfoldable pub to_u64 : pn.Num → Option ℕ
  to_u64 a = do n ← pn.to_imprecise a; fit u64_limit n

  -- `x.checked_mul(&y)?.checked_div(&z)?.to_imprecise()?.try_into().ok()?`
  unfoldable pub mul_div : pn.Num → pn.Num → pn.Num → Option ℕ
  unfolding to_u64
  mul_div x y z = do p ← pn.mul x y; q ← pn.div p z; to_u64 q

  -- `x.checked_div(&y)?.checked_mul(&z)?.to_imprecise()?.try_into().ok()?`
  unfoldable pub div_mul : pn.Num → pn.Num → pn.Num → Option ℕ
  unfolding to_u64
  div_mul x y z = do q ← pn.div x y; p ← pn.mul q z; to_u64 p
