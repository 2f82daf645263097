-- ===== src/Base/Result.antt =====
-- What a call of a program ends in: a value, an error that it returns, or a panic (`unwrap`,
-- `assert!`, an overflow under `overflow-checks`, an index out of range).
use human_program_library.Base.{
  ap, ◌≡◌, refl, ◌⊎◌, inl, inr, Bool, true, false, Option, none, some, if◌then◌else◌,
}

pub data Result (E : Type 0) (A : Type 0) : Type 0 where
  ok : A → Result E A
  err : E → Result E A
  panic : Result E A

infixl 5 ◌>>=◌ ◌>>◌
abbrev pub ◌>>=◌ : {E A B : Type 0} → Result E A → (A → Result E B) → Result E B
panic >>= f = panic
err e >>= f = err e
ok a >>= f = f a

abbrev pub ◌>>◌ : {E A B : Type 0} → Result E A → Result E B → Result E B
m >> k = m >>= λ _. k

-- `.ok_or(e)?`
abbrev pub ok_or : {E A : Type 0} → Option A → E → Result E A
ok_or none e = err e
ok_or (some a) e = ok a

-- `.unwrap()` of an option
abbrev pub unwrap : {E A : Type 0} → Option A → Result E A
unwrap none = panic
unwrap (some a) = ok a

-- `if c { return Err(e) }`
abbrev pub fail_if : {E : Type 0} → Bool → E → Result E (Unit {0})
fail_if c e = if c then err e else ok tt

-- `assert!(c)`
abbrev pub assert : {E : Type 0} → Bool → Result E (Unit {0})
assert c = if c then ok tt else panic

-- A chain that succeeds has a first step that succeeds.
pub >>=-eq-ok :
    {E A B : Type 0} {y : B} (step : Result E A) (rest : A → Result E B)
    → (step >>= rest) ≡ ok y
    → (x : A) × (step ≡ ok x) × (rest x ≡ ok y)
>>=-eq-ok panic rest e = cc
>>=-eq-ok (err x) rest e = cc
>>=-eq-ok (ok x) rest e = (x, refl, e)

-- A chain that succeeds has passed its checks.
pub fail_if_passed :
    {E B : Type 0} {y : B} (c : Bool) (e : E) (rest : Result E B)
    → (fail_if c e >> rest) ≡ ok y
    → (c ≡ false) × (rest ≡ ok y)
fail_if_passed true e rest h = absurd (cc)
fail_if_passed false e rest h = (refl, h)

pub assert_passed :
    {E B : Type 0} {y : B} (c : Bool) (rest : Result E B)
    → (assert c >> rest) ≡ ok y
    → (c ≡ true) × (rest ≡ ok y)
assert_passed true rest h = (refl, h)
assert_passed false rest h = absurd (cc)

pub Result-cases :
    {E A : Type 0} (r : Result E A) → ((a : A) × (r ≡ ok a)) ⊎ ((e : E) × (r ≡ err e)) ⊎ (r ≡ panic)
Result-cases (ok a) = inl (a, refl)
Result-cases (err e) = inr (inl (e, refl))
Result-cases panic = inr (inr refl)

abbrev pub ok_of : {E A : Type 0} → A → Result E A → A
ok_of d (ok a) = a
ok_of d (err e) = d
ok_of d panic = d

pub ok-injective : {E A : Type 0} {a b : A} → ◌≡◌ {A = Result E A} (ok a) (ok b) → a ≡ b
ok-injective {a} {b} e = ap (ok_of a) e

pub unwrap-some : {E A : Type 0} {o : Option A} {a : A} → unwrap {E = E} o ≡ ok a → o ≡ some a
unwrap-some {o = none} e = cc
unwrap-some {o = some b} e = ap some (ok-injective e)

-- The bind by name, where another one is in scope.
abbrev pub and_then : {E A B : Type 0} → Result E A → (A → Result E B) → Result E B
and_then m f = m >>= f
