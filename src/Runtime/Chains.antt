-- ===== src/Runtime/Chains.antt =====
-- Chains of actions: one that succeeds has steps that succeed, and one with a step that never
-- succeeds never does.
use human_program_library.Base.{subst, refl, Bool, true, false, ◌≡◌}
use human_program_library.Base.Result.{Result, ok, err, panic}
use human_program_library.Runtime.Action.{Action, bind_at}

abbrev pub is_ok : {E A : Type 0} → Result E A → Bool
is_ok (ok a) = true
is_ok (err e) = false
is_ok panic = false

pub bind_at-eq-ok :
    {W E A B : Type 0} {y : B × W} (r : Result E (A × W)) (f : A → Action W E B)
    → bind_at r f ≡ ok y
    → (a : A) × (w : W) × (r ≡ ok (a, w)) × (f a w ≡ ok y)
bind_at-eq-ok (ok (a, w)) f h = (a, w, refl, h)
bind_at-eq-ok (err e) f h = cc
bind_at-eq-ok panic f h = cc

pub is_ok-bind_at :
    {W E A B : Type 0} (r : Result E (A × W)) (f : A → Action W E B)
    → ((a : A) (w : W) → is_ok (f a w) ≡ false)
    → is_ok (bind_at r f) ≡ false
is_ok-bind_at (ok (a, w)) f h = h a w
is_ok-bind_at (err e) f h = refl
is_ok-bind_at panic f h = refl

-- The same where the first step never succeeds.
pub is_ok-first :
    {W E A B : Type 0} (r : Result E (A × W)) (f : A → Action W E B)
    → is_ok r ≡ false
    → is_ok (bind_at r f) ≡ false
is_ok-first (ok a) f h = cc
is_ok-first (err e) f h = refl
is_ok-first panic f h = refl

-- The rest of a chain whose first step is known.
pub bind_at-known :
    {W E A B : Type 0} {a : A} {w : W} {y : B × W} (r : Result E (A × W)) (f : A → Action W E B)
    → r ≡ ok (a, w)
    → bind_at r f ≡ ok y
    → f a w ≡ ok y
bind_at-known {y} r f found h = subst (λ q. bind_at q f ≡ ok y) found h
