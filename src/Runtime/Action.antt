-- ===== src/Runtime/Action.antt =====
-- A handler: it fails or panics, or returns a value and the changed world.
use human_program_library.Base.{Option, none, some}
use human_program_library.Base.Result.{ok, err, panic, Result}
use human_program_library.Runtime.{Runtime, Cpi}

abbrev pub Action : Type 0 → Type 0 → Type 0 → Type 0
Action W E A = W → Result E (A × W)

abbrev pub bind_at : {W E A B : Type 0} → Result E (A × W) → (A → Action W E B) → Result E (B × W)
bind_at (ok (a, w)) f = f a w
bind_at (err e) f = err e
bind_at panic f = panic

infixl 5 ◌>>=◌ ◌>>◌
abbrev pub ◌>>=◌ : {W E A B : Type 0} → Action W E A → (A → Action W E B) → Action W E B
◌>>=◌ m f w = bind_at (m w) f

abbrev pub ◌>>◌ : {W E A B : Type 0} → Action W E A → Action W E B → Action W E B
m >> k = m >>= λ _. k

abbrev pub pure : {W E A : Type 0} → A → Action W E A
pure a w = ok (a, w)

-- A step that does not touch the world.
abbrev pub lift : {W E A : Type 0} → Result E A → Action W E A
lift (ok a) w = ok (a, w)
lift (err e) w = err e
lift panic w = panic

abbrev pub call_at : {W E : Type 0} → E → Option W → Result E (Unit {0} × W)
call_at e none = err e
call_at e (some w) = ok (tt, w)

-- A call of another program; a failure of it is the error `e`.
abbrev pub call : (rt : Runtime) → {E : Type 0} → E → Cpi → Action rt.World E (Unit {0})
call rt e c w = call_at e (rt.invoke c w)
