-- ===== src/Fanout/Split.antt =====
-- `Fanout::calculate_split` (fanout/src/state.rs). A `HashMap` is an association list without a
-- repeated key; `None` is the error `tt`, and an overflow of unchecked arithmetic panics.
use human_program_library.Base.{
  ℕ, ◌-◌, Bool, Option, none, some, List, [], ◌∷◌, Pubkey, ltb, ◌==◌, if◌then◌else◌,
}
use human_program_library.Base.Int.{ℤ, pos, negsuc, i64_limit, ◌-ℤ◌, fit_i64, checked_add_i64}
use human_program_library.Base.Words.{fit, u64_limit}
use human_program_library.Base.Result.{Result, ok, panic, ◌>>=◌, ok_or, unwrap}
use human_program_library.Base.Lists.{sum}
use human_program_library.Precise.{PreciseNumber}
use human_program_library.Precise.Chain.{mul_div}
use human_program_library.Fanout.Defs.{Member, Fanout}

abbrev pub Shares : Type 0
Shares = List (Pubkey × ℕ)

abbrev pub insert : Pubkey → ℕ → Shares → Shares
insert k v [] = (k, v) ∷ []
insert k v ((j, w) ∷ m) = if j == k then (k, v) ∷ m else (j, w) ∷ insert k v m

abbrev pub get : Pubkey → Shares → Option ℕ
get k [] = none
get k ((j, w) ∷ m) = if j == k then some w else get k m

abbrev pub values : Shares → List ℕ
values [] = []
values ((k, v) ∷ m) = v ∷ values m

abbrev pub keys : Shares → List Pubkey
keys [] = []
keys ((k, v) ∷ m) = k ∷ keys m

-- `n as i64`
abbrev pub as_i64 : ℕ → ℤ
as_i64 n = if ltb n i64_limit then pos n else negsuc (u64_limit - 1 - n)

-- `i64` into `u64` by `try_into`
abbrev pub to_u64_of_i64 : ℤ → Option ℕ
to_u64_of_i64 (pos n) = some n
to_u64_of_i64 (negsuc n) = none

abbrev pub is_zero : ℤ → Bool
is_zero (pos n) = n == 0
is_zero (negsuc n) = Bool.false

-- What a fallible call with `Option` comes to: a value, `None` (`err tt`) or a panic.
abbrev pub Fallible : Type 0 → Type 0
Fallible A = Result (Unit {0}) A

module _ (pn : PreciseNumber) where
  -- The loop over the members.
  unfoldable pub insert_shares : pn.Num → pn.Num → List Member → Shares → Fallible Shares
  insert_shares bsp amount [] split = ok split
  insert_shares bsp amount (m ∷ ms) split = do
    share ← ok_or (pn.new m.share) tt
    share_amount ← ok_or (mul_div pn share amount bsp) tt
    insert_shares bsp amount ms (insert m.address share_amount split)

-- `split.get_mut(&self.members[0].address).unwrap()`, and its correction by `diff`.
unfoldable pub fix_first : List Member → ℤ → Shares → Fallible Shares
fix_first [] diff split = panic
fix_first (m ∷ ms) diff split = do
  v ← unwrap (get m.address split)
  fixed ← ok_or (checked_add_i64 (as_i64 v) diff) tt
  v' ← ok_or (to_u64_of_i64 fixed) tt
  ok (insert m.address v' split)

unfoldable pub calculate_split : (pn : PreciseNumber) → Fanout → ℕ → Fallible Shares
unfolding insert_shares fix_first
calculate_split pn f amount = do
  bsp ← unwrap (pn.new 10_000)
  amount_precise ← ok_or (pn.new amount) tt
  split ← insert_shares pn bsp amount_precise f.members []
  total ← unwrap (fit u64_limit (sum (values split)))
  diff ← unwrap (fit_i64 (as_i64 amount -ℤ as_i64 total))
  if is_zero diff then ok split else fix_first f.members diff split
