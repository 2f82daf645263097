-- ===== src/Fanout/Pay.antt =====
-- `distribute` (fanout/src/lib.rs). The rent minimum of the account is an argument, and so are the
-- remaining accounts that the transaction names, each with its lamports.
use human_program_library.Base.{ℕ, List, [], ◌∷◌, Pubkey, ◌==◌, ◌!=◌}
use human_program_library.Base.Words.{checked_add, checked_sub, u64_limit}
use human_program_library.Base.Result.{Result, ok, err, panic, ◌>>=◌, ◌>>◌, ok_or, unwrap, fail_if}
use human_program_library.Base.Lists.{length, contains}
use human_program_library.Precise.{PreciseNumber}
use human_program_library.Fanout.Defs.{
  Fanout, Failure, fanout_error, account_borrow_failed, overflow, duplicate_member,
  member_not_found,
}
use human_program_library.Fanout.Split.{Shares, get, Fallible, calculate_split}

pub record Payee : Type 0 where
  pub key : Pubkey
  pub lamports : ℕ

-- What the loop leaves: the lamports and the counter of the fanout, the accounts paid, in order,
-- and the keys seen.
pub record Paid : Type 0 where
  pub fanout_lamports : ℕ
  pub distributed : ℕ
  pub payees : List Payee
  pub seen : List Pubkey

-- `.ok_or_else(|| error!(Overflow))?`
abbrev pub or_overflow : {A : Type 0} → Fallible A → Result Failure A
or_overflow (ok a) = ok a
or_overflow (err e) = err (fanout_error overflow)
or_overflow panic = panic

-- The loop over the remaining accounts. The lamports of the fanout stay borrowed throughout.
unfoldable pub pay : Shares → Pubkey → List Payee → List Pubkey → ℕ → ℕ → Result Failure Paid
pay split fanout_key [] seen lamports distributed =
    ok (record { fanout_lamports = lamports; distributed = distributed; payees = []; seen = seen })
pay split fanout_key (acc ∷ rest) seen lamports distributed = do
  fail_if (contains acc.key seen) (fanout_error duplicate_member)
  amount ← unwrap (get acc.key split)
  fail_if (acc.key == fanout_key) account_borrow_failed
  acc_lamports ← ok_or (checked_add u64_limit acc.lamports amount) (fanout_error overflow)
  fanout_lamports ← ok_or (checked_sub lamports amount) (fanout_error overflow)
  distributed' ← unwrap (checked_add u64_limit distributed amount)
  paid ← pay split fanout_key rest (acc.key ∷ seen) fanout_lamports distributed'
  ok (record paid { payees = record acc { lamports = acc_lamports } ∷ paid.payees })

unfoldable pub distribute :
    (pn : PreciseNumber) → Fanout → Pubkey → ℕ → ℕ → List Payee → Result Failure Paid
unfolding pay
distribute pn f fanout_key lamports rent_minimum accounts = do
  amount ← ok_or (checked_sub lamports rent_minimum) (fanout_error overflow)
  split ← or_overflow (calculate_split pn f amount)
  paid ← pay split fanout_key accounts [] lamports f.distributed
  fail_if (length paid.seen != length f.members) (fanout_error member_not_found)
  ok paid
