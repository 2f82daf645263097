-- ===== src/Royalty/Claim.antt =====
-- `process_claim` (royalty/src/lib.rs).
use human_program_library.Base.Lists.{sum}
use human_program_library.Base.{ℕ, Bool, not, Pubkey, ◌==◌, ◌!=◌}
use human_program_library.Base.Words.{checked_add, checked_sub, u64_limit}
use human_program_library.Base.Result.{Result, ok, ◌>>=◌, ◌>>◌, ok_or, fail_if}
use human_program_library.Royalty.Defs.{
  Failure, Store, set, royalty_error, overflow, invalid_voucher, illegal_owner, invalid_argument,
  missing_required_signature, account_not_rent_exempt, account_borrow_failed,
}

-- The user takes what the voucher account holds above its rent.
unfoldable pub process_claim :
    (state_key voucher_key user : Pubkey) → Bool → ℕ → Store → Result Failure Store
process_claim state_key voucher_key user user_is_signer rent_minimum store = do
  voucher ← ok_or (store.vouchers voucher_key) illegal_owner
  fail_if (user != voucher.user) invalid_argument
  fail_if (not user_is_signer) missing_required_signature
  fail_if (voucher.state != state_key) (royalty_error invalid_voucher)
  fail_if (user == voucher_key) account_borrow_failed
  withdraw_amount ←
      ok_or (checked_sub (store.lamports voucher_key) rent_minimum) account_not_rent_exempt
  left ← ok_or (checked_sub (store.lamports voucher_key) withdraw_amount) (royalty_error overflow)
  sum ← ok_or (checked_add u64_limit (store.lamports user) withdraw_amount) (royalty_error overflow)
  ok (record store { lamports = set user sum (set voucher_key left store.lamports) })
