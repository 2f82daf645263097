-- ===== src/Escrow/Refund.antt =====
-- `process_refund` (escrow/src/lib.rs). The lamports of the payer stay borrowed through all of it.
use human_program_library.Base.{ℕ, List, [], ◌∷◌, ◌!=◌, if◌then◌else◌, Pubkey}
use human_program_library.Runtime.{token_transfer, token_close}
use human_program_library.Runtime.Action.{◌>>=◌, ◌>>◌, pure}
use human_program_library.Base.Result.{ok, err, ok_or}
use human_program_library.Base.Words.{checked_sub}
use human_program_library.Common.Errors.{
  custom, invalid_argument, illegal_owner, uninitialized_account, not_enough_account_keys,
}
use human_program_library.Common.Accounts.{
  AccountInfo, TokenState, Handler, next_account_info, check, need, next_expected_token_wallet,
}
use human_program_library.Escrow.Defs.{State, Voucher, accepted, request_status_eq, is_open}
use human_program_library.Escrow.Program.{Program}
use human_program_library.Escrow.Storage.{
  authority, invoke_borrowed, next_state_account, erase_state, get_voucher, redeem_voucher,
  next_sysvar,
}
use human_program_library.Escrow.Contribute.{unfunded_of}

module _ (p : Program) where
  open p use {rt, mem}

  -- The voucher of one round of the loop is closed and counted off.
  unfoldable pub close_voucher : Pubkey → ℕ → AccountInfo → Handler rt (Voucher × ℕ)
  close_voucher payer collected voucher_acc = do
    found ← get_voucher p voucher_acc
    voucher ← need rt (ok_or found uninitialized_account)
    redeem_voucher p voucher_acc.key payer
    left ← need rt (ok_or (checked_sub collected voucher.amount) (custom 0x14))
    pure (voucher, left)

  -- Its user is paid back, unless the request was accepted.
  unfoldable pub refund_user :
      State → Pubkey → Pubkey → Pubkey → Voucher → AccountInfo → Handler rt (Unit {0})
  refund_user state state_key mint payer voucher user_wallet = do
    check rt (rt.associated_token voucher.user mint != user_wallet.key) invalid_argument
    if request_status_eq state.request_status accepted
        then pure tt
        else invoke_borrowed p payer
            (token_transfer state.wallet user_wallet.key (authority p state_key) voucher.amount)

  -- The loop over the remaining accounts, two for each voucher; the result is what is left of
  -- `collected`.
  unfoldable pub refund_vouchers :
      State → Pubkey → Pubkey → Pubkey → List AccountInfo → ℕ → Handler rt ℕ
  refund_vouchers state state_key mint payer [] collected = pure collected
  refund_vouchers state state_key mint payer (voucher_acc ∷ []) collected = do
    close_voucher payer collected voucher_acc
    need rt (err not_enough_account_keys)
  refund_vouchers state state_key mint payer (voucher_acc ∷ user_wallet ∷ rest) collected = do
    (voucher, left) ← close_voucher payer collected voucher_acc
    refund_user state state_key mint payer voucher user_wallet
    refund_vouchers state state_key mint payer rest left

  -- What is left of the collected amount decides. The token wallet is as it was when the handler
  -- began. While something is left, nothing is saved.
  unfoldable pub close_request : State → Pubkey → Pubkey → TokenState → ℕ → Handler rt (Unit {0})
  close_request state state_key payer wallet collected = if collected != 0 then pure tt else do
    check rt (wallet.amount != 0) (custom 0x15)
    invoke_borrowed p payer (token_close state.wallet payer (authority p state_key))
    erase_state p state state_key payer

  unfoldable pub rest_of_accounts : Handler rt (List AccountInfo)
  rest_of_accounts (accs, w) = ok (accs, (accs, w))

  -- The accounts that follow the state: the token wallet and the payer.
  unfoldable pub refund_accounts : State → Handler rt (TokenState × Pubkey)
  refund_accounts state = do
    wallet ← next_expected_token_wallet rt state.wallet
    payer ← next_account_info rt
    next_sysvar p p.rent_id
    next_sysvar p p.clock_id
    check rt (payer.key != state.payer) illegal_owner
    pure (wallet, payer.key)

  unfoldable pub process_refund : Handler rt (Unit {0})
  unfolding rest_of_accounts
  process_refund = do
    (state, state_key) ← next_state_account p
    (wallet, payer) ← refund_accounts state
    check rt (is_open state) invalid_argument
    request ← need rt (unfunded_of state.request)
    rest ← rest_of_accounts
    left ← refund_vouchers state state_key wallet.mint payer rest request.collected
    close_request state state_key payer wallet left
