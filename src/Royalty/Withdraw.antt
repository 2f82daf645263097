-- ===== src/Royalty/Withdraw.antt =====
-- `process_withdraw` (royalty/src/lib.rs). The guards of the entities write them back where the
-- handler returns: the voucher first, then the state.
use human_program_library.Base.{ℕ, ltb, ◌&&◌, ◌!=◌, Pubkey}
use human_program_library.Base.Words.{checked_sub}
use human_program_library.Base.Result.{ok_or, unwrap}
use human_program_library.Runtime.{token_transfer}
use human_program_library.Runtime.Action.{◌>>=◌, ◌>>◌, pure}
use human_program_library.Common.EntityAccounts.{call_program, next_entity, save_entity}
use human_program_library.Common.Accounts.{
  AccountInfo, TokenState, Handler, next_account_info, check, need, next_expected_token_wallet,
  next_atoken_wallet, next_signer_account, next_expected_account,
}
use human_program_library.Royalty.Defs.{
  State, Voucher, overflow, less_than_deposit_minimum, temporary_unavailable, insufficient_balance,
}
use human_program_library.Royalty.Program.{Program, state_entity, voucher_entity, error_of}
use human_program_library.Royalty.Weights.{
  max_vote_weight, update_voter_weight, update_max_voter_weight, assert_no_unrequilished_votes,
}
use human_program_library.Royalty.Tokens.{is_running, owner_atoken_address}

-- The accounts that the instruction names, after the state.
pub record WithdrawAccounts : Type 0 where
  pub wallet : TokenState
  pub voucher : Voucher
  pub voucher_key : Pubkey
  pub user_wallet : Pubkey
  pub voter_record : AccountInfo
  pub vote_weight_record : AccountInfo
  pub vault : TokenState
  pub owner_atoken : TokenState
  pub max_weight_record : AccountInfo
  pub funder : AccountInfo

module _ (p : Program) where
  open p use {rt, mem}

  unfoldable pub withdraw_accounts : State → Handler rt WithdrawAccounts
  withdraw_accounts state = do
    wallet ← next_expected_token_wallet rt state.wallet
    (voucher, voucher_key) ← next_entity rt mem (voucher_entity p) p.program_id
    next_signer_account rt voucher.user
    (user_wallet, _) ← next_atoken_wallet rt voucher.user wallet.mint
    voter_record ← next_account_info rt
    vote_weight_record ← next_account_info rt
    vault ← next_expected_token_wallet rt state.vault_addr
    owner_atoken ← next_expected_token_wallet rt (owner_atoken_address p state)
    max_weight_record ← next_account_info rt
    funder ← next_account_info rt
    next_expected_account rt rt.token_program
    next_expected_account rt p.system_program
    pure (record {
      wallet = wallet;
      voucher = voucher;
      voucher_key = voucher_key;
      user_wallet = user_wallet;
      voter_record = voter_record;
      vote_weight_record = vote_weight_record;
      vault = vault;
      owner_atoken = owner_atoken;
      max_weight_record = max_weight_record;
      funder = funder;
    })

  -- The checks before anything changes.
  unfoldable pub check_withdraw : State → WithdrawAccounts → ℕ → Handler rt (Unit {0})
  check_withdraw state a amount = do
    assert_no_unrequilished_votes p a.voter_record state.realm_addr state.token_mint a.voucher.user
    check rt (is_running state.distribution) (error_of temporary_unavailable)
    check rt (ltb a.voucher.balance amount) (error_of insufficient_balance)
    after_balance ← need rt (unwrap (checked_sub a.voucher.balance amount))
    check rt (after_balance != 0 && ltb after_balance state.settings.min_token_to_enroll)
        (error_of less_than_deposit_minimum)

  -- The transfer, the two differences, the vote weights, and the entities written back.
  unfoldable pub record_withdraw : State → Pubkey → WithdrawAccounts → ℕ → Handler rt (Unit {0})
  record_withdraw state state_key a amount = do
    call_program rt mem (token_transfer state.wallet a.user_wallet state.wallet amount)
    balance ← need rt (ok_or (checked_sub a.voucher.balance amount) (error_of overflow))
    tokens_held ← need rt (ok_or (checked_sub state.tokens_held amount) (error_of overflow))
    weight ← need rt (max_vote_weight tokens_held a.vault a.owner_atoken)
    update_voter_weight p state_key state.realm_addr a.wallet.mint a.voucher.user balance
        a.vote_weight_record a.funder
    update_max_voter_weight p state_key state.realm_addr a.wallet.mint weight a.max_weight_record
        a.funder
    save_entity rt mem (voucher_entity p) (record a.voucher { balance = balance }) a.voucher_key
    save_entity rt mem (state_entity p) (record state { tokens_held = tokens_held }) state_key

  unfoldable pub process_withdraw : ℕ → Handler rt (Unit {0})
  process_withdraw amount = do
    (state, state_key) ← next_entity rt mem (state_entity p) p.program_id
    a ← withdraw_accounts state
    check_withdraw state a amount
    record_withdraw state state_key a amount
