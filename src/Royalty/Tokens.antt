-- ===== src/Royalty/Tokens.antt =====
-- `process_deposit` and `process_withdraw` (royalty/src/lib.rs). The guards of the entities write
-- them back where the handlers return: the voucher first, then the state.
use human_program_library.Base.{
  Bool, true, false, ℕ, not, Option, none, some, [], ◌∷◌, ltb, ◌||◌, ◌==◌, ◌!=◌, if◌then◌else◌,
  Pubkey,
}
use human_program_library.Base.Int.{pos}
use human_program_library.Base.Words.{checked_add, u64_limit, u32_limit}
use human_program_library.Base.Result.{ok_or}
use human_program_library.Runtime.{system_create, token_transfer}
use human_program_library.Runtime.Action.{◌>>=◌, ◌>>◌, pure}
use human_program_library.Common.Errors.{invalid_argument, missing_required_signature}
use human_program_library.Common.Codec.{Bytes}
use human_program_library.Common.Entity.{is_initialized}
use human_program_library.Common.EntityAccounts.{
  read_data, call_program, next_entity, entity_from_acc, save_entity, initialize_account,
}
use human_program_library.Common.Accounts.{
  AccountInfo, TokenState, Handler, next_account_info, check, need, next_expected_token_wallet,
  next_atoken_wallet, next_expected_account,
}
use human_program_library.Royalty.Defs.{
  State, Voucher, Distribution, overflow, blacklisted_for_enroll, less_than_deposit_minimum,
  temporary_unavailable,
}
use human_program_library.Royalty.Distribute.{check_no_other_programs, fixed_settings}
use human_program_library.Royalty.Program.{
  Program, state_entity, voucher_entity, error_of, with_program_error,
}
use human_program_library.Royalty.Weights.{max_vote_weight, update_max_voter_weight}

-- The accounts that the instruction names, after the state.
pub record TokenAccounts : Type 0 where
  pub wallet : TokenState
  pub voucher_acc : AccountInfo
  pub user : AccountInfo
  pub user_wallet : Pubkey
  pub vault : TokenState
  pub owner_atoken : TokenState
  pub max_weight_record : AccountInfo
  pub funder : AccountInfo

abbrev pub is_running : Option Distribution → Bool
is_running none = false
is_running (some d) = true

module _ (p : Program) where
  open p use {rt, mem}

  abbrev pub voucher_address : Pubkey → Pubkey → Pubkey
  voucher_address state_key user = rt.find_address "VOUCHER" (state_key ∷ user ∷ [])

  abbrev pub wallet_address : Pubkey → Pubkey
  wallet_address state_key = rt.find_address "WALLET" (state_key ∷ [])

  abbrev pub owner_atoken_address : State → Pubkey
  owner_atoken_address state = rt.associated_token state.owner state.token_mint

  unfoldable pub deposit_accounts : State → Handler rt TokenAccounts
  deposit_accounts state = do
    wallet ← next_expected_token_wallet rt state.wallet
    voucher_acc ← next_account_info rt
    user ← next_account_info rt
    (user_wallet, _) ← next_atoken_wallet rt user.key wallet.mint
    vault ← next_expected_token_wallet rt state.vault_addr
    owner_atoken ← next_expected_token_wallet rt (owner_atoken_address state)
    max_weight_record ← next_account_info rt
    funder ← next_account_info rt
    next_expected_account rt p.system_program
    next_expected_account rt rt.token_program
    next_expected_account rt p.instructions_id
    pure (record {
      wallet = wallet;
      voucher_acc = voucher_acc;
      user = user;
      user_wallet = user_wallet;
      vault = vault;
      owner_atoken = owner_atoken;
      max_weight_record = max_weight_record;
      funder = funder;
    })

  -- The checks before anything changes; `state` has the fixed settings.
  unfoldable pub check_deposit : State → Pubkey → TokenAccounts → Handler rt (Unit {0})
  check_deposit state state_key a = do
    λ (accs, w).
        need rt
          (with_program_error (
            check_no_other_programs (p.programs_called w) (
              p.program_id ∷ p.system_program ∷ p.associated_token_program ∷ p.round_program
              ∷ p.compute_budget_program ∷ [])))
          (accs, w)
    check rt (not a.user.is_signer) missing_required_signature
    check rt (a.user.key == state.owner || a.user.key == state.host)
        (error_of blacklisted_for_enroll)
    check rt (a.voucher_acc.key != voucher_address state_key a.user.key) invalid_argument
    check rt (is_running state.distribution) (error_of temporary_unavailable)

  -- A voucher account is created on the first deposit, and then belongs to the program.
  unfoldable pub open_voucher :
      State → Pubkey → TokenAccounts → ℕ → Bytes → Handler rt (State × AccountInfo)
  open_voucher state state_key a amount bytes =
      if is_initialized (voucher_entity p) bytes then pure (state, a.voucher_acc) else (do
        check rt (ltb amount state.settings.min_token_to_enroll)
            (error_of less_than_deposit_minimum)
        call_program rt mem (
            system_create a.funder.key (voucher_address state_key a.user.key) (rt.rent_minimum 128)
              128 p.program_id)
        vouchers_count ←
            need rt (ok_or (checked_add u32_limit state.vouchers_count 1) (error_of overflow))
        initialize_account rt mem (voucher_entity p)
            (record {
              user = a.user.key;
              state = state_key;
              drop_idx = state.drop_idx;
              balance = 0;
              last_distribution = pos 0;
            })
            a.voucher_acc.key
        pure (
          record state { vouchers_count = vouchers_count },
          record a.voucher_acc { owner = p.program_id },
        ))

  -- The transfer, the two sums, the vote weight, and the entities written back.
  unfoldable pub record_deposit :
      State → Pubkey → TokenAccounts → ℕ → Voucher → Handler rt (Unit {0})
  record_deposit state state_key a amount voucher = do
    call_program rt mem (token_transfer a.user_wallet (wallet_address state_key) a.user.key amount)
    balance ← need rt (ok_or (checked_add u64_limit voucher.balance amount) (error_of overflow))
    tokens_held ←
        need rt (ok_or (checked_add u64_limit state.tokens_held amount) (error_of overflow))
    weight ← need rt (max_vote_weight tokens_held a.vault a.owner_atoken)
    update_max_voter_weight p state_key state.realm_addr a.wallet.mint weight a.max_weight_record
        a.funder
    save_entity rt mem (voucher_entity p) (record voucher { balance = balance }) a.voucher_acc.key
    save_entity rt mem (state_entity p) (record state { tokens_held = tokens_held }) state_key

  unfoldable pub process_deposit : ℕ → Handler rt (Unit {0})
  process_deposit amount = do
    (stored, state_key) ← next_entity rt mem (state_entity p) p.program_id
    a ← deposit_accounts stored
    check_deposit (record stored { settings = fixed_settings }) state_key a
    bytes ← read_data rt mem a.voucher_acc.key
    (state, voucher_acc) ←
        open_voucher (record stored { settings = fixed_settings }) state_key a amount bytes
    voucher ← entity_from_acc rt mem (voucher_entity p) p.program_id voucher_acc
    record_deposit state state_key a amount voucher
