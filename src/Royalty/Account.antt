-- ===== src/Royalty/Account.antt =====
-- `process_initialize`, `process_sync_weight_record` and `process_migrate` (royalty/src/lib.rs).
use human_program_library.Base.{
  ℕ, not, none, some, true, false, ltb, ◌==◌, ◌!=◌, if◌then◌else◌, Pubkey, default_pubkey,
}
use human_program_library.Base.Words.{checked_add, u64_limit}
use human_program_library.Base.Lists.{length}
use human_program_library.Base.Result.{ok_or}
use human_program_library.Runtime.{system_create, token_initialize}
use human_program_library.Runtime.Action.{◌>>=◌, ◌>>◌, pure}
use human_program_library.Common.Errors.{
  invalid_argument, illegal_owner, account_not_rent_exempt, account_already_initialized,
}
use human_program_library.Common.EntityAccounts.{
  read_data, lamports_held, call_program, next_entity, entity_from_acc, save_entity,
  initialize_account,
}
use human_program_library.Common.Accounts.{
  AccountInfo, TokenState, Handler, next_account_info, check, need, next_expected_token_wallet,
}
use human_program_library.Royalty.Defs.{State, Settings, overflow}
use human_program_library.Royalty.Split.{valid}
use human_program_library.Royalty.Program.{Program, state_entity, voucher_entity, error_of}
use human_program_library.Royalty.Weights.{
  max_vote_weight, update_voter_weight, update_max_voter_weight,
}
use human_program_library.Royalty.Tokens.{wallet_address, owner_atoken_address}

pub record InitializeArgs : Type 0 where
  pub owner : Pubkey
  pub host : Pubkey
  pub settings : Settings
  pub realm_addr : Pubkey
  pub vault_addr : Pubkey

-- The state of a new account.
unfoldable pub initial_state : InitializeArgs → (derived_wallet mint : Pubkey) → State
initial_state args derived_wallet mint = record {
  wallet = derived_wallet;
  owner = args.owner;
  host = args.host;
  total_distributed = 0;
  total_user_distributed = 0;
  settings = args.settings;
  drop_idx = 0;
  vouchers_count = 0;
  tokens_held = 0;
  distribution = none;
  token_mint = mint;
  realm_addr = args.realm_addr;
  vault_addr = args.vault_addr;
}

module _ (p : Program) where
  open p use {rt, mem}

  unfoldable pub process_initialize : InitializeArgs → Handler rt (Unit {0})
  process_initialize args = do
    state_acc ← next_account_info rt
    mint ← next_account_info rt
    wallet ← next_account_info rt
    fee_payer ← next_account_info rt
    next_account_info rt
    next_account_info rt
    check rt (state_acc.owner != p.program_id) illegal_owner
    lamports ← lamports_held rt mem state_acc.key
    bytes ← read_data rt mem state_acc.key
    check rt (ltb lamports (rt.rent_minimum (length bytes))) account_not_rent_exempt
    check rt (wallet.key != wallet_address p state_acc.key) invalid_argument
    check rt (elim wallet.token [ none ↦ false | some t ↦ true ]) account_already_initialized
    call_program rt mem (
        system_create fee_payer.key (wallet_address p state_acc.key)
          (rt.rent_minimum rt.token_account_len) rt.token_account_len rt.token_program)
    call_program rt mem (token_initialize (wallet_address p state_acc.key) mint.key wallet.key)
    check rt (not (valid args.settings)) invalid_argument
    initialize_account rt mem (state_entity p)
        (initial_state args (wallet_address p state_acc.key) mint.key) state_acc.key

  -- The weight of the owner, or the balance of the voucher of a user, which is written back.
  unfoldable pub weight_of :
      State → (user voucher_acc : AccountInfo) → (vault owner_atoken : TokenState) → Handler rt ℕ
  weight_of state user voucher_acc vault owner_atoken =
      if user.key == state.owner
      then need rt
          (ok_or (checked_add u64_limit owner_atoken.amount vault.amount) (error_of overflow))
      else (do
        voucher ← entity_from_acc rt mem (voucher_entity p) p.program_id voucher_acc
        check rt (voucher.user != user.key) invalid_argument
        save_entity rt mem (voucher_entity p) voucher voucher_acc.key
        pure voucher.balance)

  unfoldable pub process_sync_weight_record : Handler rt (Unit {0})
  process_sync_weight_record = do
    (state, state_key) ← next_entity rt mem (state_entity p) p.program_id
    user ← next_account_info rt
    voucher_acc ← next_account_info rt
    record_acc ← next_account_info rt
    vault ← next_expected_token_wallet rt state.vault_addr
    owner_atoken ← next_expected_token_wallet rt (owner_atoken_address p state)
    max_record_acc ← next_account_info rt
    funder ← next_account_info rt
    next_account_info rt
    balance ← weight_of state user voucher_acc vault owner_atoken
    update_voter_weight p state_key state.realm_addr state.token_mint user.key balance record_acc
        funder
    weight ← need rt (max_vote_weight state.tokens_held vault owner_atoken)
    update_max_voter_weight p state_key state.realm_addr state.token_mint weight max_record_acc
        funder
    save_entity rt mem (state_entity p) state state_key

  unfoldable pub process_migrate : (realm_addr vault_addr : Pubkey) → Handler rt (Unit {0})
  process_migrate realm_addr vault_addr = do
    (state, state_key) ← next_entity rt mem (state_entity p) p.program_id
    wallet ← next_expected_token_wallet rt state.wallet
    save_entity rt mem (state_entity p)
        (if state.token_mint != default_pubkey then state else record state {
          realm_addr = realm_addr;
          vault_addr = vault_addr;
          token_mint = wallet.mint;
        })
        state_key
