-- ===== src/Human/Contract.antt =====
-- `process_init_state`, `process_migrate_state`, `process_create_wallets` and `process_set_admin`
-- (human/src/lib.rs).
use human_program_library.Base.{none, some, true, false, [], ◌∷◌, ◌!=◌, Pubkey}
use human_program_library.Base.Int.{ℤ}
use human_program_library.Runtime.{system_create, token_initialize}
use human_program_library.Runtime.Action.{◌>>=◌, ◌>>◌}
use human_program_library.Common.Errors.{invalid_argument, invalid_account_data}
use human_program_library.Common.EntityAccounts.{
  read_data, write_data, call_program, next_entity, save_entity,
}
use human_program_library.Common.Accounts.{
  Handler, next_account_info, check, need, next_signer_account, next_expected_account,
}
use human_program_library.Human.Program.{Program, contract_state, state_acc_size}
use human_program_library.Common.Entity.{is_empty}
use human_program_library.Human.Migration.{InitInstruction, init_state, try_migrate_state}

module _ (p : Program) where
  open p use {rt, mem}

  abbrev pub state_address : Pubkey → Pubkey
  state_address token = rt.find_address "STATE" (token ∷ [])

  -- The account belongs to the program once it is created.
  unfoldable pub process_init_state : InitInstruction → ℤ → Handler rt (Unit {0})
  process_init_state args now = do
    state ← next_account_info rt
    mint_acc ← next_account_info rt
    fee_payer ← next_account_info rt
    next_expected_account rt rt.token_program
    next_expected_account rt p.system_program
    check rt (mint_acc.owner != rt.token_program) invalid_argument
    check rt (state.key != state_address mint_acc.key) invalid_argument
    mint_authority ← λ (accs, w). need rt (p.mint_authority w mint_acc.key) (accs, w)
    check rt (elim mint_authority [ none ↦ false | some a ↦ true ]) invalid_argument
    call_program rt mem (
        system_create fee_payer.key (state_address mint_acc.key) (rt.rent_minimum state_acc_size)
          state_acc_size p.program_id)
    bytes ← read_data rt mem state.key
    initial ← need rt (init_state p bytes mint_acc.key args now)
    write_data rt mem state.key initial

  -- The second account becomes the swap state.
  unfoldable pub process_migrate_state : ℤ → Handler rt (Unit {0})
  process_migrate_state now = do
    state ← next_account_info rt
    token_mint ← next_account_info rt
    wsol_commission ← next_account_info rt
    treasury ← next_account_info rt
    bytes ← read_data rt mem state.key
    check rt (is_empty bytes) invalid_account_data
    migrated ←
        need rt (try_migrate_state p bytes token_mint.key wsol_commission.key treasury.key now)
    write_data rt mem state.key migrated

  -- A token account at a derived address.
  unfoldable pub create_wallet : (payer wallet mint authority : Pubkey) → Handler rt (Unit {0})
  create_wallet payer wallet mint authority = do
    call_program rt mem (
        system_create payer wallet (rt.rent_minimum rt.token_account_len) rt.token_account_len
          rt.token_program)
    call_program rt mem (token_initialize wallet mint authority)

  unfoldable pub process_create_wallets : Handler rt (Unit {0})
  process_create_wallets = do
    token_mint ← next_account_info rt
    wallet ← next_account_info rt
    vault ← next_account_info rt
    fee_payer ← next_account_info rt
    next_account_info rt
    next_account_info rt
    check rt (wallet.key != rt.find_address "WALLET" (token_mint.key ∷ [])) invalid_argument
    check rt (vault.key != rt.find_address "VAULT" (token_mint.key ∷ [])) invalid_argument
    create_wallet fee_payer.key (rt.find_address "WALLET" (token_mint.key ∷ [])) token_mint.key
        (rt.find_address "TRANSFER" [])
    create_wallet fee_payer.key (rt.find_address "VAULT" (token_mint.key ∷ [])) token_mint.key
        (rt.find_address "TRANSFER" [])

  unfoldable pub process_set_admin : Pubkey → Handler rt (Unit {0})
  process_set_admin new_admin = do
    (state, state_key) ← next_entity rt mem (contract_state p) p.program_id
    next_signer_account rt state.admin
    save_entity rt mem (contract_state p) (record state { admin = new_admin }) state_key
