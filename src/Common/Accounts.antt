-- ===== src/Common/Accounts.antt =====
-- The iterators over the accounts of an instruction (common/src/utils.rs). An account is what the
-- runtime passes: its key, its owner and its flags, and, for a token account, the unpacked state.
-- A handler works on the accounts that are left and on the world.
use human_program_library.Base.{ℕ, Bool, not, Option, List, [], ◌∷◌, ◌!=◌, if◌then◌else◌, Pubkey}
use human_program_library.Runtime.{Runtime}
use human_program_library.Runtime.Action
use human_program_library.Runtime.Action.{Action, ◌>>=◌, ◌>>◌, pure}
use human_program_library.Base.Result.{Result, ok, err, ok_or}
use human_program_library.Common.Errors.{
  ProgramError, not_enough_account_keys, invalid_argument, illegal_owner,
  missing_required_signature, invalid_account_data,
}

-- `spl_token::state::Account`
pub record TokenState : Type 0 where
  pub mint : Pubkey
  pub owner : Pubkey
  pub amount : ℕ  -- u64
  pub delegate : Option Pubkey
  pub is_native : Option ℕ  -- u64
  pub delegated_amount : ℕ  -- u64
  pub close_authority : Option Pubkey

-- `token` is what `token_state::Account::unpack` yields of its data, `none` where it fails.
pub record AccountInfo : Type 0 where
  pub key : Pubkey
  pub owner : Pubkey
  pub is_signer : Bool
  pub is_writable : Bool
  pub token : Option TokenState

module _ (rt : Runtime) where
  -- The accounts that the iterator has not passed, and the world.
  abbrev pub Cursor : Type 0
  Cursor = List AccountInfo × rt.World

  abbrev pub Handler : Type 0 → Type 0
  Handler A = Action Cursor ProgramError A

  abbrev pub next_account_info : Handler AccountInfo
  next_account_info ([], w) = err not_enough_account_keys
  next_account_info (acc ∷ rest, w) = ok (acc, (rest, w))

  abbrev pub check : Bool → ProgramError → Handler (Unit {0})
  check refused e s = if refused then err e else ok (tt, s)

  abbrev pub need : {A : Type 0} → Result ProgramError A → Handler A
  need r = Action.lift r

  unfoldable pub next_expected_token_wallet : Pubkey → Handler TokenState
  next_expected_token_wallet wallet_addr = do
    wallet ← next_account_info
    check (wallet.key != wallet_addr) invalid_argument
    check (wallet.owner != rt.token_program) illegal_owner
    need (ok_or wallet.token invalid_account_data)

  unfoldable pub next_atoken_wallet : Pubkey → Pubkey → Handler (Pubkey × TokenState)
  next_atoken_wallet expected_user expected_mint = do
    wallet_acc ← next_account_info
    check (rt.associated_token expected_user expected_mint != wallet_acc.key) invalid_argument
    check (wallet_acc.owner != rt.token_program) illegal_owner
    wallet ← need (ok_or wallet_acc.token invalid_account_data)
    pure (wallet_acc.key, wallet)

  unfoldable pub next_signer_account : Pubkey → Handler AccountInfo
  next_signer_account expected_acc = do
    account ← next_account_info
    check (account.key != expected_acc) invalid_argument
    check (not account.is_signer) missing_required_signature
    pure account

  unfoldable pub next_expected_account : Pubkey → Handler AccountInfo
  next_expected_account expected_key = do
    acc ← next_account_info
    check (acc.key != expected_key) invalid_argument
    pure acc
