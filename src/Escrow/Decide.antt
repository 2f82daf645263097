-- ===== src/Escrow/Decide.antt =====
-- `process_accept`, `process_cancel` and `process_decline` (escrow/src/lib.rs).
use human_program_library.Base.Int.{ℤ}
use human_program_library.Base.{ℕ, not, Option, none, some, ◌==◌, ◌!=◌, if◌then◌else◌, Pubkey}
use human_program_library.Runtime.{token_transfer, token_close, system_transfer}
use human_program_library.Runtime.Action.{◌>>=◌, ◌>>◌, pure}
use human_program_library.Base.Result.{Result, ok, err}
use human_program_library.Common.Errors.{ProgramError, custom, illegal_owner}
use human_program_library.Common.Accounts.{
  TokenState, Handler, next_account_info, check, need, next_expected_token_wallet,
  next_atoken_wallet, next_signer_account, next_expected_account,
}
use human_program_library.Escrow.Defs.{State, Request, declined, is_open, is_funded, try_accept}
use human_program_library.Escrow.Program.{Program}
use human_program_library.Escrow.Storage.{
  authority, invoke, next_state_account, save_state, erase_state, refuse_expired, next_sysvar,
}

abbrev pub funded_of : Request → Result ProgramError Pubkey
funded_of (Request.funded author) = ok author
funded_of (Request.unfunded r) = err (custom 0x13)

module _ (p : Program) where
  open p use {rt, mem}

  -- The end of `process_accept`: a funded request is over, an unfunded one stays for its vouchers.
  unfoldable pub settle_accepted : State → Pubkey → Pubkey → Handler rt (Unit {0})
  settle_accepted state state_key payer =
      if is_funded state
      then (do
        invoke p (token_close state.wallet payer (authority p state_key))
        erase_state p state state_key payer)
      else save_state p state state_key

  unfoldable pub accept_request :
      State → Pubkey → Pubkey → TokenState → Pubkey → Handler rt (Unit {0})
  accept_request state state_key payer wallet destination_wallet = do
    check rt (not (is_open state)) (custom 0x10)
    check rt (wallet.amount == 0) (custom 0x11)
    state' ← need rt (try_accept state)
    invoke p (token_transfer state'.wallet destination_wallet (authority p state_key) wallet.amount)
    settle_accepted state' state_key payer

  -- The accounts that follow the state: the token wallet, the destination's wallet and the payer.
  unfoldable pub accept_accounts : State → Handler rt (TokenState × Pubkey × Pubkey)
  accept_accounts state = do
    wallet ← next_expected_token_wallet rt state.wallet
    next_signer_account rt state.destination
    destination_wallet ← next_account_info rt
    payer ← next_account_info rt
    next_sysvar p p.clock_id
    check rt (payer.key != state.payer) illegal_owner
    pure (wallet, destination_wallet.key, payer.key)

  unfoldable pub process_accept : ℤ → Handler rt (Unit {0})
  process_accept now = do
    (state, state_key) ← next_state_account p
    (wallet, destination_wallet, payer) ← accept_accounts state
    refuse_expired p state state_key now
    accept_request state state_key payer wallet destination_wallet

  -- Wrapped SOL goes back through the derived authority, the rent to the payer.
  unfoldable pub return_sol : State → Pubkey → Pubkey → ℕ → Handler rt (Unit {0})
  return_sol state derived author amount = do
    invoke p (token_close state.wallet derived derived)
    invoke p (system_transfer derived author amount)

  unfoldable pub return_tokens : State → Pubkey → Pubkey → Pubkey → ℕ → Handler rt (Unit {0})
  return_tokens state derived author_wallet payer amount = do
    invoke p (token_transfer state.wallet author_wallet derived amount)
    invoke p (token_close state.wallet payer derived)

  -- The branches of `process_cancel` on `is_native`.
  unfoldable pub cancel_payment :
      Option ℕ → State → Pubkey → Pubkey → Pubkey → TokenState → Handler rt (Unit {0})
  unfolding return_sol return_tokens
  cancel_payment (some rent_balance) state derived author payer wallet = do
    next_expected_account rt (rt.associated_token author wallet.mint)
    next_expected_account rt rt.token_program
    next_expected_account rt p.system_program
    return_sol state derived author wallet.amount
    invoke p (system_transfer derived payer rent_balance)
  cancel_payment none state derived author payer wallet = do
    (author_wallet, _) ← next_atoken_wallet rt author wallet.mint
    next_expected_account rt rt.token_program
    return_tokens state derived author_wallet payer wallet.amount

  unfoldable pub process_cancel : Handler rt (Unit {0})
  unfolding cancel_payment
  process_cancel = do
    (state, state_key) ← next_state_account p
    wallet ← next_expected_token_wallet rt state.wallet
    author ← need rt (funded_of state.request)
    next_signer_account rt author
    payer ← next_expected_account rt state.payer
    check rt (not (is_open state)) (custom 0x10)
    next_expected_account rt (authority p state_key)
    cancel_payment wallet.is_native state (authority p state_key) author payer.key wallet
    erase_state p (record state { request_status = declined }) state_key payer.key

  -- The branches of `process_decline` on `is_native`.
  unfoldable pub decline_payment :
      Option ℕ → State → Pubkey → Pubkey → Pubkey → TokenState → Handler rt (Unit {0})
  decline_payment (some rent_balance) state derived author payer wallet = do
    next_expected_account rt author
    invoke p (token_close state.wallet derived derived)
    next_expected_account rt rt.token_program
    next_expected_account rt p.system_program
    invoke p (system_transfer derived author wallet.amount)
    invoke p (system_transfer derived payer rent_balance)
  decline_payment none state derived author payer wallet = do
    (author_wallet, _) ← next_atoken_wallet rt author wallet.mint
    next_expected_account rt author
    invoke p (token_transfer state.wallet author_wallet derived wallet.amount)
    invoke p (token_close state.wallet payer derived)

  -- The `match` on the request.
  unfoldable pub decline_request :
      Request → State → Pubkey → Pubkey → TokenState → Handler rt (Unit {0})
  decline_request (Request.funded author) state state_key payer wallet = do
    next_expected_account rt (authority p state_key)
    decline_payment wallet.is_native state (authority p state_key) author payer wallet
    erase_state p state state_key payer
  decline_request (Request.unfunded r) state state_key payer wallet = save_state p state state_key

  unfoldable pub process_decline : Handler rt (Unit {0})
  process_decline = do
    (state, state_key) ← next_state_account p
    wallet ← next_expected_token_wallet rt state.wallet
    next_signer_account rt state.destination
    payer ← next_expected_account rt state.payer
    check rt (not (is_open state)) (custom 0x10)
    decline_request state.request (record state { request_status = declined }) state_key payer.key
        wallet
