-- ===== src/Escrow/Storage.antt =====
-- How the program reads and writes its accounts (escrow/src/lib.rs, `write_state` to `erase_state`,
-- `get_voucher` and `redeem_voucher`).
use human_program_library.Base.Int.{ℤ}
use human_program_library.Base.Lists.{length, sum}
use human_program_library.Base.{
  ℕ, Bool, true, false, not, Option, none, some, List, [], ◌∷◌, ltb, ◌==◌, ◌!=◌, if◌then◌else◌,
  Pubkey,
}
use human_program_library.Runtime.{Cpi}
use human_program_library.Runtime.Action.{◌>>=◌, ◌>>◌, pure}
use human_program_library.Base.Result.{Result, ok, err, panic, ok_or, assert}
use human_program_library.Base.Words.{checked_add, u64_limit}
use human_program_library.Common.Errors.{
  ProgramError, custom, invalid_argument, illegal_owner, account_data_too_small,
  account_already_initialized, uninitialized_account, incorrect_program_id, account_not_rent_exempt,
  account_borrow_failed, invalid_account_data, cpi_failed,
}
use human_program_library.Common.Codec.{Bytes, try_from_slice}
use human_program_library.Common.Memory.{names}
use human_program_library.Common.Entity.{copy_slice}
use human_program_library.Common.Accounts.{
  AccountInfo, TokenState, Cursor, Handler, next_account_info, check, need,
}
use human_program_library.Escrow.Defs.{
  State, Request, funded, unfunded, unitialized, open_status, declined, request_status_eq, Voucher,
  expired,
}
use human_program_library.Escrow.Program.{Program}

-- The code of `Error::Overflow`.
abbrev pub overflow : ProgramError
overflow = custom 0

abbrev pub state_size : ℕ
state_size = 138

abbrev pub zeros : Bytes → Bytes
zeros [] = []
zeros (b ∷ bs) = 0 ∷ zeros bs

abbrev pub is_used : Result ProgramError State → Bool
is_used (ok s) = not (request_status_eq s.request_status unitialized)
is_used (err e) = false
is_used panic = false

-- `Ok(v) if v.amount > 0 => Some(v)`
abbrev pub with_amount : Result ProgramError Voucher → Option Voucher
with_amount (ok v) = if v.amount == 0 then none else some v
with_amount (err e) = none
with_amount panic = none

abbrev pub collected_of : Request → ℕ
collected_of (funded author) = 0
collected_of (unfunded r) = r.collected

module _ (p : Program) where
  open p use {rt, mem}

  abbrev pub authority : Pubkey → Pubkey
  authority state_addr = rt.find_address "A" (state_addr ∷ [])

  abbrev pub read : Pubkey → Handler rt Bytes
  read k (accs, w) = ok (mem.contents w k, (accs, w))

  abbrev pub write : Pubkey → Bytes → Handler rt (Unit {0})
  write k d (accs, w) = ok (tt, (accs, mem.set_contents k d w))

  abbrev pub lamports_of : Pubkey → Handler rt ℕ
  lamports_of k (accs, w) = ok (mem.lamports w k, (accs, w))

  abbrev pub set_lamports : Pubkey → ℕ → Handler rt (Unit {0})
  set_lamports k n (accs, w) = ok (tt, (accs, mem.set_lamports k n w))

  -- A call of another program; a failure of it fails the transaction.
  abbrev pub invoke_at :
      List AccountInfo → Option rt.World → Result ProgramError (Unit {0} × Cursor rt)
  invoke_at accs none = err cpi_failed
  invoke_at accs (some w) = ok (tt, (accs, w))

  abbrev pub invoke : Cpi → Handler rt (Unit {0})
  invoke c (accs, w) = invoke_at accs (rt.invoke c w)

  -- A call while the lamports of an account are borrowed: the runtime refuses to pass that account.
  abbrev pub invoke_borrowed : Pubkey → Cpi → Handler rt (Unit {0})
  invoke_borrowed borrowed c = do check rt (names c borrowed) account_borrow_failed; invoke c

  unfoldable pub write_state : Pubkey → State → Handler rt (Unit {0})
  write_state key state = do
    bytes ← read key
    check rt (ltb (length bytes) state_size) account_data_too_small
    check rt (is_used (try_from_slice p.states bytes)) account_already_initialized
    write key (copy_slice bytes (p.states.encode state))

  unfoldable pub next_owned_token_wallet : Pubkey → Handler rt (Pubkey × TokenState)
  next_owned_token_wallet state_addr = do
    wallet ← next_account_info rt
    check rt (wallet.owner != rt.token_program) invalid_argument
    account ← need rt (ok_or wallet.token invalid_account_data)
    check rt (account.owner != authority state_addr) illegal_owner
    check rt (elim account.close_authority [ none ↦ false | some a ↦ true ]) illegal_owner
    pure (wallet.key, account)

  unfoldable pub next_state_account : Handler rt (State × Pubkey)
  next_state_account = do
    state_acc ← next_account_info rt
    check rt (state_acc.owner != p.program_id) illegal_owner
    bytes ← read state_acc.key
    state ← need rt (try_from_slice p.states bytes)
    check rt (request_status_eq state.request_status unitialized) uninitialized_account
    pure (state, state_acc.key)

  unfoldable pub save_state : State → Pubkey → Handler rt (Unit {0})
  save_state state key = do bytes ← read key; write key (copy_slice bytes (p.states.encode state))

  -- The lamports of the state go to the payer, and its data is zeroed.
  unfoldable pub erase_state : State → Pubkey → Pubkey → Handler rt (Unit {0})
  erase_state state key payer = do
    need rt (assert (not (request_status_eq state.request_status open_status)))
    need rt (assert (collected_of state.request == 0))
    lamports ← lamports_of key
    set_lamports key 0
    payer_lamports ← lamports_of payer
    sum ← need rt (ok_or (checked_add u64_limit payer_lamports lamports) overflow)
    set_lamports payer sum
    bytes ← read key
    write key (zeros bytes)

  unfoldable pub get_voucher : AccountInfo → Handler rt (Option Voucher)
  get_voucher acc = do
    check rt (not acc.is_writable) invalid_argument
    check rt (acc.owner != p.program_id) incorrect_program_id
    bytes ← read acc.key
    lamports ← lamports_of acc.key
    check rt (ltb lamports (rt.rent_minimum (length bytes))) account_not_rent_exempt
    pure (with_amount (try_from_slice p.vouchers bytes))

  -- The lamports of the payer are borrowed by the caller.
  unfoldable pub redeem_voucher : Pubkey → Pubkey → Handler rt (Unit {0})
  redeem_voucher key payer = do
    check rt (key == payer) account_borrow_failed
    lamports ← lamports_of key
    set_lamports key 0
    payer_lamports ← lamports_of payer
    sum ← need rt (ok_or (checked_add u64_limit payer_lamports lamports) overflow)
    set_lamports payer sum
    bytes ← read key
    write key (zeros bytes)

  -- An expired request is declined and saved, and then the handler fails, which undoes it.
  unfoldable pub refuse_expired : State → Pubkey → ℤ → Handler rt (Unit {0})
  refuse_expired state key now =
      if expired state now
      then (do
        save_state (record state { request_status = declined }) key
        need rt (err (custom 0x17)))
      else pure tt

  -- `Rent::from_account_info` and `Clock::from_account_info`: the account must be the variable's.
  abbrev pub next_sysvar : Pubkey → Handler rt (Unit {0})
  next_sysvar id = do acc ← next_account_info rt; check rt (acc.key != id) invalid_argument
