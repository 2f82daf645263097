-- ===== src/Escrow/Contribute.antt =====
-- `process_contribute` (escrow/src/lib.rs).
use human_program_library.Base.Int.{ℤ}
use human_program_library.Base.{ℕ, not, Option, none, some, ◌==◌, ◌!=◌, if◌then◌else◌, Pubkey}
use human_program_library.Runtime.{token_transfer}
use human_program_library.Runtime.Action.{◌>>=◌, ◌>>◌, pure}
use human_program_library.Base.Result.{Result, ok, err, ok_or}
use human_program_library.Base.Words.{checked_add, u64_limit}
use human_program_library.Common.Errors.{
  ProgramError, custom, invalid_argument, illegal_owner, invalid_account_data,
}
use human_program_library.Common.Entity.{copy_slice}
use human_program_library.Common.Accounts.{
  AccountInfo, Handler, next_account_info, check, need, next_expected_token_wallet,
  next_signer_account,
}
use human_program_library.Escrow.Defs.{State, Request, UnfundedRequest, Voucher, is_open}
use human_program_library.Escrow.Program.{Program}
use human_program_library.Escrow.Storage.{
  overflow, read, write, invoke, next_state_account, save_state, get_voucher, refuse_expired,
  next_sysvar,
}

-- The `match` on the request.
abbrev pub unfunded_of : Request → Result ProgramError UnfundedRequest
unfunded_of (Request.funded author) = err (custom 0x12)
unfunded_of (Request.unfunded r) = ok r

-- The amount on the voucher so far; the voucher of another user is refused.
unfoldable pub previous_amount : Option Voucher → Pubkey → Result ProgramError ℕ
previous_amount none user = ok 0
previous_amount (some v) user = if v.user != user then err illegal_owner else ok v.amount

-- What the accounts tell of a contribution: the source wallet, its delegate and the delegated amount,
-- and the account of the voucher.
pub record Contribution : Type 0 where
  pub source : Pubkey
  pub delegate : Pubkey
  pub amount : ℕ  -- u64
  pub voucher_acc : AccountInfo

module _ (p : Program) where
  open p use {rt, mem}

  -- The voucher is written with the new total, and the request counts the amount in.
  unfoldable pub record_contribution :
      State → Pubkey → Contribution → Pubkey → UnfundedRequest → ℕ → Handler rt (Unit {0})
  record_contribution state state_key c user request previous = do
    total ← need rt (ok_or (checked_add u64_limit previous c.amount) overflow)
    bytes ← read p c.voucher_acc.key
    write p c.voucher_acc.key (
        copy_slice bytes
          (p.vouchers.encode (record { state = state_key; user = user; amount = total })))
    collected ← need rt (ok_or (checked_add u64_limit request.collected c.amount) overflow)
    save_state p
        (record state { request = Request.unfunded (record request { collected = collected }) })
        state_key

  -- What follows once the accounts are read.
  unfoldable pub accept_contribution :
      State → Pubkey → Contribution → Pubkey → Handler rt (Unit {0})
  accept_contribution state state_key c user = do
    check rt (not (is_open state)) (custom 0x12)
    request ← need rt (unfunded_of state.request)
    invoke p (token_transfer c.source state.wallet c.delegate c.amount)
    voucher ← get_voucher p c.voucher_acc
    previous ← need rt (previous_amount voucher user)
    record_contribution state state_key c user request previous

  -- The accounts that follow the state: the wallet of the request, the source and its delegate, the
  -- voucher and the two system variables.
  unfoldable pub contribution_accounts : State → Handler rt Contribution
  contribution_accounts state = do
    next_expected_token_wallet rt state.wallet
    source_wallet ← next_signer_account rt state.destination
    check rt (source_wallet.owner != rt.token_program) illegal_owner
    source ← need rt (ok_or source_wallet.token invalid_account_data)
    check rt (source.delegated_amount == 0) invalid_argument
    delegate ← need rt (ok_or source.delegate invalid_argument)
    next_signer_account rt delegate
    voucher_acc ← next_account_info rt
    next_sysvar p p.rent_id
    next_sysvar p p.clock_id
    pure (record {
      source = source_wallet.key;
      delegate = delegate;
      amount = source.delegated_amount;
      voucher_acc = voucher_acc;
    })

  unfoldable pub process_contribute : Pubkey → ℤ → Handler rt (Unit {0})
  process_contribute user now = do
    (state, state_key) ← next_state_account p
    c ← contribution_accounts state
    refuse_expired p state state_key now
    accept_contribution state state_key c user
