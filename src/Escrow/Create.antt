-- ===== src/Escrow/Create.antt =====
-- `process_create` (escrow/src/lib.rs).
use human_program_library.Base.Int.{ℤ}
use human_program_library.Base.{ℕ, ltb, ◌==◌, ◌!=◌, if◌then◌else◌}
use human_program_library.Runtime.Action.{◌>>=◌, ◌>>◌}
use human_program_library.Base.Result.{Result, ok, err}
use human_program_library.Common.Errors.{
  ProgramError, insufficient_funds, invalid_account_data, account_not_rent_exempt,
}
use human_program_library.Common.Accounts.{Handler, next_account_info, check, need}
use human_program_library.Escrow.Defs.{
  unfunded, funded, Request, CreateInstruction, CreateInstructionRequest, open_status,
}
use human_program_library.Escrow.Program.{Program}
use human_program_library.Escrow.Storage.{
  state_size, lamports_of, write_state, next_owned_token_wallet,
}

-- The two branches of the sanity check.
check_wallet : CreateInstructionRequest → ℕ → Result ProgramError (Unit {0})
check_wallet (funded author) amount = if amount == 0 then err insufficient_funds else ok tt
check_wallet (unfunded deadline threshold) amount =
    if amount != 0 then err invalid_account_data else ok tt

unfoldable pub request_of : CreateInstructionRequest → Request
request_of (funded author) = Request.funded author
request_of (unfunded deadline threshold) =
    Request.unfunded (record { collected = 0; deadline = deadline; accept_threshold = threshold })

module _ (p : Program) where
  open p use {rt, mem}

  unfoldable pub process_create : CreateInstruction → ℤ → Handler rt (Unit {0})
  unfolding check_wallet request_of
  process_create args now = do
    state_acc ← next_account_info rt
    (wallet_addr, wallet) ← next_owned_token_wallet p state_acc.key
    lamports ← lamports_of p state_acc.key
    check rt (ltb lamports (rt.rent_minimum state_size)) account_not_rent_exempt
    need rt (check_wallet args.rtype wallet.amount)
    write_state p state_acc.key (record {
      request_status = open_status;
      created_at = now;
      wallet = wallet_addr;
      destination = args.dest;
      payer = args.payer;
      request = request_of args.rtype;
    })
