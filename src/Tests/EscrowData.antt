-- ===== src/Tests/EscrowData.antt =====
-- Requests, accounts and worlds for the tests of the escrow program.
use human_program_library.Base.{ℕ, none, some, true, List, [], ◌∷◌, ◌==◌, if◌then◌else◌, Pubkey}
use human_program_library.Base.Int.{pos}
use human_program_library.Base.Result.{Result, ok, err, panic}
use human_program_library.Common.Codec.{Bytes}
use human_program_library.Common.Errors.{ProgramError}
use human_program_library.Common.Accounts.{AccountInfo}
use human_program_library.Escrow.Defs.{
  State, Request, RequestStatus, CreateInstruction, CreateInstructionRequest,
}
use human_program_library.Escrow.Program.{Program}
use human_program_library.Escrow.Contribute.{Contribution}
use human_program_library.Tests.Machine.{Machine, machine_runtime, machine_memory}
use human_program_library.Tests.Codecs.{state_codec, voucher_codec}

abbrev pub escrow : Program
escrow = record {
  rt = machine_runtime;
  mem = machine_memory;
  states = state_codec;
  vouchers = voucher_codec;
  program_id = 7;
  rent_id = 20;
  clock_id = 21;
  system_program = 22;
}

-- Every account of the program holds rent, the wallet 11 holds the tokens and wallet 30 has 500.
abbrev pub machine : ℕ → Bytes → Machine
machine tokens data_10 = record {
  balances = λ k. if k == 11 then tokens else if k == 30 then 500 else 0;
  lamports = λ k. 5_000;
  contents = λ k.
      if k == 10
      then data_10
      else if k == 13
      then voucher_codec.encode (record { state = 10; user = 5; amount = 20 })
      else [];
}

abbrev pub account : Pubkey → Pubkey → AccountInfo
account key owner = record {
  key = key;
  owner = owner;
  is_signer = true;
  is_writable = true;
  token = none;
}

abbrev pub token_account : Pubkey → Pubkey → ℕ → AccountInfo
token_account key owner amount = record {
  key = key;
  owner = 98;
  is_signer = true;
  is_writable = true;
  token = some (record {
    mint = 3;
    owner = owner;
    amount = amount;
    delegate = none;
    is_native = none;
    delegated_amount = 0;
    close_authority = none;
  });
}

abbrev pub state_acc : AccountInfo
state_acc = account 10 7

abbrev pub create_args : CreateInstructionRequest → CreateInstruction
create_args kind = record { dest = 40; payer = 12; rtype = kind }

abbrev pub unfunded_state : RequestStatus → ℕ → State
unfunded_state status collected = record {
  request_status = status;
  created_at = pos 5;
  wallet = 11;
  destination = 40;
  payer = 12;
  request =
      Request.unfunded
        (record { collected = collected; deadline = some (pos 100); accept_threshold = 50 });
}

abbrev pub stored : RequestStatus → ℕ → ℕ → Machine
stored status collected tokens =
    machine tokens (state_codec.encode (unfunded_state status collected))

abbrev pub world_of :
    {A : Type 0} → Machine → Result ProgramError (A × (List AccountInfo × Machine)) → Machine
world_of m (ok (a, (accs, w))) = w
world_of m (err e) = m
world_of m panic = m

abbrev pub contribution : Contribution
contribution = record { source = 30; delegate = 31; amount = 15; voucher_acc = account 13 7 }

abbrev pub at_request : Machine → List AccountInfo × Machine
at_request m = (state_acc ∷ [], m)
