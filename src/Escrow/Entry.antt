-- ===== src/Escrow/Entry.antt =====
-- The entry point of the program: `process_instruction` (escrow/src/lib.rs).
use human_program_library.Base.Int.{ℤ}
use human_program_library.Base.Result.{Result, ok, err, panic}
use human_program_library.Base.{Pubkey}
use human_program_library.Runtime.Action.{◌>>=◌}
use human_program_library.Common.Errors.{ProgramError, invalid_instruction_data}
use human_program_library.Common.Codec.{Bytes, Codec, try_from_slice}
use human_program_library.Common.Accounts.{Handler, need}
use human_program_library.Escrow.Defs.{CreateInstruction}
use human_program_library.Escrow.Program.{Program}
use human_program_library.Escrow.Create.{process_create}
use human_program_library.Escrow.Contribute.{process_contribute}
use human_program_library.Escrow.Refund.{process_refund}
use human_program_library.Escrow.Decide.{process_accept, process_cancel, process_decline}

pub data Instruction : Type 0 where
  create : CreateInstruction → Instruction
  contribute : (user : Pubkey) → Instruction
  refund cancel accept decline : Instruction

-- `map_err`
abbrev parsed : {A : Type 0} → Result ProgramError A → Result ProgramError A
parsed (ok a) = ok a
parsed (err e) = err invalid_instruction_data
parsed panic = panic

module _ (p : Program) where
  open p use {rt}

  -- The `match` on the instruction.
  unfoldable pub process : Instruction → ℤ → Handler rt (Unit {0})
  process (create args) now = process_create p args now
  process (contribute user) now = process_contribute p user now
  process refund now = process_refund p
  process cancel now = process_cancel p
  process accept now = process_accept p now
  process decline now = process_decline p

  unfoldable pub process_instruction : Codec Instruction → Bytes → ℤ → Handler rt (Unit {0})
  process_instruction instructions instruction_data now = do
    instruction ← need rt (parsed (try_from_slice instructions instruction_data))
    process instruction now
