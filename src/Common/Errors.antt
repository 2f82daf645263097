-- ===== src/Common/Errors.antt =====
-- `ProgramError` of the Solana SDK, as far as the programs return it. `custom` carries the code of a
-- program's own error.
use human_program_library.Base.{ℕ}

pub data ProgramError : Type 0 where
  custom : ℕ → ProgramError
  invalid_argument invalid_account_data account_data_too_small insufficient_funds : ProgramError
  incorrect_program_id missing_required_signature account_already_initialized : ProgramError
  uninitialized_account not_enough_account_keys account_borrow_failed invalid_seeds : ProgramError
  borsh_io_error account_not_rent_exempt illegal_owner unsupported_sysvar : ProgramError
  cpi_failed invalid_instruction_data : ProgramError
