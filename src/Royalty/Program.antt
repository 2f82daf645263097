-- ===== src/Royalty/Program.antt =====
-- What the handlers of the royalty program run on: the runtime with its memory, borsh for its
-- accounts, the addresses of other programs, and what it uses of the governance program and of the
-- system variable that lists the instructions of the transaction. None of this is code of the
-- repository, so it is a parameter.
use human_program_library.Base.{ℕ, List, Pubkey}
use human_program_library.Base.Result.{Result, ok, err, panic}
use human_program_library.Runtime.{Runtime}
use human_program_library.Common.Errors.{ProgramError, custom}
use human_program_library.Common.Codec.{Codec}
use human_program_library.Common.Memory.{Memory}
use human_program_library.Common.Entity.{Entity}
use human_program_library.Royalty.Defs.{
  State, Voucher, RoyaltyError, Failure, royalty_error, less_than_deposit_minimum,
  blacklisted_for_enroll, no_other_programs_allowed, voucher_not_eligible, overflow,
  invalid_voucher, not_enough_to_start_distribution, zero_token_balance, temporary_unavailable,
  insufficient_balance, unrelinquished_votes,
}

-- The fields that the program sets of `VoterWeightRecord` and of `MaxVoterWeightRecord`.
pub record VoterWeight : Type 0 where
  pub realm : Pubkey
  pub governing_token_mint : Pubkey
  pub governing_token_owner : Pubkey
  pub voter_weight : ℕ  -- u64

pub record MaxVoterWeight : Type 0 where
  pub realm : Pubkey
  pub governing_token_mint : Pubkey
  pub max_voter_weight : ℕ  -- u64

-- What the program reads of a token owner record of the governance program.
pub record TokenOwnerRecord : Type 0 where
  pub realm : Pubkey
  pub governing_token_mint : Pubkey
  pub governing_token_owner : Pubkey
  pub unrelinquished_votes_count : ℕ  -- u32

pub record Program : Type 1 where
  pub rt : Runtime
  pub mem : Memory rt
  pub states : Codec State
  pub vouchers : Codec Voucher
  pub weights : Codec VoterWeight
  pub max_weights : Codec MaxVoterWeight
  pub program_id : Pubkey
  pub system_program : Pubkey
  pub associated_token_program : Pubkey
  pub round_program : Pubkey
  pub compute_budget_program : Pubkey
  pub instructions_id : Pubkey
  pub programs_called : rt.World → List Pubkey
  pub token_owner_record_address : (realm mint user : Pubkey) → Pubkey
  pub token_owner_record : rt.World → Pubkey → Result ProgramError TokenOwnerRecord

-- The two `impl Entity`.
abbrev pub state_entity : Program → Entity State
state_entity p = record { size = 512; magic = 0x77; codec = p.states }

abbrev pub voucher_entity : Program → Entity Voucher
voucher_entity p = record { size = 128; magic = 0x55; codec = p.vouchers }

-- `From<Error> for ProgramError`
abbrev pub error_code : RoyaltyError → ℕ
error_code less_than_deposit_minimum = 0
error_code blacklisted_for_enroll = 1
error_code no_other_programs_allowed = 2
error_code voucher_not_eligible = 3
error_code overflow = 4
error_code invalid_voucher = 5
error_code not_enough_to_start_distribution = 6
error_code zero_token_balance = 7
error_code temporary_unavailable = 8
error_code insufficient_balance = 9
error_code unrelinquished_votes = 10

abbrev pub error_of : RoyaltyError → ProgramError
error_of e = custom (error_code e)

abbrev pub program_error : Failure → ProgramError
program_error (royalty_error e) = error_of e
program_error Failure.illegal_owner = ProgramError.illegal_owner
program_error Failure.invalid_argument = ProgramError.invalid_argument
program_error Failure.missing_required_signature = ProgramError.missing_required_signature
program_error Failure.account_not_rent_exempt = ProgramError.account_not_rent_exempt
program_error Failure.account_borrow_failed = ProgramError.account_borrow_failed

abbrev pub with_program_error : {A : Type 0} → Result Failure A → Result ProgramError A
with_program_error (ok a) = ok a
with_program_error (err e) = err (program_error e)
with_program_error panic = panic
