-- ===== src/Human/Program.antt =====
-- What the handlers on the state of a contract run on: the runtime with its memory, borsh for the two
-- versions of the state, and the mint authority that `Mint::unpack` finds. `Human/Migration` is about
-- the versions (human/src/state.rs).
use human_program_library.Base.{ℕ, Option, Pubkey}
use human_program_library.Base.Int.{ℤ}
use human_program_library.Base.Result.{Result}
use human_program_library.Runtime.{Runtime}
use human_program_library.Common.Codec.{Codec}
use human_program_library.Common.Errors.{ProgramError}
use human_program_library.Common.Memory.{Memory}
use human_program_library.Common.Entity.{Entity}
use human_program_library.Human.Defs.{VestState}
use human_program_library.Human.State.{ContractState}

pub record DropV1 : Type 0 where
  pub price : ℕ  -- u64
  pub start_date : ℤ  -- UnixTimestamp
  pub end_date : ℤ

-- An additional split of the old state.
pub record OldSplit : Type 0 where
  pub percent : ℕ  -- u16
  pub split_addr : Pubkey

pub record ContractStateV3 : Type 0 where
  pub token : Pubkey
  pub owner : Pubkey
  pub admin : Pubkey
  pub commission_addr : Pubkey
  pub sold : ℕ  -- u64
  pub vest : VestState
  pub drop : Option DropV1
  pub additional_split : Option OldSplit

pub record Program : Type 1 where
  pub rt : Runtime
  pub mem : Memory rt
  pub states : Codec ContractState
  pub old_states : Codec ContractStateV3
  pub program_id : Pubkey
  pub system_program : Pubkey
  pub mint_authority : rt.World → Pubkey → Result ProgramError (Option Pubkey)

-- `STATE_ACC_SIZE`
abbrev pub state_acc_size : ℕ
state_acc_size = 513

-- The `impl Entity` of the two versions.
abbrev pub contract_state : Program → Entity ContractState
contract_state p = record { size = state_acc_size; magic = 0x45; codec = p.states }

abbrev pub contract_state_v3 : Program → Entity ContractStateV3
contract_state_v3 p = record { size = state_acc_size; magic = 0x44; codec = p.old_states }
