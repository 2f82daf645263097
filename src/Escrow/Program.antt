-- ===== src/Escrow/Program.antt =====
-- What the escrow program runs on: the runtime with its memory, the serialization of its two kinds
-- of accounts, its own address and those of the system variables.
use human_program_library.Base.{Pubkey}
use human_program_library.Runtime.{Runtime}
use human_program_library.Common.Codec.{Codec}
use human_program_library.Common.Memory.{Memory}
use human_program_library.Escrow.Defs.{State, Voucher}

pub record Program : Type 1 where
  pub rt : Runtime
  pub mem : Memory rt
  pub states : Codec State
  pub vouchers : Codec Voucher
  pub program_id : Pubkey
  pub rent_id : Pubkey
  pub clock_id : Pubkey
  pub system_program : Pubkey
