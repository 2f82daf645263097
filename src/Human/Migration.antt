-- ===== src/Human/Migration.antt =====
-- The first state of a contract and the migration of an old one (`init_state`, `try_migrate_state`
-- and `ContractStateV3::migrate` of human/src/state.rs).
use human_program_library.Base.{Option, none, some, ◌∷◌, ◌==◌, ◌!=◌, if◌then◌else◌, Pubkey}
use human_program_library.Base.Int.{ℤ}
use human_program_library.Base.Result.{Result, ok, err, ◌>>=◌, ◌>>◌, fail_if}
use human_program_library.Common.Errors.{
  ProgramError, invalid_account_data, account_data_too_small, account_already_initialized,
}
use human_program_library.Common.Codec.{Bytes}
use human_program_library.Common.Entity.{
  is_empty, copy_slice, tail_of, first_byte, deserialize_from, serialize_to, is_initialized,
}
use human_program_library.Human.State.{ContractState, DropV2}
use human_program_library.Human.Program.{
  Program, DropV1, OldSplit, ContractStateV3, contract_state, contract_state_v3,
}

pub record InitInstruction : Type 0 where
  pub owner : Pubkey
  pub admin : Pubkey
  pub commission : Pubkey
  pub treasury : Pubkey
  pub swap_state : Pubkey

-- `Option::map` on the drop.
unfoldable pub migrate_drop : Option DropV1 → ℤ → Option DropV2
migrate_drop none now = none
migrate_drop (some d) now = some (record {
  id = 0;
  price = d.price;
  amount = 10_000_000;
  created_at = now;
  start_date = d.start_date;
  end_date = d.end_date;
})

-- `map` and `unwrap_or` on the additional split.
unfoldable pub split_or : Option OldSplit → Pubkey → Pubkey
split_or none treasury = treasury
split_or (some s) treasury = s.split_addr

unfoldable pub migrate :
    ContractStateV3 → (swap_state new_commission treasury : Pubkey) → ℤ → ContractState
migrate s swap_state new_commission treasury now = record {
  token = s.token;
  owner = s.owner;
  admin = s.admin;
  commission_addr = new_commission;
  treasury_addr = split_or s.additional_split treasury;
  swap_state = swap_state;
  sold = s.sold;
  vest = s.vest;
  drop = migrate_drop s.drop now;
  current_round = none;
  completed_rounds_count = 0;
}

module _ (p : Program) where
  -- The branch of `ContractStateV3::MAGIC`.
  unfoldable pub from_v3 :
      Bytes → (swap_state new_commission treasury : Pubkey) → ℤ → Result ProgramError Bytes
  from_v3 bytes swap_state new_commission treasury now = do
    v3 ← deserialize_from (contract_state_v3 p) bytes
    ok (
        0x45
        ∷ copy_slice (tail_of bytes)
            (p.states.encode (migrate v3 swap_state new_commission treasury now)))

  -- The data that `try_migrate_state` leaves.
  unfoldable pub try_migrate_state :
      Bytes → (swap_state new_commission treasury : Pubkey) → ℤ → Result ProgramError Bytes
  try_migrate_state bytes swap_state new_commission treasury now = do
    fail_if (is_empty bytes) invalid_account_data
    if first_byte bytes == 0x45
        then ok bytes
        else if first_byte bytes == 0x44
        then from_v3 bytes swap_state new_commission treasury now
        else err invalid_account_data

  -- The data that `init_state` leaves.
  unfoldable pub init_state : Bytes → Pubkey → InitInstruction → ℤ → Result ProgramError Bytes
  init_state bytes token args now = do
    fail_if (is_empty bytes) account_data_too_small
    fail_if (first_byte bytes != 0) account_already_initialized
    fail_if (is_initialized (contract_state p) bytes) account_already_initialized
    serialize_to (contract_state p)
        (record {
          token = token;
          owner = args.owner;
          admin = args.admin;
          commission_addr = args.commission;
          treasury_addr = args.treasury;
          swap_state = args.swap_state;
          sold = 0;
          vest = record { deployed_at = now; vested_periods = 0 };
          drop = none;
          current_round = none;
          completed_rounds_count = 0;
        })
        bytes
