-- ===== src/Tests/ContractTests.antt =====
-- The state of a contract of the human program at concrete accounts.
use human_program_library.Base.Int.{pos}
use human_program_library.Base.Result.{ok}
use human_program_library.Base.{true, false, [], ◌≡◌, refl, none, ◌∷◌, ◌==◌, if◌then◌else◌, Pubkey}
use human_program_library.Common.Entity.{serialize_to, deserialize_from}
use human_program_library.Common.EntityAccounts.{next_entity, entity_from_acc, save_entity}
use human_program_library.Common.Accounts.{AccountInfo, next_signer_account}
use human_program_library.Human.State.{ContractState}
use human_program_library.Human.Program.{ContractStateV3, contract_state, contract_state_v3}
use human_program_library.Human.Contract.{process_migrate_state, process_set_admin}
use human_program_library.Human.ContractLaws.{migrate_state_unguarded, admin_signs_change}
use human_program_library.Tests.Machine.{Machine, ok_bytes}
use human_program_library.Tests.Codecs.{pad}
use human_program_library.Tests.EscrowData.{world_of, account}
use human_program_library.Tests.ContractCodecs.{human, human_small}

-- An old contract in account 10, and its new state in account 11.
abbrev old_contract : ContractStateV3
old_contract = record {
  token = 3;
  owner = 40;
  admin = 41;
  commission_addr = 42;
  sold = 9;
  vest = record { deployed_at = pos 5; vested_periods = 2 };
  drop = none;
  additional_split = none;
}

abbrev new_contract : Pubkey → ContractState
new_contract admin = record {
  token = 3;
  owner = 40;
  admin = admin;
  commission_addr = 42;
  treasury_addr = 43;
  swap_state = 44;
  sold = 9;
  vest = record { deployed_at = pos 5; vested_periods = 2 };
  drop = none;
  current_round = none;
  completed_rounds_count = 0;
}

abbrev contracts : Machine
unfolding serialize_to
contracts = record {
  balances = λ k. 0;
  lamports = λ k. 0;
  contents = λ k.
      if k == 10
      then ok_bytes (serialize_to (contract_state_v3 human) old_contract (pad 513 []))
      else if k == 11
      then ok_bytes (serialize_to (contract_state human) (new_contract 41) (pad 513 []))
      else [];
}

-- The accounts are not signed, and the commission and the treasury are chosen freely.
abbrev unsigned : Pubkey → AccountInfo
unsigned k = record { key = k; owner = 99; is_signer = false; is_writable = true; token = none }

migrate_state_unguarded_example :
    (w' : Machine) × (s' : ContractState) × (process_migrate_state human
        (pos 100)
        (unsigned 10 ∷ unsigned 3 ∷ unsigned 66 ∷ unsigned 67 ∷ [], contracts)
      ≡ ok (tt, ([], w')))
    × (deserialize_from (contract_state human) (w'.contents 10) ≡ ok s')
    × (s'.commission_addr ≡ 66)
    × (s'.swap_state ≡ 3)
    × (s'.treasury_addr ≡ 67)
    × (s'.token ≡ 3)
    × (s'.owner ≡ 40)
    × (s'.admin ≡ 41)
    × (s'.sold ≡ 9)
    × (s'.vest ≡ old_contract.vest)
unfolding deserialize_from serialize_to
migrate_state_unguarded_example =
    migrate_state_unguarded human (pos 100) (unsigned 10) (unsigned 3) (unsigned 66) (unsigned 67)
      [] contracts old_contract human_small refl

-- The admin 41 hands over to 77.
abbrev after_change : Machine
unfolding process_set_admin next_entity entity_from_acc deserialize_from next_signer_account
    save_entity serialize_to
after_change =
    world_of contracts (process_set_admin human 77 (account 11 7 ∷ account 41 22 ∷ [], contracts))

admin_signs_change_example :
    (41 ≡ (new_contract 41).admin)
    × (true ≡ true)
    × (deserialize_from (contract_state human) (after_change.contents 11) ≡ ok (new_contract 77))
unfolding process_set_admin next_entity entity_from_acc deserialize_from next_signer_account
    save_entity serialize_to
admin_signs_change_example =
    admin_signs_change human 77 (account 41 22) (account 11 7 ∷ account 41 22 ∷ []) [] []
      (new_contract 41) 11 contracts contracts after_change tt refl refl
