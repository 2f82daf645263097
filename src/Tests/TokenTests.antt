-- ===== src/Tests/TokenTests.antt =====
-- The handlers of the royalty program at concrete states.
use human_program_library.Base.Result.{ok}
use human_program_library.Base.{◌+◌, ◌≡◌, refl, [], ◌∷◌, arith}
use human_program_library.Common.EntityAccounts.{save_entity, initialize_account}
use human_program_library.Common.Entity.{
  deserialize_from, serialize_to, initialize_entity, is_initialized,
}
use human_program_library.Royalty.Defs.{State}
use human_program_library.Royalty.Split.{valid}
use human_program_library.Royalty.Distribute.{fixed_settings}
use human_program_library.Royalty.Program.{state_entity}
use human_program_library.Royalty.Weights.{
  update_voter_weight, update_max_voter_weight, create_or_save_account, max_vote_weight,
}
use human_program_library.Royalty.Withdraw.{record_withdraw}
use human_program_library.Royalty.Account.{InitializeArgs, process_initialize, initial_state}
use human_program_library.Royalty.VoucherLedger.{held_by, balance_in}
use human_program_library.Royalty.WithdrawLaws.{withdraw_keeps_books}
use human_program_library.Tests.Machine.{Machine}
use human_program_library.Tests.Codecs.{pad}
use human_program_library.Tests.EscrowData.{world_of, account}
use human_program_library.Tests.RoyaltyData.{
  royalty, state_holding, voucher_holding, royalty_machine, withdraw_from,
}

-- A voucher of the state itself.
abbrev after_withdraw : Machine
unfolding record_withdraw update_voter_weight update_max_voter_weight create_or_save_account
    max_vote_weight save_entity serialize_to
after_withdraw = world_of royalty_machine (
    record_withdraw royalty (state_holding 500) 50 (withdraw_from 207 (voucher_holding 5 50 300))
      100 ([], royalty_machine))

withdraw_keeps_books_example :
    (s' : State) × (deserialize_from (state_entity royalty) (after_withdraw.contents 50) ≡ ok s')
    × (s'.tokens_held ≡ held_by royalty (207 ∷ 60 ∷ []) after_withdraw)
    × (s'.tokens_held + 100 ≡ 500)
unfolding record_withdraw update_voter_weight update_max_voter_weight create_or_save_account
    max_vote_weight save_entity serialize_to deserialize_from held_by balance_in
withdraw_keeps_books_example =
    withdraw_keeps_books royalty (207 ∷ 60 ∷ []) (state_holding 500) 50
      (withdraw_from 207 (voucher_holding 5 50 300)) 100 [] [] royalty_machine after_withdraw tt
      (refl, (refl, tt)) refl refl refl refl (omega arith) refl refl refl

-- A state in account 90, whose data is still empty.
abbrev empty_machine : Machine
empty_machine = record { balances = λ k. 0; lamports = λ k. 5_000_000; contents = λ k. pad 512 [] }

abbrev init_args : InitializeArgs
init_args = record {
  owner = 40;
  host = 41;
  settings = fixed_settings;
  realm_addr = 70;
  vault_addr = 71;
}

abbrev after_initialize : Machine
unfolding process_initialize initialize_account initialize_entity is_initialized serialize_to valid
    initial_state
after_initialize = world_of empty_machine (
    process_initialize royalty init_args (
      account 90 7
          ∷ account 3 98
          ∷ account 206 22
          ∷ account 12 22
          ∷ account 22 22
          ∷ account 98 22
          ∷ [],
      empty_machine,
    ))
