-- ===== src/Tests/CallTests.antt =====
-- Whole deposits and withdrawals of the royalty program.
use human_program_library.Base.Lists.{contains}
use human_program_library.Base.Result.{ok}
use human_program_library.Base.{
  some, ◌==◌, if◌then◌else◌, Pubkey, ◌+◌, ◌-◌, ◌≤◌, ◌≡◌, refl, true, [], ◌∷◌, arith, Bool-cases,
  inl, inr, subst, sym,
}
use human_program_library.Common.Entity.{deserialize_from, serialize_to, is_initialized}
use human_program_library.Common.Accounts.{
  next_expected_token_wallet, next_atoken_wallet, next_signer_account, next_expected_account,
}
use human_program_library.Common.EntityAccounts.{next_entity, entity_from_acc, save_entity}
use human_program_library.Royalty.Defs.{State}
use human_program_library.Royalty.Distribute.{check_no_other_programs}
use human_program_library.Royalty.Program.{state_entity, voucher_entity}
use human_program_library.Royalty.Weights.{
  update_voter_weight, update_max_voter_weight, create_or_save_account, max_vote_weight,
  assert_no_unrequilished_votes,
}
use human_program_library.Royalty.Tokens.{
  process_deposit, deposit_accounts, check_deposit, open_voucher, record_deposit,
}
use human_program_library.Royalty.Withdraw.{
  process_withdraw, withdraw_accounts, check_withdraw, record_withdraw,
}
use human_program_library.Royalty.VoucherLedger.{balance_in}
use human_program_library.Royalty.LedgerSpec.{Ledger, IsLedger, deposited, withdrawn}
use human_program_library.Royalty.Calls.{
  process_withdraw_recorded, withdraw_refines_ledger, deposit_refines_ledger,
}
use human_program_library.Tests.Machine.{Machine}
use human_program_library.Tests.EscrowData.{world_of, account}
use human_program_library.Tests.RoyaltyData.{
  royalty, state_holding, voucher_holding, royalty_machine, withdraw_from, deposit_by,
  withdraw_accs, deposit_accs,
}

-- A voucher of the state 99 takes 100 tokens from the wallet of the state 50.
abbrev after_foreign : Machine
unfolding process_withdraw next_entity entity_from_acc withdraw_accounts next_expected_token_wallet
    next_atoken_wallet next_signer_account next_expected_account check_withdraw
    assert_no_unrequilished_votes record_withdraw update_voter_weight update_max_voter_weight
    create_or_save_account max_vote_weight save_entity serialize_to deserialize_from
after_foreign =
    world_of royalty_machine
      (process_withdraw royalty 100 (account 50 7 ∷ withdraw_accs 61, royalty_machine))

process_withdraw_recorded_example :
    (100 ≤ 150)
    × (100 ≤ 500)
    × (after_foreign.balances 206 + 100 ≡ 500)
    × (after_foreign.balances 1_005 ≡ 80 + 100)
    × (deserialize_from (voucher_entity royalty) (after_foreign.contents 61)
        ≡ ok (voucher_holding 5 99 (150 - 100)))
    × (deserialize_from (state_entity royalty) (after_foreign.contents 50)
        ≡ ok (state_holding (500 - 100)))
unfolding process_withdraw next_entity entity_from_acc withdraw_accounts next_expected_token_wallet
    next_atoken_wallet next_signer_account next_expected_account check_withdraw
    assert_no_unrequilished_votes record_withdraw update_voter_weight update_max_voter_weight
    create_or_save_account max_vote_weight save_entity serialize_to deserialize_from
process_withdraw_recorded_example =
    process_withdraw_recorded royalty 100 (state_holding 500) 50
      (withdraw_from 61 (voucher_holding 5 99 150)) (account 50 7 ∷ withdraw_accs 61)
      (withdraw_accs 61) [] [] royalty_machine royalty_machine royalty_machine after_foreign tt refl
      refl (λ e. absurd (omega arith)) refl

-- The ledger of the two vouchers before the deposit.
abbrev ledger : Ledger
ledger = record { total = 500; balance = λ k. if k == 207 then 300 else 200 }

ledger_before :
    (k : Pubkey)
    → contains k (207 ∷ 60 ∷ []) ≡ true
    → balance_in royalty royalty_machine k ≡ ledger.balance k
unfolding balance_in deserialize_from serialize_to
ledger_before k h = elim (Bool-cases (k == 207)) [
  | inl first ↦
      (let at : k ≡ 207 = ground arith in
        subst (λ j. balance_in royalty royalty_machine j ≡ ledger.balance j) (sym at) refl)
  | inr other ↦
      (let at : k ≡ 60 = ground arith in
        subst (λ j. balance_in royalty royalty_machine j ≡ ledger.balance j) (sym at) refl)
]

abbrev after_withdraw : Machine
unfolding process_withdraw next_entity entity_from_acc withdraw_accounts next_expected_token_wallet
    next_atoken_wallet next_signer_account next_expected_account check_withdraw
    assert_no_unrequilished_votes record_withdraw update_voter_weight update_max_voter_weight
    create_or_save_account max_vote_weight save_entity serialize_to deserialize_from
after_withdraw =
    world_of royalty_machine
      (process_withdraw royalty 100 (account 50 7 ∷ withdraw_accs 207, royalty_machine))

withdraw_refines_ledger_example :
    (l' : Ledger) × (s' : State) × (withdrawn 207 100 ledger ≡ some l')
    × (deserialize_from (state_entity royalty) (after_withdraw.contents 50) ≡ ok s')
    × IsLedger royalty (207 ∷ 60 ∷ []) s' after_withdraw l'
unfolding process_withdraw next_entity entity_from_acc withdraw_accounts next_expected_token_wallet
    next_atoken_wallet next_signer_account next_expected_account check_withdraw
    assert_no_unrequilished_votes record_withdraw update_voter_weight update_max_voter_weight
    create_or_save_account max_vote_weight save_entity serialize_to deserialize_from IsLedger
withdraw_refines_ledger_example =
    withdraw_refines_ledger royalty (207 ∷ 60 ∷ []) ledger 100 (state_holding 500) 50
      (withdraw_from 207 (voucher_holding 5 50 300)) (account 50 7 ∷ withdraw_accs 207)
      (withdraw_accs 207) [] [] royalty_machine royalty_machine royalty_machine after_withdraw tt
      refl refl refl refl refl refl (λ e. absurd (omega arith)) (refl, ledger_before) refl

abbrev after_deposit : Machine
unfolding process_deposit next_entity entity_from_acc deposit_accounts next_expected_token_wallet
    next_atoken_wallet next_signer_account next_expected_account check_deposit
    check_no_other_programs open_voucher is_initialized record_deposit update_voter_weight
    update_max_voter_weight create_or_save_account max_vote_weight save_entity serialize_to
    deserialize_from
after_deposit =
    world_of royalty_machine
      (process_deposit royalty 30 (account 50 7 ∷ deposit_accs, royalty_machine))

deposit_refines_ledger_example :
    (s' : State) × (deserialize_from (state_entity royalty) (after_deposit.contents 50) ≡ ok s')
    × IsLedger royalty (207 ∷ 60 ∷ []) s' after_deposit (deposited 207 30 ledger)
unfolding process_deposit next_entity entity_from_acc deposit_accounts next_expected_token_wallet
    next_atoken_wallet next_signer_account next_expected_account check_deposit
    check_no_other_programs open_voucher is_initialized record_deposit update_voter_weight
    update_max_voter_weight create_or_save_account max_vote_weight save_entity serialize_to
    deserialize_from IsLedger
deposit_refines_ledger_example =
    deposit_refines_ledger royalty (207 ∷ 60 ∷ []) ledger 30 (state_holding 500) 50 deposit_by
      (account 50 7 ∷ deposit_accs) deposit_accs [] [] royalty_machine royalty_machine
      royalty_machine after_deposit tt refl refl refl refl refl (λ e. absurd (omega arith))
      (refl, ledger_before) refl
