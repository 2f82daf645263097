-- ===== src/Tests/RoundTests.antt =====
-- The handlers on bids at concrete inputs.
use human_program_library.Precise.Chain.{div_mul}
use human_program_library.Base.Int.{pos}
use human_program_library.Base.Result.{ok}
use human_program_library.Base.{
  ◌<◌, Option, ◌==◌, default_pubkey, if◌then◌else◌, ◌+◌, ◌≡◌, refl, true, false, none, some, [],
  ◌∷◌, arith, ℕ,
}
use human_program_library.Precise.Reference.{reference}
use human_program_library.Tests.Fixtures.{table_runtime, move_tokens}
use human_program_library.Round.Defs.{RoundStatus, accepted, Round, Voucher}
use human_program_library.Round.Guards.{
  assert_can_contribute, assert_can_withdraw, assert_can_redeem,
}
use human_program_library.Round.Redeem.{calculate_redeem_amount}
use human_program_library.Round.Context.{
  Withdraw, Redeem, contribute_constraints, withdraw_constraints, redeem_constraints,
}
use human_program_library.Round.Bids.{
  register_voucher, withdraw_reason, redeem_target, transfer_to_user, Outcome, init_if_needed,
  contribute, withdraw, redeem, refund_bid_to_recipient,
}
use human_program_library.Round.BidLaws.{
  deposit_of, contribute_deposits, withdraw_refunds, redeem_pays,
}
use human_program_library.Round.Events.{user_initiated, contribute_event, withdraw_event, redeemed}
use human_program_library.Tests.RoundData.{open_round, balances, contribution}

abbrev deposited : Voucher
deposited = record { user = 7; round = 1; payer = 13; amount_contributed = 25; is_fiat = false }

abbrev contributed : Outcome
contributed = record {
  round = record open_round { vouchers_count = 1 };
  voucher = some deposited;
  events = contribute_event 1 7 31 32 25 false ∷ [];
}

contributes_25 :
    contribute table_runtime contribution (pos 1_500) balances
    ≡ ok (contributed, move_tokens 51 203 25 balances)
unfolding contribute contribute_constraints assert_can_contribute register_voucher
contributes_25 = refl

contribute_deposits_example :
    (0 < 25)
    × (◌≡◌ {A = ℕ} (deposit_of (some deposited)) (deposit_of none + 25))
    × (move_tokens 51 203 25 balances 203 ≡ balances 203 + 25)
    × (move_tokens 51 203 25 balances 51 + 25 ≡ balances 51)
    × (◌≡◌ {A = ℕ} 1 (0 + (if (init_if_needed none).payer == default_pubkey then 1 else 0)))
    × (assert_can_contribute open_round (pos 1_500) ≡ ok tt)
contribute_deposits_example =
    contribute_deposits table_runtime balances (move_tokens 51 203 25 balances) contribution
      (pos 1_500) contributed (omega arith) contributes_25

-- The voucher of user 7 is paid back to the associated wallet.
abbrev withdrawal : Withdraw
withdrawal = record {
  round_key = 1;
  round = record open_round { vouchers_count = 1 };
  voucher_key = 207;
  voucher = deposited;
  user = 7;
  user_is_signer = true;
  user_wallet = 1_007;
  bid_wallet = record {
    key = 203;
    mint = 31;
    amount = 40;
    delegate = none;
    delegated_amount = 0;
    is_native = none;
  };
  authority = 204;
  wsol_mint = 99;
  payer = 13;
  current_payer = 13;
  current_payer_is_signer = true;
}

abbrev withdrawn : Outcome
withdrawn = record {
  round = open_round;
  voucher = none;
  events = withdraw_event 1 7 31 32 25 user_initiated ∷ [];
}

withdraws_25 :
    withdraw table_runtime withdrawal (pos 1_600) balances
    ≡ ok (withdrawn, move_tokens 203 1_007 25 balances)
unfolding withdraw withdraw_constraints assert_can_withdraw refund_bid_to_recipient withdraw_reason
withdraws_25 = refl

withdraw_refunds_example :
    (◌≡◌ {A = Option Voucher} none none)
    × (◌≡◌ {A = ℕ} (0 + 1) 1)
    × (move_tokens 203 1_007 25 balances 203 + 25 ≡ balances 203)
    × (move_tokens 203 1_007 25 balances 1_007 ≡ balances 1_007 + 25)
    × (◌≡◌ {A = ℕ} 1_007 (table_runtime.associated_token 7 31))
    × (assert_can_withdraw (record open_round { vouchers_count = 1 }) (pos 1_600) true ≡ ok tt)
withdraw_refunds_example =
    withdraw_refunds table_runtime balances (move_tokens 203 1_007 25 balances) withdrawal
      (pos 1_600) withdrawn refl (omega arith) withdraws_25

abbrev redeemable : Round
redeemable = record open_round { status = accepted; vouchers_count = 2; total_bid = some 40 }

abbrev redemption : Redeem
redemption = record {
  round_key = 1;
  round = redeemable;
  voucher_key = 207;
  voucher = deposited;
  user = 7;
  user_is_signer = true;
  user_wallet = record {
    key = 52;
    mint = 32;
    amount = 0;
    delegate = none;
    delegated_amount = 0;
    is_native = none;
  };
  offer_wallet = record {
    key = 205;
    mint = 32;
    amount = 100;
    delegate = none;
    delegated_amount = 0;
    is_native = none;
  };
  authority = 204;
  payer = 13;
}

abbrev redeemed_once : Outcome
redeemed_once = record {
  round = record redeemable { vouchers_count = 1 };
  voucher = none;
  events = redeemed 1 7 31 32 63 ∷ [];
}

redeems_63 :
    redeem table_runtime reference redemption balances
    ≡ ok (redeemed_once, move_tokens 205 52 63 balances)
unfolding redeem redeem_constraints assert_can_redeem redeem_target transfer_to_user
    calculate_redeem_amount div_mul
redeems_63 = refl

redeem_pays_example :
    (amount : ℕ) × (calculate_redeem_amount reference 40 40 25 100 ≡ some amount)
    × (move_tokens 205 52 63 balances 205 + amount ≡ balances 205)
    × (move_tokens 205 52 63 balances 52 ≡ balances 52 + amount)
    × (◌≡◌ {A = Option Voucher} none none)
    × (◌≡◌ {A = ℕ} (1 + 1) 2)
    × (◌≡◌ {A = RoundStatus} accepted accepted)
redeem_pays_example =
    redeem_pays table_runtime balances (move_tokens 205 52 63 balances) reference redemption
      redeemed_once 40 100 (omega arith) refl refl redeems_63
