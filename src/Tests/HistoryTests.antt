-- ===== src/Tests/HistoryTests.antt =====
-- Histories of a round at concrete inputs.
use human_program_library.Base.Int.{pos, checked_add_i64}
use human_program_library.Base.Result.{ok, panic}
use human_program_library.Base.{
  List, ◌==◌, if◌then◌else◌, ◌≡◌, refl, ◌≢◌, true, none, some, [], ◌∷◌, ℕ,
}
use human_program_library.Precise.Reference.{reference}
use human_program_library.Tests.Fixtures.{Table, table_runtime, move_tokens}
use human_program_library.Round.Defs.{accepted, Round}
use human_program_library.Round.Guards.{
  heir_timeout_date, assert_can_accept_or_reject, assert_can_contribute, assert_can_cancel,
  can_withdraw_due_heir_inactivity,
}
use human_program_library.Round.Context.{contribute_constraints}
use human_program_library.Round.Bids.{register_voucher, contribute}
use human_program_library.Round.Lifecycle.Context.{
  CreateRound, CreateRoundParams, Accept, Cancel, create_round_constraints, accept_constraints,
  cancel_constraints,
}
use human_program_library.Round.Lifecycle.{
  create_round, accept, cancel, transfer_bid_to_recipient, decide_status,
}
use human_program_library.Round.Events.{round_created}
use human_program_library.Round.Invariant.{
  Call, contributes, accepts, cancels, apply_call, apply_call-Advances, Advances, HasTotals,
}
use human_program_library.Round.History.{run, history_HasTotals}
use human_program_library.Round.Panics.{apply_call_panics}
use human_program_library.Tests.RoundData.{open_round, balances, contribution}

call_contributes :
    apply_call table_runtime reference (contributes contribution (pos 1_500)) open_round balances
    ≡ ok (some (record open_round { vouchers_count = 1 }), move_tokens 51 203 25 balances)
unfolding apply_call contribute contribute_constraints assert_can_contribute register_voucher
call_contributes = refl

apply_call-Advances_example : Advances open_round (record open_round { vouchers_count = 1 })
apply_call-Advances_example =
    apply_call-Advances table_runtime reference (contributes contribution (pos 1_500)) open_round
      (record open_round { vouchers_count = 1 }) balances (move_tokens 51 203 25 balances)
      call_contributes

-- The heir's wallet 14 offers the 100 tokens that it delegated.
abbrev creation : CreateRound
creation = record {
  round_key = 1;
  offer_wallet = 205;
  offer_mint = 32;
  offer_source_wallet = record {
    key = 14;
    mint = 32;
    amount = 300;
    delegate = some 11;
    delegated_amount = 100;
    is_native = none;
  };
  offer_source_authority = 11;
  offer_source_authority_is_signer = true;
  bid_wallet = 203;
  bid_mint = 31;
  authority = 204;
  payer = 13;
  payer_is_signer = true;
}

abbrev params : CreateRoundParams
params = record {
  heir = 11;
  recipient = 12;
  target_bid = 0;
  bidding_start = pos 1_000;
  bidding_end = pos 2_000;
}

abbrev before : Table
before a = if a == 14 then 300 else if a == 51 then 70 else 0

abbrev funded : Table
funded = move_tokens 14 205 100 before

creates_round :
    create_round table_runtime creation params (pos 500) before
    ≡ ok (record { round = some open_round; events = round_created 1 open_round ∷ [] }, funded)
unfolding create_round create_round_constraints
creates_round = refl

abbrev acceptance : Accept
acceptance = record {
  round_key = 1;
  round = open_round;
  heir = 11;
  heir_is_signer = true;
  offer_wallet = record {
    key = 205;
    mint = 32;
    amount = 100;
    delegate = none;
    delegated_amount = 0;
    is_native = none;
  };
  bid_wallet = record {
    key = 203;
    mint = 31;
    amount = 25;
    delegate = none;
    delegated_amount = 0;
    is_native = none;
  };
  recipient = 12;
  authority = 204;
  payer = 13;
}

abbrev history : List Call
history = contributes contribution (pos 1_500) ∷ accepts acceptance none (pos 2_100) ∷ []

abbrev settled : Round
settled = record open_round { status = accepted; vouchers_count = 1; total_bid = some 25 }

history_settles :
    run table_runtime reference history (some open_round, funded)
    ≡ (some settled, move_tokens 203 12 25 (move_tokens 51 203 25 funded))
unfolding run apply_call contribute contribute_constraints assert_can_contribute register_voucher
    accept accept_constraints assert_can_accept_or_reject can_withdraw_due_heir_inactivity
    heir_timeout_date checked_add_i64 transfer_bid_to_recipient decide_status
history_settles = refl

history_HasTotals_example : HasTotals settled
history_HasTotals_example =
    history_HasTotals table_runtime reference creation params (pos 500) before funded open_round
      settled (round_created 1 open_round ∷ []) history
      (move_tokens 203 12 25 (move_tokens 51 203 25 funded)) creates_round history_settles

-- A round cancelled at the very second that bidding starts, when a voucher has been issued.
abbrev cancellation : Cancel
cancellation = record {
  round_key = 1;
  round = record open_round { vouchers_count = 1 };
  heir = 11;
  heir_is_signer = true;
  return_wallet = 14;
  offer_wallet = record {
    key = 205;
    mint = 32;
    amount = 100;
    delegate = none;
    delegated_amount = 0;
    is_native = none;
  };
  bid_wallet = record {
    key = 203;
    mint = 31;
    amount = 25;
    delegate = none;
    delegated_amount = 0;
    is_native = none;
  };
  authority = 204;
  payer = 13;
}

cancel_panics :
    apply_call table_runtime reference
      (cancels cancellation (pos 1_000))
      (record open_round { vouchers_count = 1 })
      balances
    ≡ panic
unfolding apply_call cancel cancel_constraints assert_can_cancel
cancel_panics = refl

apply_call_panics_example : ◌≢◌ {A = ℕ} 1 0
apply_call_panics_example =
    apply_call_panics table_runtime reference (record open_round { vouchers_count = 1 }) balances
      (cancels cancellation (pos 1_000)) tt cancel_panics
