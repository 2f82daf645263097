-- ===== src/Tests/RoundData.antt =====
-- A round, a contribution to it and the balances before, for the tests.
use human_program_library.Base.Int.{ℤ, pos}
use human_program_library.Base.{◌==◌, if◌then◌else◌, true, none, some}
use human_program_library.Tests.Fixtures.{Table}
use human_program_library.Round.Defs.{pending, Round}
use human_program_library.Round.Context.{Contribute}

-- A round that takes bids from 1000 to 2000, with the keys of its accounts.
abbrev pub open_round : Round
open_round = record {
  status = pending;
  bid_mint = 31;
  offer_mint = 32;
  heir = 11;
  recipient = 12;
  payer = 13;
  vouchers_count = 0;
  created_at = pos 500;
  bidding_start = pos 1_000;
  bidding_end = pos 2_000;
  total_bid = none;
  total_offer = some 100;
  target_bid = 0;
  return_wallet = 14;
  reconciliation_authority = 0;
}

abbrev pub deadline : ℤ
deadline = pos 606_800

abbrev pub balances : Table
balances a = if a == 51 then 70 else if a == 203 then 40 else if a == 205 then 100 else 0

-- User 7 deposits the 25 tokens that are delegated of wallet 51.
abbrev pub contribution : Contribute
contribution = record {
  round_key = 1;
  round = open_round;
  voucher_key = 207;
  voucher = none;
  user = 7;
  user_is_signer = true;
  user_wallet = record {
    key = 51;
    mint = 31;
    amount = 70;
    delegate = some 8;
    delegated_amount = 25;
    is_native = none;
  };
  user_wallet_authority = 8;
  user_wallet_authority_is_signer = true;
  bid_wallet = record {
    key = 203;
    mint = 31;
    amount = 40;
    delegate = none;
    delegated_amount = 0;
    is_native = none;
  };
  payer = 13;
  payer_is_signer = true;
}
