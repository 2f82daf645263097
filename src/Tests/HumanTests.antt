-- ===== src/Tests/HumanTests.antt =====
-- The human program at concrete inputs.
use human_program_library.Base.Int.{◌-ℤ◌, pos, checked_sub_i64}
use human_program_library.Base.Result.{ok}
use human_program_library.Base.{
  ℕ, ◌+◌, ◌-◌, ◌/◌, ◌≤◌, ◌<◌, min, ◌≡◌, refl, true, none, some, [], ◌∷◌, arith, ◌==◌, if◌then◌else◌,
}
use human_program_library.Precise.Reference.{reference}
use human_program_library.Tests.Fixtures.{Table, table_runtime, move_tokens}
use human_program_library.Human.Defs.{VestState, vest, vesting_part_length, vesting_total_parts}
use human_program_library.Human.State.{
  ContractState, PostInfo, RepostRecord, can_repost, can_redeem, is_thursday,
}
use human_program_library.Human.StateLaws.{repost_never_expires, redeem_ignores_cooldown}
use human_program_library.Human.Vest.{
  Vest, next_period, elapsed_periods, vest_missed, process_vest, check_vest, pay_owner,
}
use human_program_library.Human.VestLaws.{scheduled, next_period_schedule, vesting_completes}
use human_program_library.Human.Schedule.{vest_at}
use human_program_library.Human.Timely.{NotAfter, vest_at_in_time}
use human_program_library.Base.Int.{ℤ}
use human_program_library.Base.{List, ◌*◌}

abbrev fresh : VestState
fresh = record { deployed_at = pos 0; vested_periods = 0 }

one_month : checked_sub_i64 (pos 2_629_801) (pos 0) ≡ some (pos 2_629_801)
unfolding checked_sub_i64 ◌-ℤ◌
one_month = refl

next_period_schedule_example :
    next_period reference fresh 36_000 (pos 2_629_801)
    ≡ ok (scheduled fresh 36_000 (min (2_629_801 / vesting_part_length) vesting_total_parts))
next_period_schedule_example =
    next_period_schedule reference fresh 36_000 2_629_801 (pos 2_629_801) (omega arith)
      (omega arith) (omega arith) one_month

-- The first month of the test `test_vesting_normal`.
vests_month :
    next_period reference fresh 36_000 (pos 2_629_801)
    ≡ ok (vest 1_000, record fresh { vested_periods = 1 })
unfolding next_period elapsed_periods vest_missed checked_sub_i64 ◌-ℤ◌
vests_month = refl

-- A clock before the deployment is taken for a very late one, and everything is vested.
vests_early :
    next_period reference (record fresh { deployed_at = pos 10 }) 36_000 (pos 9)
    ≡ ok (vest 36_000, record { deployed_at = pos 10; vested_periods = 36 })
unfolding next_period elapsed_periods vest_missed checked_sub_i64 ◌-ℤ◌
vests_early = refl

late : checked_sub_i64 (pos 100_000_000) (pos 0) ≡ some (pos 100_000_000)
unfolding checked_sub_i64 ◌-ℤ◌
late = refl

vesting_completes_example :
    (amount : ℕ) × (next_period reference fresh 71 (pos 100_000_000)
      ≡ ok (vest amount, record { deployed_at = pos 0; vested_periods = 36 }))
    × (amount ≤ 71)
    × (71 < amount + 36)
vesting_completes_example =
    vesting_completes reference fresh 71 100_000_000 (pos 100_000_000) (omega arith) (omega arith)
      (omega arith) late (omega arith)

-- Three calls, within three full periods of the deployment.
abbrev call_times : List ℤ
call_times = pos 2_629_801 ∷ pos 5 ∷ pos 9_000_000 ∷ []

call_times-NotAfter : NotAfter (pos 0) 9_000_000 call_times
unfolding NotAfter checked_sub_i64 ◌-ℤ◌
call_times-NotAfter =
    (2_629_801, refl, omega arith, (5, refl, omega arith, (9_000_000, refl, omega arith, tt)))

vest_at_in_time_example :
    36_000 * (vesting_total_parts - 9_000_000 / vesting_part_length)
    ≤ vesting_total_parts * (vest_at reference call_times (fresh, 36_000)).1
vest_at_in_time_example =
    vest_at_in_time reference 36_000 9_000_000 call_times fresh 36_000
      (record { periods = omega arith; not_ahead = omega arith; not_more = omega arith })
      (omega arith) (omega arith) (omega arith) call_times-NotAfter

abbrev contract : ContractState
contract = record {
  token = 31;
  owner = 11;
  admin = 12;
  commission_addr = 13;
  treasury_addr = 14;
  swap_state = 15;
  sold = 0;
  vest = fresh;
  drop = none;
  current_round = none;
  completed_rounds_count = 0;
}

abbrev post : PostInfo
post = record {
  state = 1;
  post_id = 2;
  created_at = pos 1_000;
  repost_price = none;
  royalty_address = 3;
  payer = 4;
  name = 5;
  symbol = 6;
  uri = 7;
}

repost_never_expires_example : can_repost post (pos 1_000_000) ≡ true
repost_never_expires_example =
    repost_never_expires post 1_000 1_000_000 refl (omega arith) (omega arith)

abbrev repost : RepostRecord
repost = record {
  state = 1;
  token = 2;
  user = 3;
  post_id = 4;
  reposted_at = pos 950_400;
  receive_amount = 100;
  payer = 5;
}

redeem_ignores_cooldown_example :
    can_redeem repost (pos 1_250_000) ≡ ok (is_thursday (pos (1_250_000 - 345_600)))
redeem_ignores_cooldown_example =
    redeem_ignores_cooldown repost 950_400 1_250_000 refl (omega arith) (omega arith) (omega arith)

abbrev vesting : Vest
vesting = record {
  state = contract;
  vault = record {
    key = 205;
    mint = 31;
    amount = 36_000;
    delegate = none;
    delegated_amount = 0;
    is_native = none;
  };
  owner_token_wallet = 1_011;
  transfer_authority = 208;
  token_program = 98;
}

abbrev vault_balances : Table
vault_balances a = if a == 205 then 36_000 else 0

vests_1000 :
    process_vest table_runtime reference vesting (pos 2_629_801) vault_balances
    ≡ ok (
      record contract { vest = record fresh { vested_periods = 1 } },
      move_tokens 205 1_011 1_000 vault_balances,
    )
unfolding process_vest check_vest pay_owner next_period elapsed_periods vest_missed checked_sub_i64
    ◌-ℤ◌
vests_1000 = refl
