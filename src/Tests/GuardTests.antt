-- ===== src/Tests/GuardTests.antt =====
-- The guards of rounds and the amounts redeemed, at concrete inputs.
use human_program_library.Precise.Chain.{div_mul}
use human_program_library.Base.Lists.{length}
use human_program_library.Base.Int.{pos, checked_add_i64}
use human_program_library.Base.Result.{ok}
use human_program_library.Base.{◌+◌, ◌*◌, ◌≤◌, ◌≡◌, refl, ◌⊎◌, true, false, some, [], ◌∷◌, arith, ℕ}
use human_program_library.Precise.Reference.{reference}
use human_program_library.Round.Defs.{accepted, rejected, Round}
use human_program_library.Round.Guards.{
  heir_timeout_date, assert_can_accept_or_reject, assert_can_withdraw, assert_can_redeem,
  can_withdraw_due_heir_inactivity,
}
use human_program_library.Round.GuardLaws.{exit_after_deadline}
use human_program_library.Round.Redeem.{calculate_redeem_amount, redeem_all, redeem_all_bounded}
use human_program_library.Tests.RoundData.{open_round, deadline}

open_deadline : heir_timeout_date open_round ≡ ok deadline
unfolding heir_timeout_date checked_add_i64
open_deadline = refl

abbrev rejected_round : Round
rejected_round = record open_round { status = rejected }

abbrev accepted_round : Round
accepted_round = record open_round { status = accepted; vouchers_count = 1; total_bid = some 10 }

accepts_at_end : assert_can_accept_or_reject open_round (pos 2_000) ≡ ok tt
unfolding assert_can_accept_or_reject can_withdraw_due_heir_inactivity heir_timeout_date
    checked_add_i64
accepts_at_end = refl

withdraws_at_end : assert_can_withdraw open_round (pos 2_000) true ≡ ok tt
unfolding assert_can_withdraw
withdraws_at_end = refl

exit_after_deadline_example :
    (assert_can_redeem open_round ≡ ok tt)
    ⊎ ((assert_can_withdraw open_round (pos 700_000) true ≡ ok tt)
        × (assert_can_withdraw open_round (pos 700_000) false ≡ ok tt))
exit_after_deadline_example =
    exit_after_deadline open_round (pos 700_000) deadline open_deadline (omega arith) (omega arith)
      (λ e. cc)

-- The table of the test `test_calculate_redeem_amount`.
redeem_below_target : calculate_redeem_amount reference 26_250 10_000 9_000 2_500 ≡ some 857
unfolding calculate_redeem_amount div_mul
redeem_below_target = refl

redeem_above_target : calculate_redeem_amount reference 5_500 25_000 899 500 ≡ some 18
unfolding calculate_redeem_amount div_mul
redeem_above_target = refl

-- Two equal bids on one unit of the offer are each rounded up to it.
redeem_all_exceeds : redeem_all reference 0 2 1 (1 ∷ 1 ∷ []) ≡ some 2
unfolding redeem_all calculate_redeem_amount div_mul
redeem_all_exceeds = refl

redeem_all_bounded_example :
    (total : ℕ) × (redeem_all reference 0 2 1 (1 ∷ 1 ∷ []) ≡ some total)
    × (2 * total ≤ 2 * 1 + length {A = ℕ} (1 ∷ 1 ∷ []))
redeem_all_bounded_example =
    redeem_all_bounded reference 0 2 1 (1 ∷ 1 ∷ []) (omega arith) (omega arith) (omega arith)
      (omega arith) (omega arith)
