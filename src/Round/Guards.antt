-- ===== src/Round/Guards.antt =====
-- The guards of `impl Round` (round/src/state.rs): what may be done, by status and time.
use human_program_library.Base.Int.{ℤ, pos, ltb_ℤ, checked_add_i64}
use human_program_library.Base.{Bool, false, not, ◌&&◌, ltb, if◌then◌else◌}
use human_program_library.Base.Result.{Result, ok, err, ok_or, fail_if, ◌>>=◌, ◌>>◌}
use human_program_library.Round.Defs.{
  RoundStatus, pending, accepted, rejected, reconciliation, status_eq, Round, RoundError, overflow,
  offer_is_not_pending, offer_timed_out, bidding_still_going, bidding_not_started, bidding_ended,
  cant_contribute_fiat_not_in_reconciliation, cant_withdraw_accepted_offer,
  cant_withdraw_during_reconciliation, inactivity_timeout_has_not_passed,
  cant_withdraw_without_user_signature, cant_redeem_not_accepted_round, cant_cancel_started_round,
  vouchers_not_withdrawn, cant_close_before_heir_timeout, cant_close_during_reconciliation,
}

abbrev pub Guard : Type 0
Guard = Result RoundError (Unit {0})

-- `WITHDRAWAL_ENABLED_AFTER_INACTIVITY_TIMEOUT`: seven days in seconds.
abbrev pub inactivity_timeout : ℤ
inactivity_timeout = pos 604_800

unfoldable pub heir_timeout_date : Round → Result RoundError ℤ
unfolding checked_add_i64
heir_timeout_date r = ok_or (checked_add_i64 r.bidding_end inactivity_timeout) overflow

unfoldable pub can_withdraw_due_heir_inactivity : Round → ℤ → Result RoundError Bool
can_withdraw_due_heir_inactivity r now = do date ← heir_timeout_date r; ok (ltb_ℤ date now)

unfoldable pub assert_can_accept_or_reject : Round → ℤ → Guard
unfolding can_withdraw_due_heir_inactivity
assert_can_accept_or_reject r now = do
  fail_if (not (status_eq r.status pending)) offer_is_not_pending
  inactive ← can_withdraw_due_heir_inactivity r now
  fail_if inactive offer_timed_out
  fail_if (ltb_ℤ now r.bidding_end) bidding_still_going

unfoldable pub assert_can_contribute : Round → ℤ → Guard
assert_can_contribute r now = do
  fail_if (ltb_ℤ now r.bidding_start) bidding_not_started
  fail_if (ltb_ℤ r.bidding_end now) bidding_ended

unfoldable pub assert_can_contribute_offchain : Round → Guard
assert_can_contribute_offchain r =
    fail_if (not (status_eq r.status reconciliation)) cant_contribute_fiat_not_in_reconciliation

unfoldable pub assert_can_finish_reconciliation : Round → Guard
assert_can_finish_reconciliation r =
    fail_if (not (status_eq r.status reconciliation)) cant_contribute_fiat_not_in_reconciliation

-- `a && b && !c?`: the heir's timeout is computed only if the first two hold.
still_waiting : Round → ℤ → Result RoundError Bool
unfolding can_withdraw_due_heir_inactivity
still_waiting r now =
    if status_eq r.status pending && ltb_ℤ r.bidding_end now
    then can_withdraw_due_heir_inactivity r now >>= (λ inactive. ok (not inactive))
    else ok false

unfoldable pub assert_can_withdraw : Round → ℤ → Bool → Guard
unfolding still_waiting
assert_can_withdraw r now user_is_signer = do
  fail_if (ltb_ℤ now r.bidding_start) bidding_not_started
  fail_if (status_eq r.status reconciliation) cant_withdraw_accepted_offer
  fail_if (status_eq r.status accepted) cant_withdraw_during_reconciliation
  waiting ← still_waiting r now
  fail_if waiting inactivity_timeout_has_not_passed
  fail_if (not user_is_signer && ltb_ℤ now r.bidding_end) cant_withdraw_without_user_signature

unfoldable pub assert_can_reject_bid : Round → ℤ → Guard
assert_can_reject_bid r now = do
  fail_if (not (status_eq r.status pending)) offer_is_not_pending
  fail_if (ltb_ℤ now r.bidding_end) bidding_still_going
  date ← heir_timeout_date r
  fail_if (ltb_ℤ date now) offer_timed_out

unfoldable pub assert_can_redeem : Round → Guard
assert_can_redeem r = fail_if (not (status_eq r.status accepted)) cant_redeem_not_accepted_round

unfoldable pub assert_can_cancel : Round → ℤ → Guard
assert_can_cancel r now = fail_if (ltb_ℤ r.bidding_start now) cant_cancel_started_round

-- The `match` on the status.
close_by_status : RoundStatus → Round → ℤ → Guard
close_by_status accepted r now = ok tt
close_by_status rejected r now = ok tt
close_by_status pending r now = do
  date ← heir_timeout_date r
  fail_if (not (ltb_ℤ date now)) cant_close_before_heir_timeout
close_by_status reconciliation r now = err cant_close_during_reconciliation

unfoldable pub assert_can_close : Round → ℤ → Guard
unfolding close_by_status
assert_can_close r now = do
  fail_if (ltb 0 r.vouchers_count) vouchers_not_withdrawn
  close_by_status r.status r now
