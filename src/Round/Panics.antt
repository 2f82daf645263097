-- ===== src/Round/Panics.antt =====
-- Where the handlers of a round can panic.
use human_program_library.Base.Int.{ℤ}
use human_program_library.Base.Result.{panic}
use human_program_library.Base.{◌≡◌, ◌≢◌, arith}
use human_program_library.Precise.{PreciseNumber}
use human_program_library.Runtime.{Runtime}
use human_program_library.Round.Defs.{Round}
use human_program_library.Round.Guards.{
  can_withdraw_due_heir_inactivity, assert_can_accept_or_reject, assert_can_contribute,
  assert_can_contribute_offchain, assert_can_finish_reconciliation, assert_can_reject_bid,
  assert_can_redeem, assert_can_cancel, assert_can_close,
}
use human_program_library.Round.Bids.{
  to_withdraw_ctx, contribute, record_offchain_contribution, reject_bid, redeem,
}
use human_program_library.Round.BidLaws.{heir_timeout_no_panic, refund_no_panic, withdraw_no_panic}
use human_program_library.Round.Lifecycle.Context.{Accept}
use human_program_library.Round.Lifecycle.{
  transfer_bid_to_recipient, accept, finish_reconciliation, reject, cancel, close, migrate,
}
use human_program_library.Round.Invariant.{
  HasTotals, Call, contributes, withdraws, records, rejects_bid, redeems, accepts, finishes,
  rejects, cancels, closes, migrates, apply_call,
}

accept_guard_no_panic : (r : Round) (now : ℤ) → assert_can_accept_or_reject r now ≢ panic
unfolding assert_can_accept_or_reject can_withdraw_due_heir_inactivity
accept_guard_no_panic r now e = ground (arith, heir_timeout_no_panic r)

reject_bid_guard_no_panic : (r : Round) (now : ℤ) → assert_can_reject_bid r now ≢ panic
unfolding assert_can_reject_bid
reject_bid_guard_no_panic r now e = ground (arith, heir_timeout_no_panic r)

close_guard_no_panic : (r : Round) (now : ℤ) → assert_can_close r now ≢ panic
unfolding assert_can_close
close_guard_no_panic r now e = ground (arith, heir_timeout_no_panic r)

module _ (rt : Runtime) (pn : PreciseNumber) (r : Round) (w : rt.World) where
  transfer_bid_no_panic : (a : Accept) → transfer_bid_to_recipient rt a w ≢ panic
  unfolding transfer_bid_to_recipient
  transfer_bid_no_panic a e = ground arith

  -- The one call that may panic: `cancel` asserts that no voucher was issued.
  abbrev pub CancelsVouchers : Call → Type 0
  CancelsVouchers (cancels c now) = r.vouchers_count ≢ 0
  CancelsVouchers _ = ⊥

  -- On a round whose totals are there once it is accepted, no call panics but a `cancel` when there
  -- are vouchers.
  pub apply_call_panics :
      (call : Call) → HasTotals r → apply_call rt pn call r w ≡ panic → CancelsVouchers call
  unfolding apply_call contribute record_offchain_contribution reject_bid redeem accept
      finish_reconciliation reject cancel close migrate assert_can_contribute
      assert_can_contribute_offchain assert_can_finish_reconciliation assert_can_redeem
      assert_can_cancel
  apply_call_panics (contributes c now) h e = ground arith
  apply_call_panics (withdraws c now) h e =
      withdraw_no_panic rt w w (record c { round = r }) now (ground arith)
  apply_call_panics (records c n) h e = ground arith
  apply_call_panics (rejects_bid c now) h e = ground (
    arith,
    reject_bid_guard_no_panic r now,
    refund_no_panic rt w w (to_withdraw_ctx rt (record c { round = r })),
  )
  apply_call_panics (redeems c) h e = ground (arith, h)
  apply_call_panics (accepts c auth now) h e =
      ground (arith, accept_guard_no_panic r now, transfer_bid_no_panic (record c { round = r }))
  apply_call_panics (finishes c) h e = ground (arith, h)
  apply_call_panics (rejects c now) h e = ground (arith, accept_guard_no_panic r now)
  apply_call_panics (cancels c now) h e = ground arith
  apply_call_panics (closes c now) h e = ground (arith, close_guard_no_panic r now)
  apply_call_panics migrates h e = ground arith
