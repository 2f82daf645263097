-- ===== src/Round/BidLaws.antt =====
-- What the handlers on bids do to the voucher, to the count of vouchers and to the tokens.
use human_program_library.Base.Int.{ℤ}
use human_program_library.Base.Result.{panic, ok}
use human_program_library.Base.{
  inl, inr, ◌!=◌, Option-cases, Bool, ℕ, ◌+◌, ◌<◌, ◌≡◌, ◌≢◌, Option, none, some, arith, ◌==◌,
  if◌then◌else◌, default_pubkey,
}
use human_program_library.Runtime.{Runtime}
use human_program_library.Precise.{PreciseNumber}
use human_program_library.Round.Defs.{Round, Voucher, accepted, reconciliation}
use human_program_library.Round.Guards.{
  assert_can_redeem, heir_timeout_date, can_withdraw_due_heir_inactivity, assert_can_contribute,
  assert_can_withdraw,
}
use human_program_library.Round.GuardLaws.{withdraw_accepted}
use human_program_library.Round.Redeem.{calculate_redeem_amount}
use human_program_library.Round.Context.{Contribute, Withdraw, Redeem, withdraw_constraints}
use human_program_library.Round.Bids.{
  Outcome, init_if_needed, contribute, withdraw, redeem, refund_bid_to_recipient,
}

-- What a voucher account holds.
abbrev pub deposit_of : Option Voucher → ℕ
deposit_of none = 0
deposit_of (some v) = v.amount_contributed

pub heir_timeout_no_panic : (r : Round) → heir_timeout_date r ≢ panic
unfolding heir_timeout_date
heir_timeout_no_panic r e = ground arith

withdraw_guard_no_panic :
    (r : Round) (now : ℤ) (signed : Bool) → assert_can_withdraw r now signed ≢ panic
unfolding assert_can_withdraw can_withdraw_due_heir_inactivity
withdraw_guard_no_panic r now signed e = ground (arith, heir_timeout_no_panic r)

withdraw_reconciliation :
    (r : Round) (now : ℤ) (signed : Bool)
    → r.status ≡ reconciliation
    → assert_can_withdraw r now signed ≢ ok tt
unfolding assert_can_withdraw
withdraw_reconciliation r now signed e h = ground arith

module _ (rt : Runtime) (w w' : rt.World) where
  -- A successful contribution from a wallet that is not the bid wallet moves the delegated
  -- amount, which is not zero, from the user's wallet to the bid wallet, adds it to the voucher,
  -- and counts the voucher if it is new; it happens within the bidding period.
  pub contribute_deposits :
      (c : Contribute) (now : ℤ) (o : Outcome)
      → c.user_wallet.key ≢ c.bid_wallet.key
      → contribute rt c now w ≡ ok (o, w')
      → let amount = c.user_wallet.delegated_amount in
        (0 < amount)
        × (deposit_of o.voucher ≡ deposit_of c.voucher + amount)
        × (rt.tokens w' c.bid_wallet.key ≡ rt.tokens w c.bid_wallet.key + amount)
        × (rt.tokens w' c.user_wallet.key + amount ≡ rt.tokens w c.user_wallet.key)
        × (o.round.vouchers_count
            ≡ c.round.vouchers_count
              + (if (init_if_needed c.voucher).payer == default_pubkey then 1 else 0))
        × (assert_can_contribute c.round now ≡ ok tt)
  unfolding contribute
  contribute_deposits c now o ne e = ground (
    arith,
    rt.transfer_lem c.user_wallet.key c.bid_wallet.key c.user_wallet_authority
        c.user_wallet.delegated_amount w w',
  )

  -- A successful withdrawal from a wallet that is no wrapped SOL pays the whole voucher out of the
  -- bid wallet to the user's associated wallet, closes the voucher and counts it off; the guard on
  -- status and time has passed.
  pub withdraw_refunds :
      (a : Withdraw) (now : ℤ) (o : Outcome)
      → a.bid_wallet.is_native ≡ none
      → a.bid_wallet.key ≢ a.user_wallet
      → withdraw rt a now w ≡ ok (o, w')
      → (o.voucher ≡ none)
        × (o.round.vouchers_count + 1 ≡ a.round.vouchers_count)
        × (rt.tokens w' a.bid_wallet.key + a.voucher.amount_contributed
            ≡ rt.tokens w a.bid_wallet.key)
        × (rt.tokens w' a.user_wallet ≡ rt.tokens w a.user_wallet + a.voucher.amount_contributed)
        × (a.user_wallet ≡ rt.associated_token a.voucher.user a.bid_wallet.mint)
        × (assert_can_withdraw a.round now a.user_is_signer ≡ ok tt)
  unfolding withdraw refund_bid_to_recipient withdraw_constraints
  withdraw_refunds a now o token ne e = ground (
    arith,
    rt.transfer_lem a.bid_wallet.key a.user_wallet a.authority a.voucher.amount_contributed w w',
  )

  pub refund_no_panic : (a : Withdraw) → refund_bid_to_recipient rt a w ≢ panic
  unfolding refund_bid_to_recipient
  refund_no_panic a e = ground arith

  -- `withdraw` never reaches its `unreachable!`, nor any other panic.
  pub withdraw_no_panic : (a : Withdraw) (now : ℤ) → withdraw rt a now w ≢ panic
  unfolding withdraw
  withdraw_no_panic a now e = ground (
    arith,
    refund_no_panic a,
    withdraw_guard_no_panic a.round now a.user_is_signer,
    withdraw_accepted a.round now a.user_is_signer,
    withdraw_reconciliation a.round now a.user_is_signer,
  )

  -- A successful redemption happens on an accepted round and moves the calculated amount, and
  -- nothing else, from the offer wallet to the wallet that the user names; the voucher is closed and
  -- counted off.
  pub redeem_pays :
      (pn : PreciseNumber) (a : Redeem) (o : Outcome) (total_bid total_offer : ℕ)
      → a.offer_wallet.key ≢ a.user_wallet.key
      → a.round.total_bid ≡ some total_bid
      → a.round.total_offer ≡ some total_offer
      → redeem rt pn a w ≡ ok (o, w')
      → let target = if a.round.target_bid != 0 then a.round.target_bid else total_bid in
        (amount : ℕ) × (calculate_redeem_amount pn target total_bid a.voucher.amount_contributed
            total_offer
          ≡ some amount)
        × (rt.tokens w' a.offer_wallet.key + amount ≡ rt.tokens w a.offer_wallet.key)
        × (rt.tokens w' a.user_wallet.key ≡ rt.tokens w a.user_wallet.key + amount)
        × (o.voucher ≡ none)
        × (o.round.vouchers_count + 1 ≡ a.round.vouchers_count)
        × (a.round.status ≡ accepted)
  unfolding redeem assert_can_redeem
  redeem_pays pn a o total_bid total_offer ne eb eo e =
      let target : ℕ = if a.round.target_bid != 0 then a.round.target_bid else total_bid in
      elim (Option-cases
        (calculate_redeem_amount pn target total_bid a.voucher.amount_contributed total_offer)) [
          | inl failed ↦ absurd (ground arith)
          | inr (amount, found) ↦ (
            amount,
            ground arith,
            ground (
              arith,
              rt.transfer_lem a.offer_wallet.key a.user_wallet.key a.authority amount w w',
            ),
            ground (
              arith,
              rt.transfer_lem a.offer_wallet.key a.user_wallet.key a.authority amount w w',
            ),
            ground arith,
            ground arith,
            ground arith,
          )
        ]
