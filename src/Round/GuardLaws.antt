-- ===== src/Round/GuardLaws.antt =====
-- When each operation of a round is allowed, and how the operations exclude one another.
use human_program_library.Base.Int.{eq_of_parts, ℤ, pos_part, neg_part, ◌+ℤ◌, ◌≤ℤ◌, ◌<ℤ◌, int_laws}
use human_program_library.Base.Result.{err, ok}
use human_program_library.Base.{refl, ◌≢◌, inl, inr, false, ◌≡◌, ap, ◌↔◌, ◌⊎◌, Bool, true, arith}
use human_program_library.Round.Defs.{
  RoundStatus, pending, accepted, rejected, reconciliation, Round, offer_timed_out,
}
use human_program_library.Round.Guards.{
  inactivity_timeout, heir_timeout_date, can_withdraw_due_heir_inactivity,
  assert_can_accept_or_reject, assert_can_withdraw, assert_can_reject_bid, assert_can_redeem,
}

-- The heir's deadline is seven days after the end of the bidding.
heir_timeout_date_lem :
    (r : Round) (date : ℤ)
    → heir_timeout_date r ≡ ok date
    → date ≡ r.bidding_end +ℤ inactivity_timeout
unfolding heir_timeout_date ◌+ℤ◌
heir_timeout_date_lem r date h = ground arith

heir_timeout_later : (r : Round) (date : ℤ) → heir_timeout_date r ≡ ok date → r.bidding_end <ℤ date
heir_timeout_later r date h = omega (
  int_laws,
  ap pos_part (heir_timeout_date_lem r date h),
  ap neg_part (heir_timeout_date_lem r date h),
)

status_cases :
    (s : RoundStatus) → (s ≡ accepted) ⊎ (s ≡ pending) ⊎ (s ≡ rejected) ⊎ (s ≡ reconciliation)
status_cases accepted = inl refl
status_cases pending = inr (inl refl)
status_cases rejected = inr (inr (inl refl))
status_cases reconciliation = inr (inr (inr refl))

pub withdraw_accepted :
    (r : Round) (now : ℤ) (signed : Bool)
    → r.status ≡ accepted
    → assert_can_withdraw r now signed ≢ ok tt
unfolding assert_can_withdraw
withdraw_accepted r now signed e h = ground arith

-- Where the deadline does not overflow, the heir may accept or reject exactly while the round is
-- pending, from the end of the bidding to the deadline, both included.
pub accept_iff :
    (r : Round) (now date : ℤ)
    → heir_timeout_date r ≡ ok date
    → (assert_can_accept_or_reject r now ≡ ok tt)
      ↔ ((r.status ≡ pending) × (r.bidding_end ≤ℤ now) × (now ≤ℤ date))
unfolding assert_can_accept_or_reject can_withdraw_due_heir_inactivity
accept_iff r now date h = (λ e. ground arith, λ e. ground arith)

-- A bid can be rejected under the same condition.
reject_bid_iff :
    (r : Round) (now date : ℤ)
    → heir_timeout_date r ≡ ok date
    → (assert_can_reject_bid r now ≡ ok tt)
      ↔ ((r.status ≡ pending) × (r.bidding_end ≤ℤ now) × (now ≤ℤ date))
unfolding assert_can_reject_bid
reject_bid_iff r now date h = (λ e. ground arith, λ e. ground arith)

-- A withdrawal is allowed exactly from the start of the bidding on, of a round that is rejected, or
-- pending with the bidding not past its end or the deadline passed; without the user's signature
-- only from the end of the bidding on.
pub withdraw_iff :
    (r : Round) (now date : ℤ) (signed : Bool)
    → heir_timeout_date r ≡ ok date
    → (assert_can_withdraw r now signed ≡ ok tt) ↔ (
        (r.bidding_start ≤ℤ now)
        × ((r.status ≡ rejected)
            ⊎ ((r.status ≡ pending) × ((now ≤ℤ r.bidding_end) ⊎ (date <ℤ now))))
        × ((signed ≡ true) ⊎ (r.bidding_end ≤ℤ now)))
unfolding assert_can_withdraw can_withdraw_due_heir_inactivity
withdraw_iff r now date signed h = (λ e. ground arith, λ e. ground arith)

-- While the heir decides, a bid is locked: the heir may accept and a user withdraw at the same
-- moment only at the very end of the bidding.
pub accept_excludes_withdraw :
    (r : Round) (now date : ℤ) (signed : Bool)
    → heir_timeout_date r ≡ ok date
    → assert_can_accept_or_reject r now ≡ ok tt
    → assert_can_withdraw r now signed ≡ ok tt
    → now ≡ r.bidding_end
accept_excludes_withdraw r now date signed h a w =
    let (p, after, before) = (accept_iff r now date h).0 a in
    let (_, by, _) = (withdraw_iff r now date signed h).0 w in
    ground (arith, eq_of_parts now r.bidding_end, heir_timeout_later r date h)

-- Once the deadline has passed on a pending round, the heir can neither accept nor reject, and
-- everybody can withdraw every bid, with or without the user's signature.
pub timeout_frees_bids :
    (r : Round) (now date : ℤ) (signed : Bool)
    → heir_timeout_date r ≡ ok date
    → r.status ≡ pending
    → r.bidding_start ≤ℤ r.bidding_end
    → date <ℤ now
    → (assert_can_accept_or_reject r now ≡ err offer_timed_out)
      × (assert_can_reject_bid r now ≡ err offer_timed_out)
      × (assert_can_withdraw r now signed ≡ ok tt)
unfolding assert_can_accept_or_reject can_withdraw_due_heir_inactivity assert_can_reject_bid
timeout_frees_bids r now date signed h p order late =
    let later = heir_timeout_later r date h in
    (
      ground arith,
      ground arith,
      (withdraw_iff r now date signed h).1 (omega arith, inr (p, inr late), inr (omega arith)),
    )

-- Where the deadline of the heir does not overflow and the bidding does not end before it starts,
-- the guards of a round that is not in reconciliation leave a way out at every time after the
-- deadline: they allow a redemption, or a withdrawal both with and without the signature of the user.
pub exit_after_deadline :
    (r : Round) (now date : ℤ)
    → heir_timeout_date r ≡ ok date
    → r.bidding_start ≤ℤ r.bidding_end
    → date <ℤ now
    → r.status ≢ reconciliation
    → (assert_can_redeem r ≡ ok tt)
      ⊎ ((assert_can_withdraw r now true ≡ ok tt) × (assert_can_withdraw r now false ≡ ok tt))
unfolding assert_can_redeem
exit_after_deadline r now date h order late open_end =
    let later = heir_timeout_later r date h in
    elim (status_cases r.status) [
      | inl a ↦ inl (rw a refl)
      | inr (inl p) ↦ inr (
        (timeout_frees_bids r now date true h p order late).2,
        (timeout_frees_bids r now date false h p order late).2,
      )
      | inr (inr (inl j)) ↦ inr (
        (withdraw_iff r now date true h).1 (omega arith, inl j, inl refl),
        (withdraw_iff r now date false h).1 (omega arith, inl j, inr (omega arith)),
      )
      | inr (inr (inr q)) ↦ absurd (open_end q)
    ]
