-- ===== src/Round/Invariant.antt =====
-- The life of a round: how its status moves, and that a round which was accepted, or is in
-- reconciliation, always has its totals.
use human_program_library.Base.Int.{ℤ}
use human_program_library.Base.Result.{Result, err, panic, ok}
use human_program_library.Base.{◌⊎◌, arith, Pubkey, ℕ, ◌≡◌, Bool, true, false, Option, none, some}
use human_program_library.Runtime.{Runtime}
use human_program_library.Precise.{PreciseNumber}
use human_program_library.Round.Defs.{
  RoundStatus, pending, accepted, rejected, reconciliation, Round,
}
use human_program_library.Round.Guards.{
  assert_can_accept_or_reject, assert_can_finish_reconciliation,
}
use human_program_library.Round.Context.{
  Failure, Contribute, RecordOffchainContribution, Withdraw, RejectBid, Redeem,
}
use human_program_library.Round.Bids.{
  Outcome, contribute, withdraw, record_offchain_contribution, reject_bid, redeem,
}
use human_program_library.Round.Lifecycle.Context.{
  Accept, FinishReconciliation, Reject, Cancel, Close,
}
use human_program_library.Round.Lifecycle.{
  Left, accept, finish_reconciliation, reject, migrate, cancel, close,
}

abbrev pub is_some : Option ℕ → Bool
is_some none = false
is_some (some n) = true

abbrev BothTotals : Round → Type 0
BothTotals r = (is_some r.total_bid ≡ true) × (is_some r.total_offer ≡ true)

-- An accepted round, or one in reconciliation, has both totals.
abbrev TotalsFor : RoundStatus → Round → Type 0
TotalsFor accepted r = BothTotals r
TotalsFor reconciliation r = BothTotals r
TotalsFor pending r = Unit {0}
TotalsFor rejected r = Unit {0}

abbrev pub HasTotals : Round → Type 0
HasTotals r = TotalsFor r.status r

abbrev SameTotals : Round → Round → Type 0
SameTotals r r' = (r'.total_bid ≡ r.total_bid) × (r'.total_offer ≡ r.total_offer)

-- How a round may change: its status and totals stay; a pending round is rejected, or it is
-- accepted or put into reconciliation, with totals; a reconciled round is accepted.
abbrev pub Advances : Round → Round → Type 0
Advances r r' =
    ((r'.status ≡ r.status) × SameTotals r r')
    ⊎ ((r.status ≡ pending) × (r'.status ≡ rejected))
    ⊎ ((r.status ≡ pending)
        × ((r'.status ≡ accepted) ⊎ (r'.status ≡ reconciliation))
        × BothTotals r')
    ⊎ ((r.status ≡ reconciliation) × (r'.status ≡ accepted) × SameTotals r r')

-- The calls on a round that exists; `cancel` and `close` end it.
pub data Call : Type 0 where
  contributes : Contribute → ℤ → Call
  withdraws : Withdraw → ℤ → Call
  records : RecordOffchainContribution → ℕ → Call
  rejects_bid : RejectBid → ℤ → Call
  redeems : Redeem → Call
  accepts : Accept → Option Pubkey → ℤ → Call
  finishes : FinishReconciliation → Call
  rejects : Reject → ℤ → Call
  cancels : Cancel → ℤ → Call
  closes : Close → ℤ → Call
  migrates : Call

abbrev of_bid : {W : Type 0} → Result Failure (Outcome × W) → Result Failure (Option Round × W)
of_bid (ok (o, w)) = ok (some o.round, w)
of_bid (err e) = err e
of_bid panic = panic

abbrev of_round : {W : Type 0} → Result Failure (Left × W) → Result Failure (Option Round × W)
of_round (ok (l, w)) = ok (l.round, w)
of_round (err e) = err e
of_round panic = panic

abbrev with_world : {W : Type 0} → Result Failure Left → W → Result Failure (Option Round × W)
with_world (ok l) w = ok (l.round, w)
with_world (err e) w = err e
with_world panic w = panic

module _ (rt : Runtime) (pn : PreciseNumber) where
  -- The dispatch of the program: a call on the stored round.
  unfoldable pub apply_call : Call → Round → rt.World → Result Failure (Option Round × rt.World)
  apply_call (contributes c now) r w = of_bid (contribute rt (record c { round = r }) now w)
  apply_call (withdraws c now) r w = of_bid (withdraw rt (record c { round = r }) now w)
  apply_call (records c n) r w =
      of_bid (record_offchain_contribution rt (record c { round = r }) n w)
  apply_call (rejects_bid c now) r w = of_bid (reject_bid rt (record c { round = r }) now w)
  apply_call (redeems c) r w = of_bid (redeem rt pn (record c { round = r }) w)
  apply_call (accepts c auth now) r w = of_round (accept rt (record c { round = r }) auth now w)
  apply_call (finishes c) r w = with_world (finish_reconciliation (record c { round = r })) w
  apply_call (rejects c now) r w = of_round (reject rt (record c { round = r }) now w)
  apply_call (cancels c now) r w = of_round (cancel rt (record c { round = r }) now w)
  apply_call (closes c now) r w = of_round (close rt (record c { round = r }) now w)
  apply_call migrates r w = ok (some (migrate rt r), w)

  -- Every call that succeeds and leaves the round alive advances it along the diagram.
  pub apply_call-Advances :
      (call : Call) (r r' : Round) (w w' : rt.World)
      → apply_call call r w ≡ ok (some r', w')
      → Advances r r'
  unfolding apply_call contribute withdraw record_offchain_contribution reject_bid redeem accept
      finish_reconciliation reject cancel close migrate assert_can_accept_or_reject
      assert_can_finish_reconciliation
  apply_call-Advances (contributes c now) r r' w w' e = ground arith
  apply_call-Advances (withdraws c now) r r' w w' e = ground arith
  apply_call-Advances (records c n) r r' w w' e = ground arith
  apply_call-Advances (rejects_bid c now) r r' w w' e = ground arith
  apply_call-Advances (redeems c) r r' w w' e = ground arith
  apply_call-Advances (accepts c auth now) r r' w w' e = ground arith
  apply_call-Advances (finishes c) r r' w w' e = ground arith
  apply_call-Advances (rejects c now) r r' w w' e = ground arith
  apply_call-Advances (cancels c now) r r' w w' e = ground arith
  apply_call-Advances (closes c now) r r' w w' e = ground arith
  apply_call-Advances migrates r r' w w' e = ground arith
