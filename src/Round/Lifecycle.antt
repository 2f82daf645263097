-- ===== src/Round/Lifecycle.antt =====
-- The handlers on a whole round: `create_round`, `accept`, `finish_reconciliation`, `reject`,
-- `cancel`, `close` and `migrate` (round/src/lib.rs).
pub mod Context
use human_program_library.Base.Int.{ℤ, leb_ℤ}
use human_program_library.Base.Result.{Result, ok, unwrap, fail_if, assert, and_then}
use human_program_library.Base.{
  not, ◌||◌, Option, none, some, List, [], ◌∷◌, ◌==◌, if◌then◌else◌, Pubkey, default_pubkey, ℕ,
}
use human_program_library.Runtime.{
  Runtime, token_transfer, token_close, system_transfer, TokenAccount,
}
use human_program_library.Runtime.Action.{Action, ◌>>=◌, ◌>>◌, pure, lift, call}
use human_program_library.Round.Defs.{
  pending, accepted, rejected, reconciliation, Round, RoundError, no_delegated_amount,
  suspicious_offer_interval,
}
use human_program_library.Round.Guards.{
  assert_can_accept_or_reject, assert_can_finish_reconciliation, assert_can_cancel,
  assert_can_close,
}
use human_program_library.Round.Events.{
  Event, round_created, round_accepted, round_rejected_event, round_cancelled, round_closed,
}
use human_program_library.Round.Context.{Failure, round_error, constraint, cpi_failed}
use human_program_library.Round.Bids.{guarded, has_delegate}
use Context.{
  CreateRoundParams, CreateRound, Accept, FinishReconciliation, Reject, Cancel, Close,
  create_round_constraints, accept_constraints, reject_constraints, cancel_constraints,
  close_constraints, finish_constraints,
}

-- The round that a handler leaves, `none` where its account is closed, and the events.
pub record Left : Type 0 where
  pub round : Option Round
  pub events : List Event

module _ (rt : Runtime) where
  abbrev Handler : Type 0 → Type 0
  Handler A = Action rt.World Failure A

  unfoldable pub create_round : CreateRound → CreateRoundParams → ℤ → Handler Left
  create_round a params now = do
    lift (fail_if (not (create_round_constraints rt a)) constraint)
    let offer_amount = a.offer_source_wallet.delegated_amount
    lift (
        fail_if (not (has_delegate a.offer_source_wallet.delegate) || offer_amount == 0)
          (round_error no_delegated_amount))
    lift (
        fail_if (leb_ℤ params.bidding_end params.bidding_start)
          (round_error suspicious_offer_interval))
    call rt cpi_failed (
        token_transfer a.offer_source_wallet.key a.offer_wallet a.offer_source_authority
          offer_amount)
    let round : Round = record {
      status = pending;
      bid_mint = a.bid_mint;
      offer_mint = a.offer_mint;
      heir = params.heir;
      recipient = params.recipient;
      payer = a.payer;
      vouchers_count = 0;
      created_at = now;
      bidding_start = params.bidding_start;
      bidding_end = params.bidding_end;
      total_bid = none;
      total_offer = some offer_amount;
      target_bid = params.target_bid;
      return_wallet = a.offer_source_wallet.key;
      reconciliation_authority = default_pubkey;
    }
    pure (record { round = some round; events = round_created a.round_key round ∷ [] })

  -- Wrapped SOL is unwrapped to the authority and sent on, its rent to the payer; other tokens are
  -- transferred.
  unfoldable pub transfer_bid_to_recipient : Accept → Handler (Unit {0})
  transfer_bid_to_recipient a =
      let balance = a.bid_wallet.amount in
      elim a.bid_wallet.is_native [
        | some rent ↦ do
          call rt cpi_failed (token_close a.bid_wallet.key a.authority a.authority)
          call rt cpi_failed (system_transfer a.authority a.recipient balance)
          call rt cpi_failed (system_transfer a.authority a.payer rent)
        | none ↦
            call rt cpi_failed (token_transfer a.bid_wallet.key a.recipient a.authority balance)
      ]

  -- The status and the event of an accepted round, or of one that goes into reconciliation.
  unfoldable pub decide_status : Accept → Round → Option Pubkey → Left
  decide_status a r (some auth) = record {
    round = some (record r { status = reconciliation; reconciliation_authority = auth });
    events = [];
  }
  decide_status a r none = record {
    round = some (record r { status = accepted });
    events =
        round_accepted a.round_key a.heir r.bid_mint r.offer_mint a.bid_wallet.amount
          a.offer_wallet.amount
        ∷ [];
  }

  unfoldable pub accept : Accept → Option Pubkey → ℤ → Handler Left
  unfolding decide_status
  accept a reconciliation_authority now = do
    lift (fail_if (not (accept_constraints rt a)) constraint)
    lift (guarded (assert_can_accept_or_reject a.round now))
    let round : Round = record a.round {
      total_bid = some a.bid_wallet.amount;
      total_offer = some a.offer_wallet.amount;
    }
    transfer_bid_to_recipient a
    pure (decide_status a round reconciliation_authority)

  unfoldable pub transfer_offer_back_to_heir : Reject → Handler (Unit {0})
  transfer_offer_back_to_heir a =
      call rt cpi_failed
        (token_transfer a.offer_wallet.key a.return_wallet a.authority a.offer_wallet.amount)

  unfoldable pub reject : Reject → ℤ → Handler Left
  unfolding transfer_offer_back_to_heir
  reject a now = do
    lift (fail_if (not (reject_constraints rt a)) constraint)
    lift (guarded (assert_can_accept_or_reject a.round now))
    transfer_offer_back_to_heir a
    pure (record {
      round = some (record a.round { status = rejected });
      events =
          round_rejected_event a.round_key a.heir a.round.bid_mint a.round.offer_mint
            a.offer_wallet.amount
          ∷ [];
    })

  unfoldable pub cancel : Cancel → ℤ → Handler Left
  cancel a now = do
    lift (fail_if (not (cancel_constraints rt a)) constraint)
    lift (guarded (assert_can_cancel a.round now))
    lift (assert (a.round.vouchers_count == 0))
    call rt cpi_failed
        (token_transfer a.offer_wallet.key a.return_wallet a.authority a.offer_wallet.amount)
    call rt cpi_failed (token_close a.offer_wallet.key a.payer a.authority)
    call rt cpi_failed (token_close a.bid_wallet.key a.payer a.authority)
    pure (record {
      round = none;
      events =
          round_cancelled a.round_key a.heir a.round.bid_mint a.round.offer_mint a.bid_wallet.amount
            a.offer_wallet.amount
          ∷ [];
    })

  -- The bid wallet is closed if the token program still owns it.
  unfoldable pub close_bid : Close → Handler (Unit {0})
  close_bid a =
      if a.bid_wallet_owner == rt.token_program
      then call rt cpi_failed (token_close a.bid_wallet a.payer a.authority)
      else pure tt

  unfoldable pub close : Close → ℤ → Handler Left
  unfolding close_bid
  close a now = do
    lift (fail_if (not (close_constraints rt a)) constraint)
    lift (guarded (assert_can_close a.round now))
    call rt cpi_failed
        (token_transfer a.offer_wallet.key a.return_wallet a.authority a.offer_wallet.amount)
    call rt cpi_failed (token_close a.offer_wallet.key a.payer a.authority)
    close_bid a
    pure (record {
      round = none;
      events = round_closed a.round_key a.round a.offer_wallet.amount ∷ [];
    })

  unfoldable pub migrate : Round → Round
  migrate r =
      if r.return_wallet == default_pubkey
      then record r { return_wallet = rt.associated_token r.heir r.offer_mint }
      else r

unfoldable pub finish_reconciliation : FinishReconciliation → Result Failure Left
finish_reconciliation a = and_then (fail_if (not (finish_constraints a)) constraint) λ _.
    and_then (guarded (assert_can_finish_reconciliation a.round)) λ _.
      and_then (unwrap a.round.total_bid) λ bid_amount.
        and_then (unwrap a.round.total_offer) λ offer_amount. ok (record {
          round = some (record a.round { status = accepted });
          events =
              round_accepted a.round_key a.round.heir a.round.bid_mint a.round.offer_mint bid_amount
                offer_amount
              ∷ [];
        })
