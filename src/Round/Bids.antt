-- ===== src/Round/Bids.antt =====
-- The handlers on single bids: `contribute`, `withdraw`, `record_offchain_contribution`,
-- `reject_bid` and `redeem` (round/src/lib.rs). A voucher closed by its attribute comes back as
-- `none`; what `emit!` logs is the list of events.
use human_program_library.Base.Int.{ℤ}
use human_program_library.Base.Words.{checked_add, checked_sub, u64_limit}
use human_program_library.Base.Result.{unwrap, Result, ok, err, panic, ok_or, fail_if, and_then}
use human_program_library.Base.{
  ℕ, Bool, true, false, not, ◌||◌, Option, none, some, List, [], ◌∷◌, ◌==◌, ◌!=◌, if◌then◌else◌,
  Pubkey, default_pubkey,
}
use human_program_library.Precise.{PreciseNumber}
use human_program_library.Runtime.{
  Runtime, token_transfer, token_close, token_initialize, system_create, system_transfer,
}
use human_program_library.Runtime.Action.{Action, ◌>>=◌, ◌>>◌, pure, lift, call}
use human_program_library.Round.Defs.{
  RoundStatus, pending, accepted, rejected, reconciliation, Round, Voucher, overflow,
  no_delegated_amount,
}
use human_program_library.Round.Guards.{
  Guard, assert_can_contribute, assert_can_withdraw, assert_can_contribute_offchain,
  assert_can_reject_bid, assert_can_redeem,
}
use human_program_library.Round.Redeem.{calculate_redeem_amount}
use human_program_library.Round.Events.{
  WithdrawReason, user_initiated, round_rejected, heir_timeout, Event, contribute_event,
  withdraw_event, bid_rejected, redeemed,
}
use human_program_library.Round.Context.{
  Failure, round_error, constraint, cpi_failed, Contribute, RecordOffchainContribution, Withdraw,
  RejectBid, Redeem, contribute_constraints, offchain_constraints, withdraw_constraints,
  reject_bid_constraints, redeem_constraints,
}

-- What a handler leaves in the accounts, and its events.
pub record Outcome : Type 0 where
  pub round : Round
  pub voucher : Option Voucher
  pub events : List Event

abbrev pub guarded : Guard → Result Failure (Unit {0})
guarded (ok u) = ok u
guarded (err e) = err (round_error e)
guarded panic = panic

-- `init_if_needed`: a new account is zeroed.
abbrev pub init_if_needed : Option Voucher → Voucher
init_if_needed (some v) = v
init_if_needed none = record {
  user = default_pubkey;
  round = default_pubkey;
  payer = default_pubkey;
  amount_contributed = 0;
  is_fiat = false;
}

abbrev pub has_delegate : Option Pubkey → Bool
has_delegate none = false
has_delegate (some d) = true

-- `match` on the status and the signature, for the event.
unfoldable pub withdraw_reason : RoundStatus → Bool → Result Failure WithdrawReason
withdraw_reason pending true = ok user_initiated
withdraw_reason pending false = ok heir_timeout
withdraw_reason rejected signed = ok round_rejected
withdraw_reason accepted signed = panic
withdraw_reason reconciliation signed = panic

module _ (rt : Runtime) where
  abbrev Handler : Type 0 → Type 0
  Handler A = Action rt.World Failure A

  -- The new voucher of a first contribution, and the count of vouchers.
  unfoldable pub register_voucher : Contribute → Voucher → List Event → Result Failure Outcome
  register_voucher c v events =
      if v.payer != default_pubkey
      then ok (record { round = c.round; voucher = some v; events = events })
      else and_then (ok_or (checked_add u64_limit c.round.vouchers_count 1) (round_error overflow))
          (λ count. ok (record {
            round = record c.round { vouchers_count = count };
            voucher = some (record v { payer = c.payer; round = c.round_key; user = c.user });
            events = events;
          }))

  unfoldable pub contribute : Contribute → ℤ → Handler Outcome
  unfolding register_voucher
  contribute c now = do
    lift (fail_if (not (contribute_constraints rt c)) constraint)
    lift (guarded (assert_can_contribute c.round now))
    let amount_to_deposit = c.user_wallet.delegated_amount
    lift (
        fail_if (not (has_delegate c.user_wallet.delegate) || amount_to_deposit == 0)
          (round_error no_delegated_amount))
    call rt cpi_failed (
        token_transfer c.user_wallet.key c.bid_wallet.key c.user_wallet_authority amount_to_deposit)
    let voucher = init_if_needed c.voucher
    amount ← lift (
        ok_or (checked_add u64_limit voucher.amount_contributed amount_to_deposit)
          (round_error overflow))
    lift (
        register_voucher c (record voucher { amount_contributed = amount })
          (contribute_event c.round_key c.user c.round.bid_mint c.round.offer_mint amount_to_deposit
              false
            ∷ []))

  -- `refund_bid_to_recipient`: tokens go to the user's wallet; wrapped SOL is unwrapped through a
  -- temporary account at the authority's address and paid by the current payer.
  unfoldable pub refund_bid_to_recipient : Withdraw → Handler (Unit {0})
  refund_bid_to_recipient a =
      let amount = a.voucher.amount_contributed in
      elim a.bid_wallet.is_native [
        | none ↦
            call rt cpi_failed (token_transfer a.bid_wallet.key a.user_wallet a.authority amount)
        | some _ ↦ do
          let space = rt.token_account_len
          call rt cpi_failed (
              system_create a.current_payer a.authority (rt.rent_minimum space) space
                rt.token_program)
          call rt cpi_failed (token_initialize a.authority a.wsol_mint a.authority)
          call rt cpi_failed (token_transfer a.bid_wallet.key a.authority a.authority amount)
          call rt cpi_failed (token_close a.authority a.current_payer a.authority)
          call rt cpi_failed (system_transfer a.current_payer a.user amount)
      ]

  unfoldable pub withdraw : Withdraw → ℤ → Handler Outcome
  unfolding withdraw_reason
  withdraw a now = do
    lift (fail_if (not (withdraw_constraints rt a)) constraint)
    lift (guarded (assert_can_withdraw a.round now a.user_is_signer))
    refund_bid_to_recipient a
    let contributed = a.voucher.amount_contributed
    count ← lift (ok_or (checked_sub a.round.vouchers_count 1) (round_error overflow))
    reason ← lift (withdraw_reason a.round.status a.user_is_signer)
    pure (record {
      round = record a.round { vouchers_count = count };
      voucher = none;
      events =
          withdraw_event a.round_key a.user a.round.bid_mint a.round.offer_mint contributed reason
          ∷ [];
    })

  -- The voucher of the first record for a user; a further record only logs its event.
  unfoldable pub record_voucher :
      RecordOffchainContribution → ℕ → Voucher → List Event → Result Failure Outcome
  record_voucher c amount_lamports v events =
      if v.payer != default_pubkey
      then ok (record { round = c.round; voucher = some v; events = events })
      else and_then (ok_or (checked_add u64_limit c.round.vouchers_count 1) (round_error overflow))
          (λ count. ok (record {
            round = record c.round { vouchers_count = count };
            voucher = some (record {
              user = c.user;
              round = c.round_key;
              payer = c.payer;
              amount_contributed = amount_lamports;
              is_fiat = true;
            });
            events = events;
          }))

  unfoldable pub record_offchain_contribution : RecordOffchainContribution → ℕ → Handler Outcome
  unfolding record_voucher
  record_offchain_contribution c amount_lamports = do
    lift (fail_if (not (offchain_constraints rt c)) constraint)
    lift (guarded (assert_can_contribute_offchain c.round))
    lift (
        record_voucher c amount_lamports (init_if_needed c.voucher) (
          contribute_event c.round_key c.user c.round.bid_mint c.round.offer_mint amount_lamports
            true
          ∷ []))

  -- `RejectBid::to_withdraw_ctx`
  unfoldable pub to_withdraw_ctx : RejectBid → Withdraw
  to_withdraw_ctx a = record {
    round_key = a.round_key;
    round = a.round;
    voucher_key = a.voucher_key;
    voucher = a.voucher;
    user = a.user;
    user_is_signer = a.user_is_signer;
    user_wallet = a.user_wallet;
    bid_wallet = a.bid_wallet;
    authority = a.authority;
    wsol_mint = a.wsol_mint;
    payer = a.payer;
    current_payer = a.current_payer;
    current_payer_is_signer = a.current_payer_is_signer;
  }

  unfoldable pub reject_bid : RejectBid → ℤ → Handler Outcome
  unfolding to_withdraw_ctx
  reject_bid a now = do
    lift (fail_if (not (reject_bid_constraints rt a)) constraint)
    lift (guarded (assert_can_reject_bid a.round now))
    refund_bid_to_recipient (to_withdraw_ctx a)
    count ← lift (ok_or (checked_sub a.round.vouchers_count 1) (round_error overflow))
    pure (record {
      round = record a.round { vouchers_count = count };
      voucher = none;
      events =
          bid_rejected a.round_key a.user a.round.bid_mint a.round.offer_mint a.bid_wallet.amount
          ∷ [];
    })

  unfoldable pub transfer_to_user : Redeem → ℕ → Handler (Unit {0})
  transfer_to_user a amount =
      call rt cpi_failed (token_transfer a.offer_wallet.key a.user_wallet.key a.authority amount)

  -- `target_bid`, or the total bid where no target was set.
  unfoldable pub redeem_target : Round → Result Failure ℕ
  redeem_target r = if r.target_bid != 0 then ok r.target_bid else unwrap r.total_bid

  unfoldable pub redeem : (pn : PreciseNumber) → Redeem → Handler Outcome
  unfolding redeem_target transfer_to_user
  redeem pn a = do
    lift (fail_if (not (redeem_constraints rt a)) constraint)
    lift (guarded (assert_can_redeem a.round))
    target ← lift (redeem_target a.round)
    total_bid ← lift (unwrap a.round.total_bid)
    total_offer ← lift (unwrap a.round.total_offer)
    amount ← lift (
        ok_or (calculate_redeem_amount pn target total_bid a.voucher.amount_contributed total_offer)
          (round_error overflow))
    count ← lift (ok_or (checked_sub a.round.vouchers_count 1) (round_error overflow))
    transfer_to_user a amount
    pure (record {
      round = record a.round { vouchers_count = count };
      voucher = none;
      events = redeemed a.round_key a.user a.round.bid_mint a.round.offer_mint amount ∷ [];
    })
