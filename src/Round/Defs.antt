-- ===== src/Round/Defs.antt =====
-- The accounts, the status and the errors of a round (round/src/state.rs, round/src/error.rs). The
-- reserved fields hold nothing and are left out.
use human_program_library.Base.{ℕ, Bool, true, false, Option, Pubkey}
use human_program_library.Base.Int.{ℤ}

pub data RoundStatus : Type 0 where
  pending accepted rejected reconciliation : RoundStatus

-- The derived `PartialEq`.
abbrev pub status_eq : RoundStatus → RoundStatus → Bool
status_eq pending pending = true
status_eq accepted accepted = true
status_eq rejected rejected = true
status_eq reconciliation reconciliation = true
status_eq _ _ = false

pub record Round : Type 0 where
  pub status : RoundStatus
  pub bid_mint : Pubkey
  pub offer_mint : Pubkey
  pub heir : Pubkey
  pub recipient : Pubkey
  pub payer : Pubkey
  pub vouchers_count : ℕ  -- u64
  pub created_at : ℤ  -- i64
  pub bidding_start : ℤ
  pub bidding_end : ℤ
  pub total_bid : Option ℕ
  pub total_offer : Option ℕ
  pub target_bid : ℕ  -- u64
  pub return_wallet : Pubkey
  pub reconciliation_authority : Pubkey

pub record Voucher : Type 0 where
  pub user : Pubkey
  pub round : Pubkey
  pub payer : Pubkey
  pub amount_contributed : ℕ  -- u64
  pub is_fiat : Bool

pub data RoundError : Type 0 where
  overflow suspicious_offer_interval no_delegated_amount : RoundError
  bidding_not_started bidding_ended bidding_is_not_over : RoundError
  inactivity_timeout_has_not_passed cant_withdraw_pending_offer : RoundError
  cant_withdraw_accepted_offer offer_is_not_pending offer_timed_out : RoundError
  bidding_still_going cant_accept_zero_offering : RoundError
  cant_withdraw_without_user_signature cant_redeem_not_accepted_round : RoundError
  cant_cancel_started_round vouchers_not_withdrawn cant_close_before_heir_timeout : RoundError
  cant_close_during_reconciliation cant_withdraw_during_reconciliation : RoundError
  cant_contribute_fiat_not_in_reconciliation : RoundError
