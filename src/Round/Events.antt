-- ===== src/Round/Events.antt =====
-- The events that the handlers emit (round/src/event.rs).
use human_program_library.Base.{Bool, Pubkey, ℕ}
use human_program_library.Round.Defs.{Round}

pub data WithdrawReason : Type 0 where
  user_initiated round_rejected heir_timeout : WithdrawReason

pub data Event : Type 0 where
  round_created : (round_addr : Pubkey) (round : Round) → Event
  contribute_event :
      (round user bid_mint offer_mint : Pubkey) (amount : ℕ) (is_offchain : Bool) → Event
  withdraw_event :
      (round user bid_mint offer_mint : Pubkey) (amount : ℕ) (reason : WithdrawReason) → Event
  bid_rejected : (round user bid_mint offer_mint : Pubkey) (amount : ℕ) → Event
  round_accepted : (round heir bid_mint offer_mint : Pubkey) (bid_amount offer_amount : ℕ) → Event
  round_rejected_event : (round heir bid_mint offer_mint : Pubkey) (offer_amount : ℕ) → Event
  redeemed : (round user bid_mint offer_mint : Pubkey) (amount : ℕ) → Event
  round_cancelled : (round heir bid_mint offer_mint : Pubkey) (bid_amount offer_amount : ℕ) → Event
  round_closed : (round_addr : Pubkey) (round : Round) (returned_offer_amount : ℕ) → Event
