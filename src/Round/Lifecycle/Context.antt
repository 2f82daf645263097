-- ===== src/Round/Lifecycle/Context.antt =====
-- The accounts of the instructions on a whole round, with their constraints
-- (`#[derive(Accounts)]`, round/src/lib.rs).
use human_program_library.Base.Int.{ℤ}
use human_program_library.Base.{Bool, ◌&&◌, ◌==◌, Pubkey, ℕ}
use human_program_library.Runtime.{Runtime, TokenAccount}
use human_program_library.Round.Defs.{Round}
use human_program_library.Round.Context.{authority_address, offer_address, bid_address}

pub record CreateRoundParams : Type 0 where
  pub heir : Pubkey
  pub recipient : Pubkey
  pub target_bid : ℕ  -- u64
  pub bidding_start : ℤ
  pub bidding_end : ℤ

-- The wallets with `init` are created by the framework before the handler runs.
pub record CreateRound : Type 0 where
  pub round_key : Pubkey
  pub offer_wallet : Pubkey
  pub offer_mint : Pubkey
  pub offer_source_wallet : TokenAccount
  pub offer_source_authority : Pubkey
  pub offer_source_authority_is_signer : Bool
  pub bid_wallet : Pubkey
  pub bid_mint : Pubkey
  pub authority : Pubkey
  pub payer : Pubkey
  pub payer_is_signer : Bool

pub record Accept : Type 0 where
  pub round_key : Pubkey
  pub round : Round
  pub heir : Pubkey
  pub heir_is_signer : Bool
  pub offer_wallet : TokenAccount
  pub bid_wallet : TokenAccount
  pub recipient : Pubkey
  pub authority : Pubkey
  pub payer : Pubkey

pub record FinishReconciliation : Type 0 where
  pub round_key : Pubkey
  pub round : Round
  pub reconciliation_authority : Pubkey
  pub reconciliation_authority_is_signer : Bool

pub record Reject : Type 0 where
  pub round_key : Pubkey
  pub round : Round
  pub heir : Pubkey
  pub heir_is_signer : Bool
  pub offer_wallet : TokenAccount
  pub return_wallet : Pubkey
  pub authority : Pubkey
  pub payer : Pubkey

pub record Cancel : Type 0 where
  pub round_key : Pubkey
  pub round : Round
  pub heir : Pubkey
  pub heir_is_signer : Bool
  pub return_wallet : Pubkey
  pub offer_wallet : TokenAccount
  pub bid_wallet : TokenAccount
  pub authority : Pubkey
  pub payer : Pubkey

-- The bid wallet may be closed already, so it comes with the program that owns it.
pub record Close : Type 0 where
  pub round_key : Pubkey
  pub round : Round
  pub return_wallet : Pubkey
  pub offer_wallet : TokenAccount
  pub bid_wallet : Pubkey
  pub bid_wallet_owner : Pubkey
  pub authority : Pubkey
  pub payer : Pubkey

module _ (rt : Runtime) where
  unfoldable pub create_round_constraints : CreateRound → Bool
  create_round_constraints a =
      a.offer_wallet == offer_address rt a.round_key
      && a.offer_source_authority_is_signer
      && a.bid_wallet == bid_address rt a.round_key
      && a.authority == authority_address rt a.round_key
      && a.payer_is_signer

  unfoldable pub accept_constraints : Accept → Bool
  accept_constraints a =
      a.round.heir == a.heir
      && a.round.recipient == a.recipient
      && a.heir_is_signer
      && a.offer_wallet.key == offer_address rt a.round_key
      && a.bid_wallet.key == bid_address rt a.round_key
      && a.authority == authority_address rt a.round_key

  unfoldable pub reject_constraints : Reject → Bool
  reject_constraints a =
      a.round.heir == a.heir
      && a.round.payer == a.payer
      && a.round.return_wallet == a.return_wallet
      && a.heir_is_signer
      && a.offer_wallet.key == offer_address rt a.round_key
      && a.authority == authority_address rt a.round_key

  unfoldable pub cancel_constraints : Cancel → Bool
  cancel_constraints a =
      a.round.heir == a.heir
      && a.round.payer == a.payer
      && a.round.return_wallet == a.return_wallet
      && a.heir_is_signer
      && a.offer_wallet.key == offer_address rt a.round_key
      && a.bid_wallet.key == bid_address rt a.round_key
      && a.authority == authority_address rt a.round_key

  unfoldable pub close_constraints : Close → Bool
  close_constraints a =
      a.round.payer == a.payer
      && a.round.return_wallet == a.return_wallet
      && a.offer_wallet.key == offer_address rt a.round_key
      && a.bid_wallet == bid_address rt a.round_key
      && a.authority == authority_address rt a.round_key

unfoldable pub finish_constraints : FinishReconciliation → Bool
finish_constraints a =
    a.round.reconciliation_authority == a.reconciliation_authority
    && a.reconciliation_authority_is_signer
