-- ===== src/Round/Context.antt =====
-- The accounts of the instructions on bids, with the constraints that their attributes state
-- (`#[derive(Accounts)]`, round/src/lib.rs): signers, addresses derived from seeds, `has_one`.
use human_program_library.Base.{Bool, ◌&&◌, Option, [], ◌∷◌, ◌==◌, Pubkey}
use human_program_library.Runtime.{Runtime, TokenAccount}
use human_program_library.Round.Defs.{Round, Voucher, RoundError}

-- An error of the program, a violated constraint of an account, or a failed call.
pub data Failure : Type 0 where
  round_error : RoundError → Failure
  constraint : Failure
  cpi_failed : Failure

pub record Contribute : Type 0 where
  pub round_key : Pubkey
  pub round : Round
  pub voucher_key : Pubkey
  pub voucher : Option Voucher
  pub user : Pubkey
  pub user_is_signer : Bool
  pub user_wallet : TokenAccount
  pub user_wallet_authority : Pubkey
  pub user_wallet_authority_is_signer : Bool
  pub bid_wallet : TokenAccount
  pub payer : Pubkey
  pub payer_is_signer : Bool

pub record RecordOffchainContribution : Type 0 where
  pub round_key : Pubkey
  pub round : Round
  pub voucher_key : Pubkey
  pub voucher : Option Voucher
  pub user : Pubkey
  pub reconciliation_authority : Pubkey
  pub reconciliation_authority_is_signer : Bool
  pub payer : Pubkey
  pub payer_is_signer : Bool

pub record Withdraw : Type 0 where
  pub round_key : Pubkey
  pub round : Round
  pub voucher_key : Pubkey
  pub voucher : Voucher
  pub user : Pubkey
  pub user_is_signer : Bool
  pub user_wallet : Pubkey
  pub bid_wallet : TokenAccount
  pub authority : Pubkey
  pub wsol_mint : Pubkey
  pub payer : Pubkey
  pub current_payer : Pubkey
  pub current_payer_is_signer : Bool

pub record RejectBid : Type 0 where
  pub round_key : Pubkey
  pub round : Round
  pub voucher_key : Pubkey
  pub voucher : Voucher
  pub heir : Pubkey
  pub heir_is_signer : Bool
  pub user : Pubkey
  pub user_is_signer : Bool
  pub user_wallet : Pubkey
  pub bid_wallet : TokenAccount
  pub authority : Pubkey
  pub wsol_mint : Pubkey
  pub payer : Pubkey
  pub current_payer : Pubkey
  pub current_payer_is_signer : Bool

pub record Redeem : Type 0 where
  pub round_key : Pubkey
  pub round : Round
  pub voucher_key : Pubkey
  pub voucher : Voucher
  pub user : Pubkey
  pub user_is_signer : Bool
  pub user_wallet : TokenAccount
  pub offer_wallet : TokenAccount
  pub authority : Pubkey
  pub payer : Pubkey

module _ (rt : Runtime) where
  abbrev pub authority_address : Pubkey → Pubkey
  authority_address round = rt.find_address "AUTH" (round ∷ [])

  abbrev pub offer_address : Pubkey → Pubkey
  offer_address round = rt.find_address "OFFER" (round ∷ [])

  abbrev pub bid_address : Pubkey → Pubkey
  bid_address round = rt.find_address "BID" (round ∷ [])

  abbrev pub voucher_address : Pubkey → Pubkey → Pubkey
  voucher_address round user = rt.find_address "VOUCHER" (round ∷ user ∷ [])

  abbrev pub offchain_voucher_address : Pubkey → Pubkey → Pubkey
  offchain_voucher_address round user = rt.find_address "OFFCHAIN_VOUCHER" (round ∷ user ∷ [])

  unfoldable pub contribute_constraints : Contribute → Bool
  contribute_constraints c =
      c.voucher_key == voucher_address c.round_key c.user
      && c.user_is_signer
      && c.user_wallet_authority_is_signer
      && c.bid_wallet.key == bid_address c.round_key
      && c.payer_is_signer

  unfoldable pub offchain_constraints : RecordOffchainContribution → Bool
  offchain_constraints c =
      c.round.reconciliation_authority == c.reconciliation_authority
      && c.voucher_key == offchain_voucher_address c.round_key c.user
      && c.reconciliation_authority_is_signer
      && c.payer_is_signer

  unfoldable pub withdraw_constraints : Withdraw → Bool
  withdraw_constraints c =
      c.voucher_key == voucher_address c.round_key c.user
      && c.voucher.user == c.user
      && c.voucher.payer == c.payer
      && c.user_wallet == rt.associated_token c.user c.bid_wallet.mint
      && c.bid_wallet.key == bid_address c.round_key
      && c.authority == authority_address c.round_key
      && c.wsol_mint == rt.native_mint
      && c.current_payer_is_signer

  unfoldable pub reject_bid_constraints : RejectBid → Bool
  reject_bid_constraints c =
      c.round.heir == c.heir
      && c.voucher_key == voucher_address c.round_key c.user
      && c.voucher.user == c.user
      && c.voucher.payer == c.payer
      && c.heir_is_signer
      && c.user_wallet == rt.associated_token c.user c.bid_wallet.mint
      && c.bid_wallet.key == bid_address c.round_key
      && c.authority == authority_address c.round_key
      && c.wsol_mint == rt.native_mint
      && c.current_payer_is_signer

  unfoldable pub redeem_constraints : Redeem → Bool
  redeem_constraints c =
      c.voucher_key == voucher_address c.round_key c.user
      && c.voucher.payer == c.payer
      && c.user_is_signer
      && c.offer_wallet.key == offer_address c.round_key
      && c.authority == authority_address c.round_key
