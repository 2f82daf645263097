-- ===== src/Royalty.antt =====
-- The royalty program (royalty/src): tokens are deposited on vouchers, and the lamports that the
-- state account gathers are distributed over the vouchers.
pub mod Defs
pub mod Split
pub mod Distribute
pub mod Claim
pub mod Program
pub mod Weights
pub mod Tokens
pub mod Withdraw
pub mod Account
pub mod WeightLaws
pub mod VoucherLedger
pub mod WithdrawLaws
pub mod DepositLaws
pub mod AccountLaws
pub mod LedgerSpec
pub mod Reads
pub mod OpenLaws
pub mod Calls
pub mod Refinement
pub mod ClaimLaws
pub mod SplitLaws
pub mod Ledger
pub mod DistributeLaws
pub mod Payments
pub mod Drops
