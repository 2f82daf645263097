-- ===== src/Round.antt =====
-- The program `round` (round/src/lib.rs, round/src/state.rs): a sale of an offered token for a bid
-- token. Users contribute bids and get vouchers; the heir accepts or rejects; users redeem or
-- withdraw.
pub mod Defs
pub mod Guards
pub mod GuardLaws
pub mod Redeem
pub mod Events
pub mod Context
pub mod Bids
pub mod BidLaws
pub mod Lifecycle
pub mod Invariant
pub mod History
pub mod Panics
