-- ===== src/Fanout.antt =====
-- The program `fanout` (fanout/src/lib.rs, fanout/src/state.rs): a pot with a fixed list of members
-- and their shares in basis points, of which `distribute` pays out all that exceeds the rent.
pub mod Defs
pub mod Split
pub mod Init
pub mod Pay
pub mod InitLaws
pub mod SplitLaws
pub mod PayLaws
pub mod Payout
pub mod Duplicates
