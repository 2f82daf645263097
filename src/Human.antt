-- ===== src/Human.antt =====
-- The human program (human/src): the vesting of the tokens of a person's contract, its drops, and
-- the time windows of reposts.
pub mod Defs
pub mod State
pub mod StateLaws
pub mod Vest
pub mod VestLaws
pub mod Schedule
pub mod Timely
pub mod Program
pub mod Migration
pub mod Contract
pub mod ContractLaws
