-- ===== src/Common.antt =====
-- The crate that the programs share (common/src): entities in account data, and the iterators that
-- check the accounts of an instruction.
pub mod Codec
pub mod Errors
pub mod Memory
pub mod Accounts
pub mod Keeps
pub mod Entity
pub mod EntityLaws
pub mod EntityAccounts
pub mod EntityAccountLaws
