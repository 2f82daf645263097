-- ===== src/Escrow.antt =====
-- The escrow program (escrow/src): requests that hold tokens until they are accepted or refunded.
pub mod Defs
pub mod Program
pub mod Storage
pub mod Create
pub mod Contribute
pub mod Refund
pub mod Decide
pub mod Entry
pub mod Layout
pub mod StateLaws
pub mod CreateLaws
pub mod EraseLaws
pub mod AcceptLaws
