-- ===== src/Fanout/Defs.antt =====
-- The account of a fanout, its members and the errors (fanout/src/state.rs, fanout/src/error.rs).
use human_program_library.Base.{ℕ, List, Pubkey}

pub record Member : Type 0 where
  pub address : Pubkey
  pub share : ℕ  -- u16

pub record Fanout : Type 0 where
  pub distributed : ℕ  -- u64
  pub members : List Member

pub data FanoutError : Type 0 where
  overflow invalid_member_count invalid_shares duplicate_member member_not_found : FanoutError
  non_zero_balance invalid_close_authority : FanoutError

-- An error of the program, or `AccountBorrowFailed` of a second mutable borrow.
pub data Failure : Type 0 where
  fanout_error : FanoutError → Failure
  account_borrow_failed : Failure
