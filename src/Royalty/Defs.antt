-- ===== src/Royalty/Defs.antt =====
-- The accounts of the royalty program (royalty/src/state.rs), its errors (royalty/src/error.rs) and
-- the store of accounts that a distribution works on.
use human_program_library.Base.{ℕ, Option, Pubkey, ◌==◌, if◌then◌else◌}
use human_program_library.Base.Int.{ℤ}
use human_program_library.Base.Result.{Result, ok, err, panic}

pub record Settings : Type 0 where
  pub min_token_to_enroll : ℕ  -- u64
  pub owner_fee : ℕ  -- u16
  pub host_fee : ℕ  -- u16
  pub host_flat_fee : ℕ  -- u32

pub record Split : Type 0 where
  pub distribute_amount : ℕ  -- u64
  pub owner_comission : ℕ
  pub host_comission : ℕ

pub record Distribution : Type 0 where
  pub distribute_amount : ℕ  -- u64
  pub seen_vouchers : ℕ  -- u32

pub record State : Type 0 where
  pub wallet : Pubkey
  pub owner : Pubkey
  pub host : Pubkey
  pub total_distributed : ℕ  -- u64
  pub total_user_distributed : ℕ  -- u64
  pub settings : Settings
  pub drop_idx : ℕ  -- u32
  pub vouchers_count : ℕ  -- u32
  pub tokens_held : ℕ  -- u64
  pub distribution : Option Distribution
  pub token_mint : Pubkey
  pub realm_addr : Pubkey
  pub vault_addr : Pubkey

pub record Voucher : Type 0 where
  pub user : Pubkey
  pub state : Pubkey
  pub drop_idx : ℕ  -- u32
  pub balance : ℕ  -- u64
  pub last_distribution : ℤ  -- UnixTimestamp

pub data RoyaltyError : Type 0 where
  less_than_deposit_minimum blacklisted_for_enroll no_other_programs_allowed : RoyaltyError
  voucher_not_eligible overflow invalid_voucher not_enough_to_start_distribution : RoyaltyError
  zero_token_balance temporary_unavailable insufficient_balance : RoyaltyError
  unrelinquished_votes : RoyaltyError

-- An error of the program, or of `ProgramError`.
pub data Failure : Type 0 where
  royalty_error : RoyaltyError → Failure
  illegal_owner invalid_argument missing_required_signature : Failure
  account_not_rent_exempt account_borrow_failed : Failure

-- The lamports of every account, and the vouchers that the program owns.
pub record Store : Type 0 where
  pub lamports : Pubkey → ℕ
  pub vouchers : Pubkey → Option Voucher

abbrev pub set {ℓ} : {A : Type ℓ} → Pubkey → A → (Pubkey → A) → Pubkey → A
set k v f a = if a == k then v else f a

-- `.ok_or(Error::Overflow)?` of a function that returns an `Option`, and may panic.
abbrev pub or_overflow : {A : Type 0} → Result (Unit {0}) A → Result Failure A
or_overflow (ok a) = ok a
or_overflow (err e) = err (royalty_error overflow)
or_overflow panic = panic
