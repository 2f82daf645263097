-- ===== src/Human/Defs.antt =====
-- The vesting state (human/src/vest.rs), the errors (human/src/error.rs) and the constants of the
-- vesting (human/src/consts.rs, as built without the feature `dev`).
use human_program_library.Base.{ℕ}
use human_program_library.Base.Int.{ℤ}

pub record VestState : Type 0 where
  pub deployed_at : ℤ  -- UnixTimestamp
  pub vested_periods : ℕ  -- u8

pub data VestingResult : Type 0 where
  vest : ℕ → VestingResult
  period_vested completed : VestingResult

pub data HumanError : Type 0 where
  overflow drop_price_zero drop_invalid_date drop_already_exists no_drop : HumanError
  drop_timeframe_expired expected_price_mismatch repost_window_expired : HumanError
  cant_redeem_now : HumanError

-- An error of the program, an error of `ProgramError`, or a failed call.
pub data Failure : Type 0 where
  human_error : HumanError → Failure
  invalid_argument invalid_seeds cpi_failed : Failure

-- Twelve months across three years.
abbrev pub vesting_total_parts : ℕ
vesting_total_parts = 36

-- Seconds in a month.
abbrev pub vesting_part_length : ℕ
vesting_part_length = 2_629_800
