-- ===== src/Human/Vest.antt =====
-- `VestState::next_period` and `process_vest` (human/src/vest.rs).
use human_program_library.Precise.{PreciseNumber, u128_limit}
use human_program_library.Base.Int.{ℤ, pos, negsuc, checked_sub_i64}
use human_program_library.Base.Words.{
  checked_add, checked_sub, checked_mul, checked_div, u64_limit, u8_limit,
}
use human_program_library.Base.{[], ◌∷◌, ◌!=◌, Pubkey, ℕ, ◌-◌, min, ◌==◌, if◌then◌else◌}
use human_program_library.Runtime.{Runtime, TokenAccount, token_transfer}
use human_program_library.Runtime.Action
use human_program_library.Runtime.Action.{Action, pure, lift, call}
use human_program_library.Human.State.{ContractState}
use human_program_library.Human.Defs.{
  VestState, VestingResult, vest, period_vested, completed, HumanError, overflow, Failure,
  human_error, invalid_argument, invalid_seeds, cpi_failed, vesting_total_parts,
  vesting_part_length,
}
use human_program_library.Base.Result.{err, panic, fail_if, Result, ok, ok_or, unwrap, ◌>>=◌, ◌>>◌}

-- `n as u128` of an `i64`
abbrev pub as_u128 : ℤ → ℕ
as_u128 (pos n) = n
as_u128 (negsuc n) = u128_limit - 1 - n

-- The periods that have passed, at most all of them.
unfoldable pub elapsed_periods : (pn : PreciseNumber) → VestState → ℤ → Result HumanError ℕ
elapsed_periods pn s now = do
  elapsed ← ok_or (checked_sub_i64 now s.deployed_at) overflow
  seconds ← unwrap (pn.new (as_u128 elapsed))
  part_len ← unwrap (pn.new vesting_part_length)
  parts ← ok_or (pn.div seconds part_len) overflow
  whole_parts ← ok_or (pn.floor parts) overflow
  elapsed_parts ← ok_or (pn.to_imprecise whole_parts) overflow
  ok (min elapsed_parts vesting_total_parts)

-- The payment for the missed periods, equal parts of what the vault still holds.
unfoldable pub vest_missed : VestState → ℕ → ℕ → Result HumanError (VestingResult × VestState)
vest_missed s vault_supply missed_parts = do
  remaining_periods ← unwrap (checked_sub vesting_total_parts s.vested_periods)
  part ← ok_or (checked_div vault_supply remaining_periods) overflow
  amount ← ok_or (checked_mul u64_limit part missed_parts) overflow
  periods ← ok_or (checked_add u8_limit s.vested_periods missed_parts) overflow
  ok (vest amount, record s { vested_periods = periods })

-- `saturating_sub` is the subtraction of ℕ.
unfoldable pub next_period :
    (pn : PreciseNumber) → VestState → ℕ → ℤ → Result HumanError (VestingResult × VestState)
next_period pn s vault_supply now =
    if s.vested_periods == vesting_total_parts
    then ok (completed, s)
    else (elapsed_periods pn s now >>= (λ elapsed_parts.
        if elapsed_parts - s.vested_periods == 0
        then ok (period_vested, s)
        else vest_missed s vault_supply (elapsed_parts - s.vested_periods)))

pub record Vest : Type 0 where
  pub state : ContractState
  pub vault : TokenAccount
  pub owner_token_wallet : Pubkey
  pub transfer_authority : Pubkey
  pub token_program : Pubkey

-- The transfer of what has vested; nothing is moved where nothing has.
unfoldable pub pay_owner :
    (rt : Runtime) → Vest → VestingResult → Action rt.World Failure (Unit {0})
pay_owner rt a (vest amount) =
    call rt cpi_failed (token_transfer a.vault.key a.owner_token_wallet a.transfer_authority amount)
pay_owner rt a period_vested = pure tt
pay_owner rt a completed = pure tt

abbrev pub vested :
    Result HumanError (VestingResult × VestState) → Result Failure (VestingResult × VestState)
vested (ok r) = ok r
vested (err e) = err (human_error e)
vested panic = panic

-- The checks of the accounts, in their order.
unfoldable pub check_vest : (rt : Runtime) → Vest → Result Failure (Unit {0})
check_vest rt a = do
  fail_if (a.vault.key != rt.find_address "VAULT" (a.state.token ∷ [])) invalid_argument
  fail_if (a.owner_token_wallet != rt.associated_token a.state.owner a.state.token) invalid_argument
  fail_if (a.token_program != rt.token_program) invalid_argument
  fail_if (a.transfer_authority != rt.find_address "TRANSFER" []) invalid_seeds

unfoldable pub process_vest :
    (rt : Runtime) → (pn : PreciseNumber) → Vest → ℤ → Action rt.World Failure ContractState
unfolding pay_owner
process_vest rt pn a now =
    Action.◌>>=◌
      (Action.◌>>◌ (lift (check_vest rt a))
        (lift (vested (next_period pn a.state.vest a.vault.amount now))))
      (λ r. Action.◌>>◌ (pay_owner rt a r.0) (pure (record a.state { vest = r.1 })))
