-- ===== src/Human/VestLaws.antt =====
-- What the vesting pays, and that it keeps to its schedule.
use human_program_library.Precise.Portions.{quotient-le}
use human_program_library.Precise.{PreciseNumber, one}
use human_program_library.Base.Int.{ℤ, pos, checked_sub_i64}
use human_program_library.Base.Words.{u64_limit}
use human_program_library.Base.Result.{ok}
use human_program_library.Base.{
  ◌+◌, ◌-◌, ◌≤◌, leb, ◌==◌, if◌then◌else◌, ℕ, ◌*◌, ◌/◌, ◌<◌, min, ◌≡◌, ap, ◌∙◌, some, arith,
}
use native.Mathlib.Nat.{div-add-mod, mod-lt}
use human_program_library.Precise.Rounding.{new_small, quotient_int, to_imprecise_rounds}
use human_program_library.Human.Defs.{
  VestState, VestingResult, vest, period_vested, completed, vesting_total_parts,
  vesting_part_length,
}
use human_program_library.Human.Vest.{elapsed_periods, vest_missed, next_period}

floor_quotient : (n : ℕ) → n * one / vesting_part_length / one ≡ n / vesting_part_length
floor_quotient n = omega arith

-- The full periods between the deployment and a time after it, at most all of them.
elapsed_periods_lem :
    (pn : PreciseNumber) (s : VestState) (now : ℤ) (seconds : ℕ)
    → checked_sub_i64 now s.deployed_at ≡ some (pos seconds)
    → seconds < u64_limit
    → elapsed_periods pn s now ≡ ok (min (seconds / vesting_part_length) vesting_total_parts)
unfolding elapsed_periods
elapsed_periods_lem pn s now seconds e small =
    let (a, ea, va) = new_small pn seconds small in
    let (l, el, vl) = new_small pn vesting_part_length (omega arith) in
    let (q, eq, lo, hi) = pn.div_lem a l (rw vl (omega arith)) (rw va (omega arith)) in
    let vq : pn.value q ≡ seconds * one / vesting_part_length =
      quotient_int (pn.value a) (pn.value l) (pn.value q) seconds vesting_part_length va vl
        (omega arith) lo hi in
    let (f, ef, vf) = pn.floor_lem q in
    let vf' : pn.value f ≡ seconds / vesting_part_length * one =
      vf ∙ ap (λ (v : ℕ). v / one * one) vq ∙ ap (λ (v : ℕ). v * one) (floor_quotient seconds) in
    rw (e, ea, el, eq, ef, to_imprecise_rounds pn f (rw vf' (omega arith)), vf') (ground arith)

-- What is due after so many periods: nothing once all are vested or none was missed, and otherwise
-- the missed ones of the equal parts of what the vault holds.
abbrev pub scheduled : VestState → ℕ → ℕ → VestingResult × VestState
scheduled s supply due =
    if s.vested_periods == vesting_total_parts
    then (completed, s)
    else if leb due s.vested_periods
    then (period_vested, s)
    else (
      vest (supply / (vesting_total_parts - s.vested_periods) * (due - s.vested_periods)),
      record s { vested_periods = due },
    )

part-le : (supply r m : ℕ) → m ≤ r → supply / r * m ≤ supply
part-le supply r m h =
    let a : supply / r * m ≤ supply / r * r = grind arith in omega (arith, a, quotient-le supply r)

vest_missed_lem :
    (s : VestState) (supply due : ℕ)
    → supply < u64_limit
    → s.vested_periods < vesting_total_parts
    → s.vested_periods ≤ due
    → due ≤ vesting_total_parts
    → vest_missed s supply (due - s.vested_periods)
      ≡ ok (
        vest (supply / (vesting_total_parts - s.vested_periods) * (due - s.vested_periods)),
        record s { vested_periods = due },
      )
unfolding vest_missed
vest_missed_lem s supply due hs hv ha hd =
    ground (arith, part-le supply (vesting_total_parts - s.vested_periods) (due - s.vested_periods))

-- At any time from the deployment on, for a 64-bit supply and no more periods vested than there
-- are, `next_period` follows the schedule of the periods that have passed in full.
pub next_period_schedule :
    (pn : PreciseNumber) (s : VestState) (supply seconds : ℕ) (now : ℤ)
    → s.vested_periods ≤ vesting_total_parts
    → supply < u64_limit
    → seconds < u64_limit
    → checked_sub_i64 now s.deployed_at ≡ some (pos seconds)
    → next_period pn s supply now
      ≡ ok (scheduled s supply (min (seconds / vesting_part_length) vesting_total_parts))
unfolding next_period
next_period_schedule pn s supply seconds now hv hs hn e =
    let due : ℕ = min (seconds / vesting_part_length) vesting_total_parts in
    ground (arith, elapsed_periods_lem pn s now seconds e hn, vest_missed_lem s supply due)

-- Once all periods have passed since the deployment and some are not vested, one call completes
-- the vesting of a 64-bit supply; it pays no more than the vault holds and leaves less in it than
-- there were periods to vest.
pub vesting_completes :
    (pn : PreciseNumber) (s : VestState) (supply seconds : ℕ) (now : ℤ)
    → s.vested_periods < vesting_total_parts
    → supply < u64_limit
    → seconds < u64_limit
    → checked_sub_i64 now s.deployed_at ≡ some (pos seconds)
    → vesting_part_length * vesting_total_parts ≤ seconds
    → (amount : ℕ) × (next_period pn s supply now
        ≡ ok (vest amount, record s { vested_periods = vesting_total_parts }))
      × (amount ≤ supply)
      × (supply < amount + (vesting_total_parts - s.vested_periods))
vesting_completes pn s supply seconds now hv hs hn e late =
    let r : ℕ = vesting_total_parts - s.vested_periods in
    let some_left : 0 < r = omega arith in
    let all : min (seconds / vesting_part_length) vesting_total_parts ≡ vesting_total_parts =
      omega arith in
    (
      supply / r * r,
      next_period_schedule pn s supply seconds now (omega arith) hs hn e ∙ rw all (ground arith),
      quotient-le supply r,
      omega (arith, div-add-mod supply r, mod-lt supply some_left),
    )
