-- ===== src/Human/Timely.antt =====
-- Calls of `next_period` (human/src/vest.rs) over time, against the periods that have passed.
use human_program_library.Precise.Portions.{times_mono}
use human_program_library.Precise.{PreciseNumber}
use human_program_library.Base.Words.{u64_limit}
use human_program_library.Base.Int.{ℤ, pos, checked_sub_i64}
use human_program_library.Base.{
  sym, subst, some, min, List, [], ◌∷◌, ℕ, ◌-◌, ◌*◌, ◌/◌, ◌≤◌, ◌<◌, ◌≡◌, arith,
}
use human_program_library.Human.Defs.{VestState, vesting_total_parts, vesting_part_length}
use human_program_library.Human.Vest.{next_period}
use human_program_library.Human.VestLaws.{next_period_schedule}
use human_program_library.Human.Schedule.{OnSchedule, pays, vest_at, vest_at-OnSchedule}

-- Every time is at or after the deployment, by at most so many seconds.
unfoldable pub NotAfter : ℤ → ℕ → List ℤ → Type 0
NotAfter deployed latest [] = Unit
NotAfter deployed latest (now ∷ later) =
    (seconds : ℕ) × (checked_sub_i64 now deployed ≡ some (pos seconds))
    × (seconds ≤ latest)
    × NotAfter deployed latest later

next_period-NotAhead :
    (pn : PreciseNumber) (s : VestState) (supply seconds latest : ℕ) (now : ℤ)
    → s.vested_periods ≤ min (latest / vesting_part_length) vesting_total_parts
    → supply < u64_limit
    → latest < u64_limit
    → checked_sub_i64 now s.deployed_at ≡ some (pos seconds)
    → seconds ≤ latest
    → (let after = pays (s, supply) (next_period pn s supply now) in
        (after.0.vested_periods ≤ min (latest / vesting_part_length) vesting_total_parts)
        × (after.0.deployed_at ≡ s.deployed_at)
        × (after.1 ≤ supply))
next_period-NotAhead pn s supply seconds latest now ahead hs hl e before =
    let due : ℕ = min (seconds / vesting_part_length) vesting_total_parts in
    let sooner : due ≤ min (latest / vesting_part_length) vesting_total_parts = omega arith in
    rw (next_period_schedule pn s supply seconds now (omega arith) hs (omega arith) e)
      (ground (arith, sooner), ground arith, ground arith)

vest_at-NotAhead :
    (pn : PreciseNumber) (latest : ℕ) (times : List ℤ) (s : VestState) (supply : ℕ)
    → s.vested_periods ≤ min (latest / vesting_part_length) vesting_total_parts
    → supply < u64_limit
    → latest < u64_limit
    → NotAfter s.deployed_at latest times
    → (let after = vest_at pn times (s, supply) in
        after.0.vested_periods ≤ min (latest / vesting_part_length) vesting_total_parts)
unfolding vest_at NotAfter
vest_at-NotAhead pn latest [] s supply ahead hs hl times = ahead
vest_at-NotAhead pn latest (now ∷ later) s supply ahead hs hl (seconds, e, before, times) =
    let next = pays (s, supply) (next_period pn s supply now) in
    let (ahead', same, fewer) =
      next_period-NotAhead pn s supply seconds latest now ahead hs hl e before in
    vest_at-NotAhead pn latest later next.0 next.1 ahead' (omega (arith, fewer)) hl
      (subst (λ d. NotAfter d latest later) (sym same) times)

-- The vesting is never ahead of the time: where the vault holds at least the share of a 64-bit
-- initial supply for the periods that are not vested, and no more periods are vested than have passed
-- in full by a latest time, a 64-bit number of seconds after the deployment, calls of `next_period` at
-- any times from the deployment to that time, in any order, leave at least the share of the periods
-- that have not passed by then.
pub vest_at_in_time :
    (pn : PreciseNumber) (initial latest : ℕ) (times : List ℤ) (s : VestState) (supply : ℕ)
    → OnSchedule initial s supply
    → initial < u64_limit
    → latest < u64_limit
    → s.vested_periods ≤ min (latest / vesting_part_length) vesting_total_parts
    → NotAfter s.deployed_at latest times
    → initial * (vesting_total_parts - latest / vesting_part_length)
      ≤ vesting_total_parts * (vest_at pn times (s, supply)).1
vest_at_in_time pn initial latest times s supply sound hi hl ahead within =
    let after = vest_at pn times (s, supply) in
    let at_most =
      vest_at-NotAhead pn latest times s supply ahead (omega (arith, sound.not_more)) hl within in
    let kept = (vest_at-OnSchedule pn initial times s supply sound).not_ahead in
    let fewer : vesting_total_parts - latest / vesting_part_length
        ≤ vesting_total_parts - after.0.vested_periods =
      omega (arith, at_most) in
    let more =
      times_mono (vesting_total_parts - latest / vesting_part_length)
        (vesting_total_parts - after.0.vested_periods) initial fewer in
    grind (arith, kept, more)
