-- ===== src/Human/Schedule.antt =====
-- Vesting over time: calls of `next_period` at any times, with the vault paying what they vest.
use human_program_library.Precise.Portions.{times_mono, times_cancel, quotient-le}
use human_program_library.Precise.{PreciseNumber}
use human_program_library.Base.Int.{ℤ}
use human_program_library.Base.Result.{Result, err, panic, ok, Result-cases}
use human_program_library.Base.{
  ap, ◌∙◌, zero, suc, ◌<◌, refl, ◌⊎◌, List, [], ◌∷◌, ℕ, ◌+◌, ◌-◌, ◌*◌, ◌/◌, ◌≤◌, max, ◌≡◌, inl, inr,
  arith,
}
use human_program_library.Human.Defs.{
  VestState, VestingResult, vest, period_vested, completed, HumanError, vesting_total_parts,
}
use human_program_library.Human.Vest.{elapsed_periods, vest_missed, next_period}

abbrev pub paid_by : VestingResult → ℕ
paid_by (vest n) = n
paid_by period_vested = 0
paid_by completed = 0

-- What a successful call has done, for some number of periods that were due.
record Vests (s : VestState) (supply : ℕ) (result : VestingResult × VestState) : Type 0 where
  due : ℕ
  not_before : s.vested_periods ≤ due
  at_most_all : due ≤ vesting_total_parts
  counted : result.1.vested_periods ≡ due
  deployed : result.1.deployed_at ≡ s.deployed_at
  amount :
      paid_by result.0
      ≡ supply / (vesting_total_parts - s.vested_periods) * (due - s.vested_periods)

elapsed_periods-le :
    (pn : PreciseNumber) (s : VestState) (now : ℤ) (n : ℕ)
    → elapsed_periods pn s now ≡ ok n
    → n ≤ vesting_total_parts
unfolding elapsed_periods
elapsed_periods-le pn s now n e = ground arith

vest_missed_facts :
    (s : VestState) (supply missed : ℕ) (result : VestingResult × VestState)
    → vest_missed s supply missed ≡ ok result
    → (result.1.vested_periods ≡ s.vested_periods + missed)
      × (result.1.deployed_at ≡ s.deployed_at)
      × (paid_by result.0 ≡ supply / (vesting_total_parts - s.vested_periods) * missed)
unfolding vest_missed
vest_missed_facts s supply missed result e = ground arith

next_period-Vests :
    (pn : PreciseNumber) (s : VestState) (supply : ℕ) (now : ℤ) (result : VestingResult × VestState)
    → s.vested_periods ≤ vesting_total_parts
    → next_period pn s supply now ≡ ok result
    → Vests s supply result
unfolding next_period
next_period-Vests pn s supply now result h e = elim (Result-cases (elapsed_periods pn s now)) [
  | inl (n, en) ↦
      let le = elapsed_periods-le pn s now n en in
      record {
        due = max n s.vested_periods;
        not_before = omega arith;
        at_most_all = omega (arith, le);
        counted = ground (arith, le, vest_missed_facts s supply (n - s.vested_periods) result);
        deployed = ground (arith, le, vest_missed_facts s supply (n - s.vested_periods) result);
        amount = ground (arith, le, vest_missed_facts s supply (n - s.vested_periods) result);
      }
  | inr failed ↦ record {
    due = s.vested_periods;
    not_before = omega arith;
    at_most_all = h;
    counted = ground arith;
    deployed = ground arith;
    amount = ground arith;
  }
]

-- The vault holds at least the share of the initial supply for the periods that are not vested.
pub record OnSchedule (initial : ℕ) (s : VestState) (supply : ℕ) : Type 0 where
  pub periods : s.vested_periods ≤ vesting_total_parts
  pub not_ahead : initial * (vesting_total_parts - s.vested_periods) ≤ vesting_total_parts * supply
  pub not_more : supply ≤ initial

zero_or_more : (r : ℕ) → (r ≡ 0) ⊎ (0 < r)
zero_or_more zero = inl refl
zero_or_more (suc r) = inr (omega arith)

distributes : (c x y : ℕ) → c * x + c * y ≡ c * (x + y)
distributes c x y = grind arith

-- A product with a difference and with its subtrahend.
times_parts : (c a b : ℕ) → b ≤ a → c * (a - b) + c * b ≡ c * a
times_parts c a b h =
    let whole : a - b + b ≡ a = omega arith in distributes c (a - b) b ∙ ap (λ (x : ℕ). c * x) whole

-- What is left after `m` of `r` equal parts were paid.
left_over :
    (initial supply r m : ℕ)
    → m ≤ r
    → initial * r ≤ vesting_total_parts * supply
    → (supply / r * m ≤ supply)
      × (initial * (r - m) ≤ vesting_total_parts * (supply - supply / r * m))
left_over initial supply r m h k = elim (zero_or_more r) [
  | inl none_left ↦
      let nothing : supply / r * m ≡ 0 = rw (m_zero none_left) (omega arith) in
      (omega (arith, nothing), ground (arith, nothing))
  | inr more ↦
      let p : ℕ = supply / r in
      let whole : p * r ≤ supply = quotient-le supply r in
      let part : p * m ≤ p * r = grind arith in
      let fits : p * m ≤ supply = omega (arith, whole, part) in
      let by_rest : initial * r * (r - m) ≤ vesting_total_parts * supply * (r - m) =
        times_mono _ _ (r - m) k in
      let by_paid : p * r * m ≤ supply * m = times_mono _ _ m whole in
      let rest : supply * (r - m) + supply * m ≡ supply * r = times_parts supply r m h in
      let taken : r * (supply - p * m) + r * (p * m) ≡ r * supply =
        times_parts r supply (p * m) fits in
      let turned : r * (p * m) ≡ p * r * m = grind arith in
      (fits, times_cancel _ _ r more (omega (arith, by_rest, by_paid, rest, taken, turned)))
]
  where
    m_zero : r ≡ 0 → m ≡ 0
    m_zero e = omega arith

-- A call at some time; a call that fails changes nothing.
abbrev pub pays : VestState × ℕ → Result HumanError (VestingResult × VestState) → VestState × ℕ
pays s (ok r) = (r.1, s.1 - paid_by r.0)
pays s (err e) = s
pays s panic = s

unfoldable pub vest_at : (pn : PreciseNumber) → List ℤ → VestState × ℕ → VestState × ℕ
vest_at pn [] s = s
vest_at pn (now ∷ later) s = vest_at pn later (pays s (next_period pn s.0 s.1 now))

pays-OnSchedule :
    (pn : PreciseNumber) (initial : ℕ) (s : VestState) (supply : ℕ) (now : ℤ)
    → OnSchedule initial s supply
    → (let after = pays (s, supply) (next_period pn s supply now) in
        OnSchedule initial after.0 after.1)
pays-OnSchedule pn initial s supply now h = elim (Result-cases (next_period pn s supply now)) [
  | inl (r, e) ↦
      let v = next_period-Vests pn s supply now r h.periods e in
      let part =
        left_over initial supply (vesting_total_parts - s.vested_periods) (v.due - s.vested_periods)
          (omega (arith, v.at_most_all)) h.not_ahead in
      let same : vesting_total_parts - s.vested_periods - (v.due - s.vested_periods)
          ≡ vesting_total_parts - r.1.vested_periods =
        omega (arith, v.counted, v.not_before, v.at_most_all) in
      let ahead : initial * (vesting_total_parts - r.1.vested_periods)
          ≤ vesting_total_parts * (supply - paid_by r.0) =
        rw (← same, v.amount) part.1 in
      rw e (record {
        periods = omega (arith, v.counted, v.at_most_all);
        not_ahead = ahead;
        not_more = omega (arith, h.not_more);
      })
  | inr (inl (x, e)) ↦ rw e h
  | inr (inr e) ↦ rw e h
]

-- What a vesting pays goes by the periods that it counts as vested: the vault keeps at least the part
-- of the initial supply that belongs to the other periods.
pub vest_at-OnSchedule :
    (pn : PreciseNumber) (initial : ℕ) (times : List ℤ) (s : VestState) (supply : ℕ)
    → OnSchedule initial s supply
    → (let after = vest_at pn times (s, supply) in OnSchedule initial after.0 after.1)
unfolding vest_at
vest_at-OnSchedule pn initial [] s supply h = h
vest_at-OnSchedule pn initial (now ∷ later) s supply h =
    let next = pays (s, supply) (next_period pn s supply now) in
    vest_at-OnSchedule pn initial later next.0 next.1 (pays-OnSchedule pn initial s supply now h)
