-- ===== src/Precise/Portions.antt =====
-- Portions of a total: how far they are from the exact parts, one by one and together.
use human_program_library.Precise.Rounding.{portion_of}
use human_program_library.Precise.{one}
use human_program_library.Base.Lists.{length, sum}
use human_program_library.Base.{ℕ, ◌+◌, ◌*◌, ◌/◌, ◌≤◌, ◌<◌, List, [], ◌∷◌, arith}
use native.Mathlib.Nat.{div-add-mod}

-- What all parts together are paid.
abbrev pub portions : ℕ → ℕ → List ℕ → ℕ
portions bid offer [] = 0
portions bid offer (u ∷ us) = portion_of u bid offer + portions bid offer us

pub times_mono : (a b k : ℕ) → a ≤ b → a * k ≤ b * k
times_mono a b k h = grind arith

pub times_cancel : (a b k : ℕ) → 0 < k → a * k ≤ b * k → a ≤ b
times_cancel a b k p h = grind arith

pub quotient-le : (n k : ℕ) → n / k * k ≤ n
quotient-le n k = omega (arith, div-add-mod n k)

quotient-ge : (n k : ℕ) → 0 < k → n ≤ n / k * k + k
quotient-ge n k p = grind (arith, div-add-mod n k)

-- A cut-off quotient times the divisor does not exceed the dividend.
pub portion_above : (u bid offer : ℕ) → 2 * (portion_of u bid offer * bid) ≤ 2 * (u * offer) + bid
portion_above u bid offer =
    let q : ℕ = u * one / bid in
    let paid : ℕ = portion_of u bid offer in
    let a : q * bid * offer ≤ u * one * offer = times_mono _ _ offer (quotient-le (u * one) bid) in
    let b : paid * one * bid ≤ (q * offer + 500_000_000_000) * bid =
      times_mono _ _ bid (quotient-le (q * offer + 500_000_000_000) one) in
    omega arith

portions_above :
    (bid offer : ℕ) (us : List ℕ)
    → 2 * (portions bid offer us * bid) ≤ 2 * (sum us * offer) + length us * bid
portions_above bid offer [] = omega arith
portions_above bid offer (u ∷ us) =
    omega (arith, portion_above u bid offer, portions_above bid offer us)

-- It exceeds the offer by less than half a unit for each.
pub portions_bounded :
    (bid offer : ℕ) (us : List ℕ)
    → 0 < bid
    → sum us ≤ bid
    → 2 * portions bid offer us ≤ 2 * offer + length us
portions_bounded bid offer us p h =
    times_cancel _ _ bid p
      (omega (arith, portions_above bid offer us, times_mono (sum us) bid offer h))

pub portion_below :
    (u bid offer : ℕ)
    → 0 < bid
    → 2 * (u * offer) * one ≤ (2 * (portion_of u bid offer * bid) + bid) * one + 2 * (bid * offer)
portion_below u bid offer p =
    let q : ℕ = u * one / bid in
    let paid : ℕ = portion_of u bid offer in
    let a : u * one * offer ≤ (q * bid + bid) * offer =
      times_mono _ _ offer (quotient-ge (u * one) bid p) in
    let b : (q * offer + 500_000_000_000) * bid ≤ (paid * one + one) * bid =
      times_mono _ _ bid (quotient-ge (q * offer + 500_000_000_000) one (omega arith)) in
    omega arith

pub portion-le : (u bid offer : ℕ) → 0 < bid → u ≤ bid → portion_of u bid offer ≤ offer
portion-le u bid offer p le =
    let q : ℕ = u * one / bid in
    let a : q ≤ one = times_cancel q one bid p (omega (arith, quotient-le (u * one) bid)) in
    omega (arith, times_mono q one offer a)
