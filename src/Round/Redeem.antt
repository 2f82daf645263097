-- ===== src/Round/Redeem.antt =====
-- `calculate_redeem_amount` (round/src/state.rs), and what it guarantees.
use human_program_library.Precise.Portions.{
  portions, portions_bounded, portion_above, portion_below, portion-le,
}
use human_program_library.Base.Lists.{length, sum}
use human_program_library.Precise.Rounding.{portion_of, div_mul_portion, new_small}
use human_program_library.Precise.{one, PreciseNumber}
use human_program_library.Base.Words.{fit_lem, fit, u64_limit}
use human_program_library.Base.{
  refl, ◌∙◌, some, ◌+◌, ◌*◌, List, [], ◌∷◌, ℕ, ◌≤◌, ◌<◌, max, ◌≡◌, Option, arith,
}
use human_program_library.Precise.Chain.{div_mul, ◌>>=◌}

unfoldable pub calculate_redeem_amount : (pn : PreciseNumber) → ℕ → ℕ → ℕ → ℕ → Option ℕ
calculate_redeem_amount pn target_bid bid_balance user_bid total_offer = do
  let bid = max target_bid bid_balance
  target ← pn.new bid
  user ← pn.new user_bid
  total ← pn.new total_offer
  div_mul pn user target total

-- The amount is the user's part of the bid, cut off at 12 decimals, of the offer, rounded half up.
pub calculate_redeem_amount_lem :
    (pn : PreciseNumber) (target_bid bid_balance user_bid total_offer : ℕ)
    → target_bid < u64_limit
    → bid_balance < u64_limit
    → total_offer < u64_limit
    → user_bid ≤ bid_balance
    → 0 < bid_balance
    → calculate_redeem_amount pn target_bid bid_balance user_bid total_offer
      ≡ fit u64_limit (portion_of user_bid (max target_bid bid_balance) total_offer)
unfolding calculate_redeem_amount
calculate_redeem_amount_lem pn target balance user offer ht hb ho le hp =
    let bid : ℕ = max target balance in
    let (t, et, vt) = new_small pn bid (omega arith) in
    let (u, eu, vu) = new_small pn user (omega arith) in
    let (o, eo, vo) = new_small pn offer ho in
    rw (et, eu, eo)
      (div_mul_portion pn u t o user bid offer vu vt vo (omega arith) (omega arith) ho
        (omega arith))

-- Every bid of at most the bid balance is redeemed, for its part of the larger of the target and
-- the balance: at most half a unit above the exact part of the offer, and below it by no more than
-- half a unit and a 10^-12 of the offer.
pub redeem_accurate :
    (pn : PreciseNumber) (target_bid bid_balance user_bid total_offer : ℕ)
    → target_bid < u64_limit
    → bid_balance < u64_limit
    → total_offer < u64_limit
    → user_bid ≤ bid_balance
    → 0 < bid_balance
    → let bid = max target_bid bid_balance in
      (amount : ℕ) × (calculate_redeem_amount pn target_bid bid_balance user_bid total_offer
        ≡ some amount)
      × (amount ≤ total_offer)
      × (2 * (amount * bid) ≤ 2 * (user_bid * total_offer) + bid)
      × (2 * (user_bid * total_offer) * one
          ≤ (2 * (amount * bid) + bid) * one + 2 * (bid * total_offer))
redeem_accurate pn target balance user offer ht hb ho le p =
    let bid : ℕ = max target balance in
    let top : portion_of user bid offer ≤ offer =
      portion-le user bid offer (omega arith) (omega arith) in
    (
      portion_of user bid offer,
      calculate_redeem_amount_lem pn target balance user offer ht hb ho le p
          ∙ fit_lem u64_limit (portion_of user bid offer) (omega arith),
      top,
      portion_above user bid offer,
      portion_below user bid offer (omega arith),
    )

-- The calls of `calculate_redeem_amount` for the vouchers of a round, and the sum of the amounts.
unfoldable pub redeem_all : (pn : PreciseNumber) → ℕ → ℕ → ℕ → List ℕ → Option ℕ
redeem_all pn target balance offer [] = some 0
redeem_all pn target balance offer (u ∷ us) = do
  amount ← calculate_redeem_amount pn target balance u offer
  rest ← redeem_all pn target balance offer us
  some (amount + rest)

redeem_all-portions :
    (pn : PreciseNumber) (target balance offer : ℕ) (us : List ℕ)
    → target < u64_limit
    → balance < u64_limit
    → offer < u64_limit
    → 0 < balance
    → sum us ≤ balance
    → redeem_all pn target balance offer us ≡ some (portions (max target balance) offer us)
unfolding redeem_all
redeem_all-portions pn target balance offer [] ht hb ho p s = refl
redeem_all-portions pn target balance offer (u ∷ us) ht hb ho p s =
    let (amount, e, top, _, _) =
      redeem_accurate pn target balance u offer ht hb ho (omega arith) p in
    let same = calculate_redeem_amount_lem pn target balance u offer ht hb ho (omega arith) p in
    rw
      (
        same,
        fit_lem u64_limit (portion_of u (max target balance) offer)
            (omega (arith, portion-le u (max target balance) offer (omega arith) (omega arith))),
      )
      (rw (redeem_all-portions pn target balance offer us ht hb ho p (omega arith)) refl)

-- When the bids of the vouchers add up to at most the bid balance, which is not zero, and all are
-- 64-bit numbers, every one of them is redeemed, and the amounts together exceed the offer by no
-- more than half a unit for each voucher.
pub redeem_all_bounded :
    (pn : PreciseNumber) (target balance offer : ℕ) (us : List ℕ)
    → target < u64_limit
    → balance < u64_limit
    → offer < u64_limit
    → 0 < balance
    → sum us ≤ balance
    → (total : ℕ) × (redeem_all pn target balance offer us ≡ some total)
      × (2 * total ≤ 2 * offer + length us)
redeem_all_bounded pn target balance offer us ht hb ho p s = (
  portions (max target balance) offer us,
  redeem_all-portions pn target balance offer us ht hb ho p s,
  portions_bounded (max target balance) offer us (omega arith) (omega arith),
)
