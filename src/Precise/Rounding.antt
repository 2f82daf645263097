-- ===== src/Precise/Rounding.antt =====
-- What the chains compute: exact products, a quotient of a product rounded half up, and the
-- accuracy of a quotient that is multiplied.
use human_program_library.Base.{ℕ, ◌+◌, ◌*◌, ◌/◌, ◌≤◌, ◌<◌, ◌≡◌, ◌≢◌, ◌∙◌, ap, some, arith}
use human_program_library.Base.Words.{fit, u64_limit}
use human_program_library.Precise.{PreciseNumber, one, u128_limit}
use human_program_library.Precise.Chain.{to_u64, mul_div, div_mul}

-- A share of `fee` basis points, rounded half up.
abbrev pub share_of : ℕ → ℕ → ℕ
share_of amount fee = (amount * fee + 5_000) / 10_000

-- `part / whole * total`: the quotient is cut off at 12 decimals, the product rounded half up.
abbrev pub portion_of : ℕ → ℕ → ℕ → ℕ
portion_of part whole total = (part * one / whole * total + 500_000_000_000) / one

product-lt : (m n : ℕ) → m < u64_limit → n < u64_limit → m * n < u128_limit
product-lt m n hm hn = grind arith

-- The rounded quotient of the crate, with its half-unit absorbed, is the truncated one.
truncated : (q t k : ℕ) → t ≢ 0 → 2 * (q * t) ≤ 2 * k + 1 → k < (q + 1) * t → q ≡ k / t
truncated q t k ht h l = grind arith

quotient_bsp :
    (p q b k : ℕ)
    → p ≡ k * one
    → b ≡ 10_000 * one
    → 2 * (q * b) ≤ 2 * (p * one) + one
    → p * one < (q + 1) * b
    → q ≡ k * 100_000_000
quotient_bsp p q b k hp hb lo hi = omega (arith, ap (λ (t : ℕ). q * t) hb)

pub quotient_int :
    (a b q part whole : ℕ)
    → a ≡ part * one
    → b ≡ whole * one
    → whole ≢ 0
    → 2 * (q * b) ≤ 2 * (a * one) + one
    → a * one < (q + 1) * b
    → q ≡ part * one / whole
quotient_int a b q part whole ha hb hw lo hi =
    let eb : q * b ≡ q * whole * one = rw hb (omega arith) in
    truncated q whole (part * one) hw (omega arith) (omega arith)

pub product_int :
    (a b p m n : ℕ)
    → a ≡ m
    → b ≡ n * one
    → 2 * (p * one) ≤ 2 * (a * b) + one
    → 2 * (a * b) < 2 * (p * one) + one
    → p ≡ m * n
product_int a b p m n ha hb lo hi =
    let e : a * b ≡ m * n * one = rw (ha, hb) (omega arith) in omega arith

pub ratio-le : (part whole : ℕ) → whole ≢ 0 → part ≤ whole → part * one / whole ≤ one
ratio-le part whole h le = grind arith

pub capped : (q n : ℕ) → q ≤ one → n < u64_limit → q * n ≤ one * n
capped q n h l = grind arith

module _ (pn : PreciseNumber) where
  pub new_small :
      (n : ℕ) → n < u64_limit → (c : pn.Num) × (pn.new n ≡ some c) × (pn.value c ≡ n * one)
  new_small n h = pn.new_lem n (omega arith)

  -- A product of two integers is exact.
  pub mul_exact :
      (a b : pn.Num) (m n : ℕ)
      → pn.value a ≡ m * one
      → pn.value b ≡ n * one
      → m < u64_limit
      → n < u64_limit
      → (c : pn.Num) × (pn.mul a b ≡ some c) × (pn.value c ≡ m * n * one)
  mul_exact a b m n ha hb hm hn =
      let (c, e, lo, hi) = pn.mul_lem a b (rw (ha, hb) (omega (arith, product-lt m n hm hn))) in
      (c, e, omega (arith, exact c lo hi))
    where
      scaled : pn.value a * pn.value b ≡ m * n * one * one
      scaled = rw (ha, hb) (omega arith)

      exact :
          (c : pn.Num)
          → 2 * (pn.value c * one) ≤ 2 * (pn.value a * pn.value b) + one
          → 2 * (pn.value a * pn.value b) < 2 * (pn.value c * one) + one
          → pn.value c ≡ m * n * one
      exact c lo hi = omega (arith, scaled)

  -- A number of 10^-12 units below the range of 128-bit integers is rounded half up.
  pub to_imprecise_rounds :
      (a : pn.Num)
      → pn.value a + one < u128_limit * one
      → pn.to_imprecise a ≡ some ((pn.value a + 500_000_000_000) / one)
  to_imprecise_rounds a h =
      let (n, e, lo, hi) = pn.to_imprecise_lem a h in e ∙ ap some (omega arith)

  -- A share in basis points is exact up to the final rounding.
  pub mul_div_bsp :
      (a b bsp : pn.Num) (m n : ℕ)
      → pn.value a ≡ m * one
      → pn.value b ≡ n * one
      → pn.value bsp ≡ 10_000 * one
      → m < u64_limit
      → n < u64_limit
      → mul_div pn a b bsp ≡ fit u64_limit (share_of m n)
  unfolding mul_div to_u64
  mul_div_bsp a b bsp m n ha hb hz hm hn =
      let (p, ep, vp) = mul_exact a b m n ha hb hm hn in
      let (q, eq, lo, hi) =
        pn.div_lem p bsp (rw hz (omega arith)) (rw vp (omega (arith, product-lt m n hm hn))) in
      let vq : pn.value q ≡ m * n * 100_000_000 =
        quotient_bsp (pn.value p) (pn.value q) (pn.value bsp) (m * n) vp hz lo hi in
      rw (ep, eq, to_imprecise_rounds q (rw vq (omega (arith, product-lt m n hm hn))), vq)
        (ap (fit u64_limit) (omega arith))

  -- A quotient of integers is cut off at 12 decimals, and its product with an integer is exact.
  pub div_mul_portion :
      (a b c : pn.Num) (part whole total : ℕ)
      → pn.value a ≡ part * one
      → pn.value b ≡ whole * one
      → pn.value c ≡ total * one
      → part < u64_limit
      → whole ≢ 0
      → total < u64_limit
      → part ≤ whole
      → div_mul pn a b c ≡ fit u64_limit (portion_of part whole total)
  unfolding div_mul to_u64
  div_mul_portion a b c part whole total ha hb hc hp hw ht le =
      let (q, eq, qlo, qhi) = pn.div_lem a b (rw hb (omega arith)) (rw ha (omega arith)) in
      let vq : pn.value q ≡ part * one / whole =
        quotient_int (pn.value a) (pn.value b) (pn.value q) part whole ha hb hw qlo qhi in
      let bound = ratio-le part whole hw le in
      let small = capped (part * one / whole) total bound ht in
      let (p, ep, plo, phi) = pn.mul_lem q c (rw (vq, hc) (omega (arith, small))) in
      let vp : pn.value p ≡ part * one / whole * total =
        product_int (pn.value q) (pn.value c) (pn.value p) (part * one / whole) total vq hc plo
          phi in
      rw (eq, ep, to_imprecise_rounds p (rw vp (omega (arith, small))), vp)
