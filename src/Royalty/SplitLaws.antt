-- ===== src/Royalty/SplitLaws.antt =====
-- The commissions of a distribution, and the part of it that a voucher gets.
use human_program_library.Precise.Portions.{portion-le}
use human_program_library.Precise.{PreciseNumber, one}
use human_program_library.Base.Int.{ℤ}
use human_program_library.Base.Words.{u64_limit, u32_limit, u16_limit}
use human_program_library.Base.Result.{Result, ok, err}
use human_program_library.Base.{
  ℕ, ◌+◌, ◌-◌, ◌*◌, ◌/◌, ◌≤◌, ◌<◌, ◌≡◌, refl, ◌∙◌, true, ◌&&◌, arith, ltb, leb, if◌then◌else◌,
  le→leb,
}
use human_program_library.Precise.Chain.{to_u64}
use human_program_library.Precise.Rounding.{
  share_of, portion_of, mul_div_bsp, new_small, quotient_int, ratio-le, capped, to_imprecise_rounds,
}
use human_program_library.Royalty.Defs.{Settings, Split, Distribution, Voucher}
use human_program_library.Royalty.Split.{valid, calculate_split, distribute_to}
use human_program_library.Royalty.Distribute.{fixed_settings}

share-le : (amount fee : ℕ) → fee ≤ 10_000 → share_of amount fee ≤ amount
share-le amount fee h = let b : amount * fee ≤ 10_000 * amount = grind arith in omega arith

-- A split never creates or loses lamports: what is to be distributed and the two commissions add
-- up to the balance.
pub commissions_conserve :
    (pn : PreciseNumber) (s : Settings) (balance num_vouchers : ℕ) (split : Split)
    → calculate_split pn s balance num_vouchers ≡ ok split
    → split.distribute_amount + split.owner_comission + split.host_comission ≡ balance
unfolding calculate_split
commissions_conserve pn s balance n split e = ground arith

abbrev pub split_by_shares : Settings → ℕ → ℕ → Result (Unit {0}) Split
split_by_shares s balance n =
    let owner = share_of balance s.owner_fee in
    let host = share_of balance s.host_fee + s.host_flat_fee * n in
    if ltb (s.host_flat_fee * n) u32_limit && leb (owner + host) balance
    then ok (record {
      distribute_amount = balance - (owner + host);
      owner_comission = owner;
      host_comission = host;
    })
    else err tt

pub calculate_split_shares :
    (pn : PreciseNumber) (s : Settings) (balance num_vouchers : ℕ)
    → valid s ≡ true
    → s.owner_fee < u16_limit
    → s.host_fee < u16_limit
    → balance < u64_limit
    → calculate_split pn s balance num_vouchers ≡ split_by_shares s balance num_vouchers
unfolding calculate_split valid
calculate_split_shares pn s balance n v ho hh hb =
    let (bsp, eb, vb) = new_small pn 10_000 (omega arith) in
    let (b, e, vbal) = new_small pn balance hb in
    let (o, eo, vo) = new_small pn s.owner_fee (omega arith) in
    let (h, eh, vh) = new_small pn s.host_fee (omega arith) in
    let fees : s.owner_fee + s.host_fee < 10_000 = ground arith in
    let owner_le = share-le balance s.owner_fee (omega arith) in
    let host_le = share-le balance s.host_fee (omega arith) in
    rw
      (
        eb,
        e,
        eo,
        eh,
        mul_div_bsp pn b o bsp balance s.owner_fee vbal vo vb hb (omega arith),
        mul_div_bsp pn b h bsp balance s.host_fee vbal vh vb hb (omega arith),
      )
      (ground arith)

-- Under the settings that the code fixes a split never fails: the host takes two and a half percent
-- of the balance, rounded half up, and the owner nothing.
pub fixed_settings_split :
    (pn : PreciseNumber) (balance num_vouchers : ℕ)
    → balance < u64_limit
    → calculate_split pn fixed_settings balance num_vouchers
      ≡ ok (record {
        distribute_amount = balance - share_of balance 250;
        owner_comission = 0;
        host_comission = share_of balance 250;
      })
unfolding valid
fixed_settings_split pn balance n h =
    calculate_split_shares pn fixed_settings balance n refl (omega arith) (omega arith) h
    ∙ ground (arith, share-le balance 250 (omega arith))

-- What `distribute_to` leaves: the voucher was of this drop and belongs to the next one, and it has
-- been counted.
pub distribute_to_leaves :
    (pn : PreciseNumber) (d d' : Distribution) (v v' : Voucher) (idx total n : ℕ) (now : ℤ)
    → distribute_to pn d v idx total now ≡ ok (n, d', v')
    → (v.drop_idx ≡ idx)
      × (v'.drop_idx ≡ idx + 1)
      × (v'.balance ≡ v.balance)
      × (v'.state ≡ v.state)
      × (d'.seen_vouchers ≡ d.seen_vouchers + 1)
      × (d'.distribute_amount ≡ d.distribute_amount)
unfolding distribute_to
distribute_to_leaves pn d d' v v' idx total n now e = ground arith

-- A voucher of the current drop, with no more tokens than there are in all, which are some, is
-- paid its part of the amount, where no counter leaves its range: its tokens over all tokens, cut
-- off at 12 decimals, of the amount, rounded half up.
pub distribute_to_pays :
    (pn : PreciseNumber) (d : Distribution) (v : Voucher) (idx total : ℕ) (now : ℤ)
    → v.drop_idx ≡ idx
    → v.balance ≤ total
    → 0 < total
    → total < u64_limit
    → d.distribute_amount < u64_limit
    → d.seen_vouchers + 1 < u32_limit
    → idx + 1 < u32_limit
    → distribute_to pn d v idx total now
      ≡ ok (
        portion_of v.balance total d.distribute_amount,
        record d { seen_vouchers = d.seen_vouchers + 1 },
        record v { drop_idx = idx + 1; last_distribution = now },
      )
unfolding distribute_to to_u64
distribute_to_pays pn d v idx total now same le pos_total ht ha hs hi =
    let (b, eb, vb) = new_small pn v.balance (omega arith) in
    let (t, et, vt) = new_small pn total ht in
    let (a, ea, va) = new_small pn d.distribute_amount ha in
    let (w, ew, vw) = new_small pn 1 (omega arith) in
    let (q, eq, qlo, qhi) = pn.div_lem b t (rw vt (omega arith)) (rw vb (omega arith)) in
    let vq : pn.value q ≡ v.balance * one / total =
      quotient_int (pn.value b) (pn.value t) (pn.value q) v.balance total vb vt (omega arith) qlo
        qhi in
    let bound = ratio-le v.balance total (omega arith) le in
    let small = capped (v.balance * one / total) d.distribute_amount bound ha in
    let below : pn.less_than_or_equal q w ≡ true =
      pn.le_lem q w ∙ le→leb _ _ (omega (arith, vq, vw, bound)) in
    let swapped : pn.value a * pn.value q ≡ v.balance * one / total * d.distribute_amount * one =
      rw (va, vq) (grind arith) in
    let (p, ep, plo, phi) = pn.mul_lem a q (omega (arith, swapped, small)) in
    let vp : pn.value p ≡ v.balance * one / total * d.distribute_amount = omega (arith, swapped) in
    rw (eb, et, ea, eq, ew, below, ep, to_imprecise_rounds pn p (rw vp (omega (arith, small))), vp)
      (ground (arith, portion-le v.balance total d.distribute_amount pos_total le))
