-- ===== src/Human/StateLaws.antt =====
-- What the splits, the drops and the time windows of posts come to.
use human_program_library.Precise.Rounding.{share_of, mul_div_bsp, new_small}
use human_program_library.Precise.{PreciseNumber}
use human_program_library.Base.Int.{◌-ℤ◌, pos, i64_limit, checked_sub_i64}
use human_program_library.Base.Words.{u64_limit}
use human_program_library.Base.Result.{ok}
use human_program_library.Base.{ℕ, ◌+◌, ◌-◌, ◌≤◌, ◌<◌, ◌≡◌, refl, true, some, arith}
use human_program_library.Human.State.{
  BuySplit, PostInfo, RepostRecord, buy_commission, treasury_commission,
  calculate_split_by_lamports, can_repost, can_redeem, is_thursday,
}

-- Every payment of a 64-bit number of lamports can be split: a tenth goes to the commission and
-- eight tenths to the treasury, each rounded half up, and the owner gets the rest; no lamport is
-- lost.
pub lamports_split :
    (pn : PreciseNumber) (lamports : ℕ)
    → lamports < u64_limit
    → (split : BuySplit) × (calculate_split_by_lamports pn lamports ≡ some split)
      × (split.commission ≡ share_of lamports buy_commission)
      × (split.treasury_split ≡ share_of lamports treasury_commission)
      × (split.owner_split + split.commission + split.treasury_split ≡ lamports)
unfolding calculate_split_by_lamports
lamports_split pn lamports h =
    let (l, el, vl) = new_small pn lamports h in
    let (b, eb, vb) = new_small pn 10_000 (omega arith) in
    let (c, ec, vc) = new_small pn buy_commission (omega arith) in
    let (t, et, vt) = new_small pn treasury_commission (omega arith) in
    let commission : ℕ = share_of lamports buy_commission in
    let treasury : ℕ = share_of lamports treasury_commission in
    (
      record {
        owner_split = lamports - commission - treasury;
        commission = commission;
        treasury_split = treasury;
        token_commission = 0;
      },
      rw
          (
            el,
            eb,
            ec,
            et,
            mul_div_bsp pn l c b lamports buy_commission vl vc vb h (omega arith),
            mul_div_bsp pn l t b lamports treasury_commission vl vt vb h (omega arith),
          )
          (ground arith),
      refl,
      refl,
      omega arith,
    )

-- A post that was made after the epoch can be reposted at any time after it was made: the window
-- of a day never closes, since the time that has passed is taken with the wrong sign.
pub repost_never_expires :
    (p : PostInfo) (created now : ℕ)
    → p.created_at ≡ pos created
    → created ≤ now
    → now < i64_limit
    → can_repost p (pos now) ≡ true
unfolding can_repost checked_sub_i64 ◌-ℤ◌
repost_never_expires p created now e le h = ground arith

-- A repost is redeemed without a cooldown: from its time on, which is after the epoch, whether it
-- can be depends on the day of the week alone.
pub redeem_ignores_cooldown :
    (r : RepostRecord) (reposted now : ℕ)
    → r.reposted_at ≡ pos reposted
    → reposted ≤ now
    → now < i64_limit
    → 345_600 ≤ now
    → can_redeem r (pos now) ≡ ok (is_thursday (pos (now - 345_600)))
unfolding can_redeem checked_sub_i64 ◌-ℤ◌
redeem_ignores_cooldown r reposted now e le h later = ground arith
