-- ===== src/Fanout/SplitLaws.antt =====
-- What `calculate_split` computes, and how exact the shares are.
use human_program_library.Base.Words.{fit_lem, u64_limit}
use human_program_library.Precise.{one, PreciseNumber}
use human_program_library.Base.Lists.{
  IsDistinct-middle, IsDistinct-regroup, length, IsDistinct, sum, contains,
}
use human_program_library.Base.Result.{ok-injective, err, ok, panic}
use human_program_library.Precise.Rounding.{mul_div_bsp, new_small, share_of}
use mathlib.Core.List.{append_assoc, append-nil}
use human_program_library.Base.{
  subst, leb→le, Bool-cases, le→leb, ==_refl, ℕ, ◌+◌, ◌-◌, ◌*◌, ◌≤◌, ◌<◌, ◌≡◌, refl, sym, ap, ◌∙◌,
  inl, inr, false, some, List, [], ◌∷◌, ◌++◌, Pubkey, arith, leb, if◌then◌else◌,
}
use human_program_library.Base.Int.{pos, ◌+ℤ◌, fit_i64, checked_add_i64, sub_ℕ, ◌-ℤ◌, i64_limit}
use human_program_library.Fanout.Defs.{Member, Fanout}
use human_program_library.Fanout.InitLaws.{IsValidMembers, SharesInRange, total_shares}
use human_program_library.Fanout.Split.{
  is_zero, as_i64, Shares, insert, keys, values, Fallible, insert_shares, fix_first,
  calculate_split,
}

abbrev pub addresses : List Member → List Pubkey
addresses [] = []
addresses (m ∷ ms) = m.address ∷ addresses ms

-- Each member with its share of the amount, rounded half up.
abbrev pub rounded : ℕ → List Member → Shares
rounded amount [] = []
rounded amount (m ∷ ms) = (m.address, share_of m.share amount) ∷ rounded amount ms

-- The members but the first get their rounded shares, and the first one what is left, if these
-- do not exceed the amount.
abbrev pub settled : ℕ → List Member → Fallible Shares
settled amount [] = panic
settled amount (m ∷ ms) =
    let others = sum (values (rounded amount ms)) in
    if leb others amount then ok ((m.address, amount - others) ∷ rounded amount ms) else err tt

insert_new : (k v : ℕ) (m : Shares) → contains k (keys m) ≡ false → insert k v m ≡ m ++ (k, v) ∷ []
insert_new k v [] h = refl
insert_new k v (e ∷ m) h = ground (arith, insert_new k v m)

keys-append : (xs ys : Shares) → keys (xs ++ ys) ≡ keys xs ++ keys ys
keys-append [] ys = refl
keys-append (x ∷ xs) ys = ap (λ r. x.0 ∷ r) (keys-append xs ys)

share-le : (share amount : ℕ) → share ≤ 10_000 → share_of share amount ≤ amount
share-le share amount h = let b : share * amount ≤ 10_000 * amount = grind arith in omega arith

module _ (pn : PreciseNumber) (bsp am : pn.Num) (amount : ℕ)
    (bsp_value : pn.value bsp ≡ 10_000 * one) (am_value : pn.value am ≡ amount * one)
    (small : amount < u64_limit) where
  insert_shares_lem :
      (ms : List Member) (split : Shares)
      → SharesInRange ms
      → IsDistinct (keys split ++ addresses ms)
      → insert_shares pn bsp am ms split ≡ ok (split ++ rounded amount ms)
  unfolding insert_shares
  insert_shares_lem [] split h d = simp append-nil
  insert_shares_lem (m ∷ ms) split h d =
      let (c, e, v) = new_small pn m.share (omega arith) in
      let s : ℕ = share_of m.share amount in
      let below : s < u64_limit = omega (arith, share-le m.share amount h.1) in
      let split' : Shares = split ++ (m.address, s) ∷ [] in
      let fresh : IsDistinct (keys split' ++ addresses ms) =
        rw keys-append (IsDistinct-regroup (keys split) m.address (addresses ms) d) in
      rw (e, mul_div_bsp pn c am bsp m.share amount v am_value bsp_value (omega arith) small)
        (rw (fit_lem u64_limit s below) (
          rw
            (insert_new m.address s split
              (IsDistinct-middle (keys split) m.address (addresses ms) d))
            (insert_shares_lem ms split' h.2 fresh
              ∙ ap ok (append_assoc split ((m.address, s) ∷ []) (rounded amount ms)))))

-- The rounded shares miss the exact ones by half a lamport each.
pub rounded_total :
    (amount : ℕ) (ms : List Member)
    → (10_000 * sum (values (rounded amount ms)) ≤ amount * total_shares ms + 5_000 * length ms)
      × (amount * total_shares ms ≤ 10_000 * sum (values (rounded amount ms)) + 5_000 * length ms)
rounded_total amount [] = omega arith
rounded_total amount (m ∷ ms) = omega (arith, rounded_total amount ms)

as_i64_small : (n : ℕ) → n < i64_limit → as_i64 n ≡ pos n
as_i64_small n h = ground arith

diff_lem :
    (a t : ℕ) → a < i64_limit → t < i64_limit → fit_i64 (as_i64 a -ℤ as_i64 t) ≡ some (sub_ℕ a t)
unfolding ◌-ℤ◌
diff_lem a t h k = rw (as_i64_small a h, as_i64_small t k) (ground arith)

-- The correction of one share, in numbers.
fixed_lem :
    (s others a : ℕ)
    → s + others < i64_limit
    → a < i64_limit
    → checked_add_i64 (as_i64 s) (sub_ℕ a (s + others)) ≡ some (sub_ℕ a others)
unfolding checked_add_i64 ◌+ℤ◌
fixed_lem s others a h k = rw (as_i64_small s (omega arith)) (ground arith)

fix_first_lem :
    (m : Member) (ms : List Member) (s others amount : ℕ) (rest : Shares)
    → s + others < i64_limit
    → amount < i64_limit
    → fix_first (m ∷ ms) (sub_ℕ amount (s + others)) ((m.address, s) ∷ rest)
      ≡ (if leb others amount then ok ((m.address, amount - others) ∷ rest) else err tt)
unfolding fix_first
fix_first_lem m ms s others amount rest h k =
    rw (==_refl m.address) (rw (fixed_lem s others amount h k) (ground arith))

-- The last step, whether the difference is zero or not.
finish_lem :
    (m : Member) (ms : List Member) (s others amount : ℕ) (rest : Shares)
    → s + others < i64_limit
    → amount < i64_limit
    → (let diff = sub_ℕ amount (s + others) in
        if is_zero diff
        then ok ((m.address, s) ∷ rest)
        else fix_first (m ∷ ms) diff ((m.address, s) ∷ rest))
      ≡ (if leb others amount then ok ((m.address, amount - others) ∷ rest) else err tt)
finish_lem m ms s others amount rest h k =
    rw (fix_first_lem m ms s others amount rest h k) (ground arith)

-- For members that `initialize` accepts, at distinct addresses, and an amount more than five below
-- the end of the range of an `i64`, `calculate_split` returns the rounded shares with the first one
-- set to what the others leave, and fails when they exceed the amount.
pub calculate_split_lem :
    (pn : PreciseNumber) (f : Fanout) (amount : ℕ)
    → IsValidMembers f.members
    → IsDistinct (addresses f.members)
    → amount + 5 < i64_limit
    → calculate_split pn f amount ≡ settled amount f.members
unfolding calculate_split
calculate_split_lem pn f amount v d small = by_members f.members v d
  where
    by_members :
        (ms : List Member)
        → IsValidMembers ms
        → IsDistinct (addresses ms)
        → calculate_split pn (record { distributed = f.distributed; members = ms }) amount
          ≡ settled amount ms
    by_members [] v d = absurd (omega (arith, v.not_empty))
    by_members (m ∷ ms) v d =
        let (bsp, eb, vb) = pn.new_lem 10_000 (omega arith) in
        let (am, ea, va) = pn.new_lem amount (omega arith) in
        let total = rounded_total amount (m ∷ ms) in
        let s : ℕ = share_of m.share amount in
        let others : ℕ = sum (values (rounded amount ms)) in
        let bound : s + others < i64_limit =
          omega
            (arith, v.complete, v.at_most_ten, total.0, ap (λ (t : ℕ). amount * t) v.complete) in
        rw (eb, ea)
          (rw (insert_shares_lem pn bsp am amount vb va (omega arith) (m ∷ ms) [] v.in_range d) (
            rw (fit_lem u64_limit (s + others) (omega arith)) (
              rw (diff_lem amount (s + others) (omega arith) bound)
                (finish_lem m ms s others amount (rounded amount ms) bound (omega arith)))))

keys-rounded : (amount : ℕ) (ms : List Member) → keys (rounded amount ms) ≡ addresses ms
keys-rounded amount [] = refl
keys-rounded amount (m ∷ ms) = ap (λ r. m.address ∷ r) (keys-rounded amount ms)

settled-sum :
    (amount : ℕ) (ms : List Member) (split : Shares)
    → settled amount ms ≡ ok split
    → (sum (values split) ≡ amount) × (keys split ≡ addresses ms)
settled-sum amount [] split e = cc
settled-sum amount (m ∷ ms) split e =
    elim (Bool-cases (leb (sum (values (rounded amount ms))) amount)) [
      | inl fits ↦
          let le = leb→le _ amount fits in
          let same : ok ((m.address, amount - sum (values (rounded amount ms))) ∷ rounded amount ms)
              ≡ ok split =
            rw fits at e in
          subst (λ s. (sum (values s) ≡ amount) × (keys s ≡ m.address ∷ addresses ms))
            (ok-injective same) (omega arith, ap (λ r. m.address ∷ r) (keys-rounded amount ms))
      | inr over ↦ ground arith
    ]

-- When the split of a valid fanout of members at distinct addresses succeeds, for an amount in
-- the range of an `i64`, its shares add up to the amount, and go to the members, each of them
-- once.
pub split_conserves :
    (pn : PreciseNumber) (f : Fanout) (amount : ℕ) (split : Shares)
    → IsValidMembers f.members
    → IsDistinct (addresses f.members)
    → amount + 5 < i64_limit
    → calculate_split pn f amount ≡ ok split
    → (sum (values split) ≡ amount) × (keys split ≡ addresses f.members)
split_conserves pn f amount split v d small e =
    settled-sum amount f.members split (sym (calculate_split_lem pn f amount v d small) ∙ e)

abbrev pub first_share : List Member → ℕ
first_share [] = 0
first_share (m ∷ ms) = m.share

settled_succeeds :
    (amount : ℕ) (ms : List Member)
    → total_shares ms ≡ 10_000
    → 1 ≤ length ms
    → 5_000 * length ms ≤ amount * first_share ms
    → (split : Shares) × (settled amount ms ≡ ok split)
settled_succeeds amount [] h l k = absurd (omega arith)
settled_succeeds amount (m ∷ ms) h l k =
    let others : ℕ = sum (values (rounded amount ms)) in
    let fits : others ≤ amount =
      omega (arith, rounded_total amount ms, ap (λ (t : ℕ). amount * t) h) in
    (((m.address, amount - others) ∷ rounded amount ms), rw (le→leb others amount fits))

-- The split of a valid fanout does not fail once the exact share of the first member is at least
-- half a lamport for each member.
pub split_succeeds :
    (pn : PreciseNumber) (f : Fanout) (amount : ℕ)
    → IsValidMembers f.members
    → IsDistinct (addresses f.members)
    → amount + 5 < i64_limit
    → 5_000 * length f.members ≤ amount * first_share f.members
    → (split : Shares) × (calculate_split pn f amount ≡ ok split)
split_succeeds pn f amount v d small enough =
    let (split, e) = settled_succeeds amount f.members v.complete v.not_empty enough in
    (split, calculate_split_lem pn f amount v d small ∙ e)
