-- ===== src/Fanout/Payout.antt =====
-- That `distribute` succeeds, and what every member gets then.
use human_program_library.Precise.{PreciseNumber}
use human_program_library.Base.Int.{i64_limit}
use human_program_library.Base.Lists.{
  sum, remove, length-remove, IsWithin-remove, length, contains, IsDistinct, IsWithin,
}
use human_program_library.Base.Words.{u64_limit}
use human_program_library.Base.Result.{ok}
use human_program_library.Base.{
  suc, sym, ap, ◌∙◌, ℕ, ◌+◌, ◌-◌, ◌≤◌, ◌<◌, ◌≡◌, refl, true, false, some, List, [], ◌∷◌, arith,
  ◌==◌, if◌then◌else◌, Pubkey,
}
use human_program_library.Fanout.Defs.{Member, Fanout}
use human_program_library.Fanout.Split.{Shares, get, keys, values, calculate_split}
use human_program_library.Fanout.InitLaws.{IsValidMembers}
use human_program_library.Fanout.SplitLaws.{addresses, split_conserves}
use human_program_library.Fanout.Pay.{Payee, pay, distribute}
use human_program_library.Fanout.PayLaws.{payee_keys, balance}

-- The share of an account in a split.
abbrev pub share_for : Shares → Pubkey → ℕ
share_for [] k = 0
share_for ((j, w) ∷ m) k = if j == k then w else share_for m k

abbrev pub owed : Shares → List Payee → ℕ
owed split [] = 0
owed split (acc ∷ rest) = share_for split acc.key + owed split rest

-- Every account with its share added.
abbrev pub credited : Shares → List Payee → List Payee
credited split [] = []
credited split (acc ∷ rest) =
    record acc { lamports = acc.lamports + share_for split acc.key } ∷ credited split rest

-- No account of the list has been seen.
abbrev AllNew : List Pubkey → List Payee → Type 0
AllNew seen [] = Unit {0}
AllNew seen (acc ∷ rest) = (contains acc.key seen ≡ false) × AllNew seen rest

abbrev pub seen_after : List Payee → List Pubkey → List Pubkey
seen_after [] seen = seen
seen_after (acc ∷ rest) seen = seen_after rest (acc.key ∷ seen)

AllNew-empty : (accs : List Payee) → AllNew [] accs
AllNew-empty [] = tt
AllNew-empty (acc ∷ rest) = (refl, AllNew-empty rest)

AllNew-cons :
    (k : Pubkey) (seen : List Pubkey) (accs : List Payee)
    → contains k (payee_keys accs) ≡ false
    → AllNew seen accs
    → AllNew (k ∷ seen) accs
AllNew-cons k seen [] h n = tt
AllNew-cons k seen (acc ∷ rest) h n = ground (arith, AllNew-cons k seen rest)

get-share_for :
    (split : Shares) (k : Pubkey)
    → contains k (keys split) ≡ true
    → get k split ≡ some (share_for split k)
get-share_for [] k h = cc
get-share_for (e ∷ m) k h = ground (arith, get-share_for m k)

length-seen_after :
    (accs : List Payee) (seen : List Pubkey)
    → length (seen_after accs seen) ≡ length seen + length accs
length-seen_after [] seen = omega arith
length-seen_after (acc ∷ rest) seen = omega (arith, length-seen_after rest (acc.key ∷ seen))

pay_pays :
    (split : Shares) (key : Pubkey) (accs : List Payee) (seen : List Pubkey)
    (lamports distributed : ℕ)
    → IsDistinct (payee_keys accs)
    → AllNew seen accs
    → IsWithin (payee_keys accs) (keys split)
    → contains key (payee_keys accs) ≡ false
    → owed split accs ≤ lamports
    → balance accs + owed split accs < u64_limit
    → distributed + owed split accs < u64_limit
    → pay split key accs seen lamports distributed
      ≡ ok (record {
        fanout_lamports = lamports - owed split accs;
        distributed = distributed + owed split accs;
        payees = credited split accs;
        seen = seen_after accs seen;
      })
unfolding pay
pay_pays split key [] seen lamports distributed d n w o le b c = ground arith
pay_pays split key (acc ∷ rest) seen lamports distributed d n w o le b c =
    let v : ℕ = share_for split acc.key in
    let ih =
      pay_pays split key rest (acc.key ∷ seen) (lamports - v) (distributed + v) d.1
        (AllNew-cons acc.key seen rest d.0 n.1) w.1 in
    ground (arith, ih, get-share_for split acc.key w.0)

drop_key : Pubkey → Shares → Shares
drop_key k [] = []
drop_key k ((j, w) ∷ m) = if k == j then m else (j, w) ∷ drop_key k m

keys-drop_key : (k : Pubkey) (m : Shares) → keys (drop_key k m) ≡ remove k (keys m)
unfolding drop_key
keys-drop_key k [] = refl
keys-drop_key k (e ∷ m) = ground (arith, keys-drop_key k m)

sum-drop_key :
    (k : Pubkey) (m : Shares)
    → contains k (keys m) ≡ true
    → sum (values m) ≡ share_for m k + sum (values (drop_key k m))
unfolding drop_key
sum-drop_key k [] h = cc
sum-drop_key k (e ∷ m) h = ground (arith, sum-drop_key k m)

share_for-drop_key :
    (k j : Pubkey) (m : Shares) → (k == j) ≡ false → share_for (drop_key k m) j ≡ share_for m j
unfolding drop_key
share_for-drop_key k j [] h = refl
share_for-drop_key k j (e ∷ m) h = ground (arith, share_for-drop_key k j m)

owed-drop_key :
    (k : Pubkey) (m : Shares) (accs : List Payee)
    → contains k (payee_keys accs) ≡ false
    → owed (drop_key k m) accs ≡ owed m accs
owed-drop_key k m [] h = refl
owed-drop_key k m (acc ∷ rest) h =
    ground (arith, share_for-drop_key k acc.key m, owed-drop_key k m rest)

-- Accounts that are exactly the keys of a split, in any order, are owed all of it.
owed-eq-sum :
    (accs : List Payee) (m : Shares)
    → IsDistinct (payee_keys accs)
    → IsWithin (payee_keys accs) (keys m)
    → length accs ≡ length (keys m)
    → owed m accs ≡ sum (values m)
owed-eq-sum [] [] d w l = refl
owed-eq-sum [] (e ∷ m) d w l = absurd (omega arith)
owed-eq-sum (acc ∷ rest) m d w l =
    let k : Pubkey = acc.key in
    let smaller = keys-drop_key k m in
    let ih =
      owed-eq-sum rest (drop_key k m) d.1
        (rw smaller (IsWithin-remove k (payee_keys rest) (keys m) d.0 w.1))
        (rw smaller (omega (arith, length-remove k (keys m) w.0))) in
    omega (arith, ih, sum-drop_key k m w.0, owed-drop_key k m rest d.0)

length-payee_keys : (accs : List Payee) → length (payee_keys accs) ≡ length accs
length-payee_keys [] = refl
length-payee_keys (acc ∷ rest) = ap suc (length-payee_keys rest)

length-addresses : (ms : List Member) → length (addresses ms) ≡ length ms
length-addresses [] = refl
length-addresses (m ∷ ms) = ap suc (length-addresses ms)

-- For a valid fanout of members at distinct addresses, which holds its rent minimum and of which
-- a split can be made, and for the accounts of exactly its members in any order, the fanout
-- itself not among them, `distribute` succeeds as long as no balance or counter leaves its range:
-- it leaves the rent minimum in the fanout, adds the amount to its counter and credits every
-- member with its share of the split.
pub distribute_pays :
    (pn : PreciseNumber) (f : Fanout) (key : Pubkey) (lamports rent : ℕ) (accs : List Payee)
    (split : Shares)
    → IsValidMembers f.members
    → IsDistinct (addresses f.members)
    → rent ≤ lamports
    → lamports + 5 < i64_limit
    → calculate_split pn f (lamports - rent) ≡ ok split
    → IsDistinct (payee_keys accs)
    → IsWithin (payee_keys accs) (addresses f.members)
    → length accs ≡ length f.members
    → contains key (payee_keys accs) ≡ false
    → balance accs + lamports < u64_limit
    → f.distributed + lamports < u64_limit
    → distribute pn f key lamports rent accs
      ≡ ok (record {
        fanout_lamports = rent;
        distributed = f.distributed + (lamports - rent);
        payees = credited split accs;
        seen = seen_after accs [];
      })
unfolding distribute
distribute_pays pn f key lamports rent accs split v d le small es da wa la ka ba ca =
    let (total, ks) = split_conserves pn f (lamports - rent) split v d (omega arith) es in
    let w : IsWithin (payee_keys accs) (keys split) = rw ks wa in
    let o : owed split accs ≡ lamports - rent =
      owed-eq-sum accs split da w (rw ks (la ∙ sym (length-addresses f.members))) ∙ total in
    let paid =
      pay_pays split key accs [] lamports f.distributed da (AllNew-empty accs) w ka
        (omega (arith, o)) (omega (arith, o)) (omega (arith, o)) in
    ground (arith, paid, o, length-seen_after accs [])
