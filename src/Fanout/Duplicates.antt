-- ===== src/Fanout/Duplicates.antt =====
-- What becomes of a fanout that lists an address twice. `initialize` does not look for that.
use mathlib.Core.List.{append_assoc, append-nil}
use human_program_library.Base.Words.{fit, u64_limit}
use human_program_library.Precise.Chain.{mul_div}
use human_program_library.Base.Int.{◌-ℤ◌, fit_i64, checked_add_i64, ℤ}
use human_program_library.Precise.{PreciseNumber}
use human_program_library.Base.Lists.{
  sum, IsDistinct-length-le, IsDistinct-snoc, length-append, length, contains, IsDistinct,
}
use human_program_library.Base.Result.{unwrap-some, ok_or, unwrap, >>=-eq-ok, ok-injective, ok}
use human_program_library.Base.{
  ◌-◌, ◌≢◌, ap, subst, inl, inr, Bool-cases, ◌+◌, ◌≤◌, ◌≡◌, refl, true, false, List, [], ◌∷◌, ◌++◌,
  arith, Pubkey, ℕ,
}
use human_program_library.Fanout.Defs.{Member, Fanout}
use human_program_library.Fanout.Split.{
  to_u64_of_i64, is_zero, as_i64, Shares, insert, get, keys, values, insert_shares, fix_first,
  calculate_split,
}
use human_program_library.Fanout.SplitLaws.{addresses}
use human_program_library.Fanout.Pay.{Payee, Paid, distribute}
use human_program_library.Fanout.PayLaws.{get-contains, distribute_splits, distribute_conserves}

length-insert-le : (k v : ℕ) (m : Shares) → length (keys (insert k v m)) ≤ length (keys m) + 1
length-insert-le k v [] = omega arith
length-insert-le k v (e ∷ m) = ground (arith, length-insert-le k v m)

keys-insert_old : (k v : ℕ) (m : Shares) → contains k (keys m) ≡ true → keys (insert k v m) ≡ keys m
keys-insert_old k v [] h = cc
keys-insert_old k v (e ∷ m) h = ground (arith, keys-insert_old k v m)

keys-insert_new :
    (k v : ℕ) (m : Shares) → contains k (keys m) ≡ false → keys (insert k v m) ≡ keys m ++ k ∷ []
keys-insert_new k v [] h = refl
keys-insert_new k v (e ∷ m) h = ground (arith, keys-insert_new k v m)

-- The shares hold no more entries than there are members, and as many only if no address repeats.
record Counts (ks : List Pubkey) (ms : List Member) (split : Shares) : Type 0 where
  bounded : length (keys split) ≤ length ks + length ms
  full :
      IsDistinct ks → length (keys split) ≡ length ks + length ms → IsDistinct (ks ++ addresses ms)

Counts-insert :
    (m : Member) (ms : List Member) (v : ℕ) (split split' : Shares)
    → Counts (keys (insert m.address v split)) ms split'
    → Counts (keys split) (m ∷ ms) split'
Counts-insert m ms v split split' c = elim (Bool-cases (contains m.address (keys split))) [
  | inl old ↦
      let same = keys-insert_old m.address v split old in
      record {
        bounded = omega (arith, c.bounded, ap length same);
        full = λ d e. absurd (omega (arith, c.bounded, ap length same, e));
      }
  | inr new ↦
      let grown = keys-insert_new m.address v split new in
      let longer = length-append (keys split) (m.address ∷ []) in
      record {
        bounded = omega (arith, c.bounded, ap length grown, longer);
        full = λ d e. rw (← append_assoc (keys split) (m.address ∷ []) (addresses ms)) (
            subst (λ ks. IsDistinct (ks ++ addresses ms)) grown
              (c.full (rw grown (IsDistinct-snoc (keys split) m.address new d))
                (omega (arith, ap length grown, longer, e))));
      }
]

module _ (pn : PreciseNumber) (bsp am : pn.Num) where
  insert_shares-Counts :
      (ms : List Member) (split split' : Shares)
      → insert_shares pn bsp am ms split ≡ ok split'
      → Counts (keys split) ms split'
  unfolding insert_shares
  insert_shares-Counts [] split split' e =
      subst (Counts (keys split) []) (ok-injective e)
        (record { bounded = omega arith; full = λ d h. rw append-nil d })
  insert_shares-Counts (m ∷ ms) split split' e =
      let (share, e1, r1) = >>=-eq-ok (ok_or (pn.new m.share) tt) _ e in
      let (v, e2, r2) = >>=-eq-ok (ok_or (mul_div pn share am bsp) tt) _ r1 in
      Counts-insert m ms v split split'
        (insert_shares-Counts ms (insert m.address v split) split' r2)

fix_first-keys :
    (ms : List Member) (diff : ℤ) (split split' : Shares)
    → fix_first ms diff split ≡ ok split'
    → keys split' ≡ keys split
unfolding fix_first
fix_first-keys [] diff split split' e = cc
fix_first-keys (m ∷ ms) diff split split' e =
    let (v, e1, r1) = >>=-eq-ok (unwrap (get m.address split)) _ e in
    let (n, e2, r2) = >>=-eq-ok (ok_or (checked_add_i64 (as_i64 v) diff) tt) _ r1 in
    let (w, e3, r3) = >>=-eq-ok (ok_or (to_u64_of_i64 n) tt) _ r2 in
    rw (← ok-injective r3)
      (keys-insert_old m.address w split (get-contains m.address v split (unwrap-some e1)))

-- Whatever the members are, the keys of a split are distinct and no more than the members; as many
-- only where no address repeats.
calculate_split-Counts :
    (pn : PreciseNumber) (f : Fanout) (amount : ℕ) (split : Shares)
    → calculate_split pn f amount ≡ ok split
    → Counts [] f.members split
unfolding calculate_split
calculate_split-Counts pn f amount split e =
    let (bsp, e1, r1) = >>=-eq-ok (unwrap (pn.new 10_000)) _ e in
    let (am, e2, r2) = >>=-eq-ok (ok_or (pn.new amount) tt) _ r1 in
    let (s, e3, r3) = >>=-eq-ok (insert_shares pn bsp am f.members []) _ r2 in
    let (total, e4, r4) = >>=-eq-ok (unwrap (fit u64_limit (sum (values s)))) _ r3 in
    let (diff, e5, r5) = >>=-eq-ok (unwrap (fit_i64 (as_i64 amount -ℤ as_i64 total))) _ r4 in
    let c = insert_shares-Counts pn bsp am f.members [] s e3 in
    elim (Bool-cases (is_zero diff)) [
      | inl z ↦
          let same : ok s ≡ ok split = rw z at r5 in
          subst (Counts [] f.members) (ok-injective same) c
      | inr nz ↦
          let fixed : fix_first f.members diff s ≡ ok split = rw nz at r5 in
          let ks = fix_first-keys f.members diff s split fixed in
          record {
            bounded = omega (arith, c.bounded, ap length ks);
            full = λ d h. c.full d (omega (arith, ap length ks, h));
          }
    ]

-- A fanout that lists an address twice can never be distributed: whatever the balance and the
-- accounts named, `distribute` does not succeed.
pub distribute_duplicates :
    (pn : PreciseNumber) (f : Fanout) (key : Pubkey) (lamports rent : ℕ) (accs : List Payee)
    (paid : Paid)
    → ¬ IsDistinct (addresses f.members)
    → distribute pn f key lamports rent accs ≢ ok paid
distribute_duplicates pn f key lamports rent accs paid repeated e =
    let (split, es) = distribute_splits pn f key lamports rent accs paid e in
    let (_, _, distinct, within, many, _) =
      distribute_conserves pn f key lamports rent accs paid split e es in
    let c = calculate_split-Counts pn f (lamports - rent) split es in
    repeated (
      c.full tt (
        omega
          (arith, c.bounded, IsDistinct-length-le paid.seen (keys split) distinct within, many)))
