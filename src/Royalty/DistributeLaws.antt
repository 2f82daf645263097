-- ===== src/Royalty/DistributeLaws.antt =====
-- What a distribution does to the vouchers and to the lamports.
use human_program_library.Base.Lists.{length, IsDistinct, IsWithin, contains}
use human_program_library.Precise.{PreciseNumber}
use human_program_library.Base.Int.{ℤ}
use human_program_library.Base.Result.{◌>>=◌, Result, fail_if, ok-injective, ok, ok_or, >>=-eq-ok}
use human_program_library.Base.{
  ==_iff, sym, ◌∙◌, subst, true, ==_refl, ◌+◌, refl, ap, inl, inr, false, Option, none, [], ◌==◌,
  ◌!=◌, Bool-cases, ℕ, ◌≡◌, some, List, ◌∷◌, arith, Pubkey,
}
use human_program_library.Royalty.Defs.{
  State, Distribution, Voucher, Failure, Store, set, illegal_owner, royalty_error, invalid_voucher,
}
use human_program_library.Royalty.Split.{distribute_to}
use human_program_library.Royalty.SplitLaws.{distribute_to_leaves}
use human_program_library.Royalty.Ledger.{total, pay_from-conserves}
use human_program_library.Royalty.Distribute.{pay_from, distribute_vouchers}

ok_or-some : {E A : Type 0} (o : Option A) (a : A) (e : E) → ok_or o e ≡ ok a → o ≡ some a
ok_or-some none a e h = cc
ok_or-some (some b) a e h = ap some (ok-injective h)

-- The voucher belongs to the drop with this index.
abbrev pub IsSpent : ℕ → Pubkey → Store → Type 0
IsSpent idx k store = (v : Voucher) × (store.vouchers k ≡ some v) × (v.drop_idx ≡ idx)

abbrev pub AllSpent : ℕ → List Pubkey → Store → Type 0
AllSpent idx [] store = Unit {0}
AllSpent idx (k ∷ ks) store = IsSpent idx k store × AllSpent idx ks store

pub AllSpent-contains :
    (idx : ℕ) (k : Pubkey) (ks : List Pubkey) (store : Store)
    → AllSpent idx ks store
    → contains k ks ≡ true
    → IsSpent idx k store
AllSpent-contains idx k [] store a h = absurd (cc)
AllSpent-contains idx k (j ∷ ks) store a h = elim (Bool-cases (k == j)) [
  | inl same ↦ subst (λ i. IsSpent idx i store) (sym ((==_iff k j).0 same)) a.0
  | inr other ↦ AllSpent-contains idx k ks store a.1 (ground arith)
]

module _ (pn : PreciseNumber) (state : State) (sk : Pubkey) (now : ℤ) where
  -- One turn of the loop that has succeeded.
  pub record Turn (key : Pubkey) (rest : List Pubkey) (d : Distribution) (store : Store)
      (result : Distribution × Store) : Type 0 where
    pub voucher : Voucher
    pub amount : ℕ
    pub d' : Distribution
    pub voucher' : Voucher
    pub lamports' : Pubkey → ℕ
    pub found : store.vouchers key ≡ some voucher
    pub distributed :
        distribute_to pn d voucher state.drop_idx state.tokens_held now ≡ ok (amount, d', voucher')
    pub paid : pay_from sk key amount store.lamports ≡ ok lamports'
    pub continued :
        distribute_vouchers pn state sk now rest d'
          (record { lamports = lamports'; vouchers = set key (some voucher') store.vouchers })
        ≡ ok result

  pub distribute_vouchers-Turn :
      (key : Pubkey) (rest : List Pubkey) (d : Distribution) (store : Store)
      (result : Distribution × Store)
      → distribute_vouchers pn state sk now (key ∷ rest) d store ≡ ok result
      → Turn key rest d store result
  unfolding distribute_vouchers
  distribute_vouchers-Turn key rest d store result e =
      let (v, ev, r1) = >>=-eq-ok (ok_or (store.vouchers key) illegal_owner) _ e in
      let (_, _, r2) =
        >>=-eq-ok (fail_if (v.state != sk) (royalty_error invalid_voucher)) (λ _. after_check v)
          r1 in
      let ((n, d', v'), ed, r3) =
        >>=-eq-ok (distribute_to pn d v state.drop_idx state.tokens_held now) _ r2 in
      let (l, el, r4) = >>=-eq-ok (pay_from sk key n store.lamports) _ r3 in
      record {
        voucher = v;
        amount = n;
        d' = d';
        voucher' = v';
        lamports' = l;
        found = ok_or-some (store.vouchers key) v illegal_owner ev;
        distributed = ed;
        paid = el;
        continued = r4;
      }
    where
      after_check : Voucher → Result Failure (Distribution × Store)
      after_check v = distribute_to pn d v state.drop_idx state.tokens_held now >>= λ r.
          pay_from sk key r.0 store.lamports >>= λ l.
          distribute_vouchers pn state sk now rest r.1
            (record { lamports = l; vouchers = set key (some r.2) store.vouchers })

  -- A voucher that has been paid is in no later turn.
  pub spent_skipped :
      (keys : List Pubkey) (d : Distribution) (store : Store) (result : Distribution × Store)
      (k : Pubkey) (v : Voucher)
      → distribute_vouchers pn state sk now keys d store ≡ ok result
      → store.vouchers k ≡ some v
      → v.drop_idx ≡ state.drop_idx + 1
      → contains k keys ≡ false
  spent_skipped [] d store result k v e ev h = refl
  spent_skipped (key ∷ rest) d store result k v e ev h =
      let t = distribute_vouchers-Turn key rest d store result e in
      let l =
        distribute_to_leaves pn d t.d' t.voucher t.voucher' state.drop_idx state.tokens_held
          t.amount now t.distributed in
      let f = t.found in
      elim (Bool-cases (k == key)) [
        | inl same ↦ absurd (ground arith)
        | inr other ↦
            let ih =
              spent_skipped rest t.d'
                (record {
                  lamports = t.lamports';
                  vouchers = set key (some t.voucher') store.vouchers;
                })
                result k v t.continued (ground arith) h in
            ground arith
      ]

  -- A voucher that no turn names stays as it was.
  others_kept :
      (keys : List Pubkey) (d : Distribution) (store : Store) (result : Distribution × Store)
      (k : Pubkey)
      → distribute_vouchers pn state sk now keys d store ≡ ok result
      → contains k keys ≡ false
      → result.1.vouchers k ≡ store.vouchers k
  unfolding distribute_vouchers
  others_kept [] d store result k e h =
      ap (λ r. r.1.vouchers k) (sym (ok-injective {E = Failure} e))
  others_kept (key ∷ rest) d store result k e h =
      let t = distribute_vouchers-Turn key rest d store result e in
      let ih =
        others_kept rest t.d'
          (record { lamports = t.lamports'; vouchers = set key (some t.voucher') store.vouchers })
          result k t.continued (ground arith) in
      ground (arith, ih)

  -- What the whole loop has done.
  pub record Sweeps (keys : List Pubkey) (d : Distribution) (result : Distribution × Store)
      : Type 0 where
    pub seen : result.0.seen_vouchers ≡ d.seen_vouchers + length keys
    pub amount : result.0.distribute_amount ≡ d.distribute_amount
    pub once : IsDistinct keys
    pub spent : AllSpent (state.drop_idx + 1) keys result.1

  pub distribute_vouchers-Sweeps :
      (keys : List Pubkey) (d : Distribution) (store : Store) (result : Distribution × Store)
      → distribute_vouchers pn state sk now keys d store ≡ ok result
      → Sweeps keys d result
  unfolding distribute_vouchers
  distribute_vouchers-Sweeps [] d store result e =
      subst (Sweeps [] d) (ok-injective {E = Failure} e)
        (record { seen = omega arith; amount = refl; once = tt; spent = tt })
  distribute_vouchers-Sweeps (key ∷ rest) d store result e =
      let t = distribute_vouchers-Turn key rest d store result e in
      let l =
        distribute_to_leaves pn d t.d' t.voucher t.voucher' state.drop_idx state.tokens_held
          t.amount now t.distributed in
      let store' : Store = record {
        lamports = t.lamports';
        vouchers = set key (some t.voucher') store.vouchers;
      } in
      let s = distribute_vouchers-Sweeps rest t.d' store' result t.continued in
      let stored : store'.vouchers key ≡ some t.voucher' = rw (==_refl key) refl in
      let new =
        spent_skipped rest t.d' store' result key t.voucher' t.continued stored (ground arith) in
      let kept = others_kept rest t.d' store' result key t.continued new in
      record {
        seen = omega (arith, s.seen, l);
        amount = ground (arith, s.amount);
        once = (new, s.once);
        spent = ((t.voucher', kept ∙ stored, ground arith), s.spent);
      }

  pub distribute_vouchers-conserves :
      (keys : List Pubkey) (d : Distribution) (store : Store) (result : Distribution × Store)
      (ks : List Pubkey)
      → distribute_vouchers pn state sk now keys d store ≡ ok result
      → IsDistinct ks
      → contains sk ks ≡ true
      → IsWithin keys ks
      → total ks result.1.lamports ≡ total ks store.lamports
  unfolding distribute_vouchers
  distribute_vouchers-conserves [] d store result ks e di hs w =
      ap (λ r. total ks r.1.lamports) (sym (ok-injective {E = Failure} e))
  distribute_vouchers-conserves (key ∷ rest) d store result ks e di hs w =
      let t = distribute_vouchers-Turn key rest d store result e in
      let store' : Store = record {
        lamports = t.lamports';
        vouchers = set key (some t.voucher') store.vouchers;
      } in
      distribute_vouchers-conserves rest t.d' store' result ks t.continued di hs w.1
      ∙ pay_from-conserves sk key t.amount store.lamports t.lamports' ks t.paid di hs w.0
