-- ===== src/Royalty/Payments.antt =====
-- What the loop of a distribution takes from the state account.
use human_program_library.Precise.Rounding.{portion_of}
use human_program_library.Precise.Portions.{portions, portions_bounded}
use human_program_library.Precise.{PreciseNumber}
use human_program_library.Base.Lists.{length, sum, contains}
use human_program_library.Base.Int.{ℤ}
use human_program_library.Base.Words.{u64_limit, u32_limit}
use human_program_library.Base.Result.{ok, ok-injective}
use human_program_library.Base.{
  ℕ, suc, ◌+◌, ◌*◌, ◌≤◌, ◌<◌, ◌≡◌, refl, sym, ap, ◌∙◌, subst, false, Option, none, some, List, [],
  ◌∷◌, arith, Pubkey,
}
use human_program_library.Royalty.Defs.{State, Distribution, Voucher, Failure, Store, set}
use human_program_library.Royalty.SplitLaws.{distribute_to_leaves, distribute_to_pays}
use human_program_library.Royalty.Ledger.{pay_from_ok}
use human_program_library.Royalty.Distribute.{pay_from, distribute_vouchers}
use human_program_library.Royalty.DistributeLaws.{
  distribute_vouchers-Turn, distribute_vouchers-Sweeps,
}

abbrev pub balance_of : Option Voucher → ℕ
balance_of none = 0
balance_of (some v) = v.balance

-- The tokens on the vouchers of the accounts.
abbrev pub held : List Pubkey → (Pubkey → Option Voucher) → List ℕ
held [] f = []
held (k ∷ ks) f = balance_of (f k) ∷ held ks f

held-set_absent :
    (ks : List Pubkey) (k : Pubkey) (v : Option Voucher) (f : Pubkey → Option Voucher)
    → contains k ks ≡ false
    → held ks (set k v f) ≡ held ks f
held-set_absent [] k v f h = refl
held-set_absent (j ∷ ks) k v f h = ground (arith, held-set_absent ks k v f)

length-held : (ks : List Pubkey) (f : Pubkey → Option Voucher) → length (held ks f) ≡ length ks
length-held [] f = refl
length-held (k ∷ ks) f = ap suc (length-held ks f)

pay_from_takes : (s t n : ℕ) (f f' : Pubkey → ℕ) → pay_from s t n f ≡ ok f' → f' s + n ≡ f s
pay_from_takes s t n f f' e =
    let (other, le, same) = pay_from_ok s t n f f' e in
    subst (λ g. g s + n ≡ f s) same (ground arith)

module _ (pn : PreciseNumber) (state : State) (sk : Pubkey) (now : ℤ) where
  loop_takes :
      (keys : List Pubkey) (d : Distribution) (store : Store) (result : Distribution × Store)
      → distribute_vouchers pn state sk now keys d store ≡ ok result
      → sum (held keys store.vouchers) ≤ state.tokens_held
      → 0 < state.tokens_held
      → state.tokens_held < u64_limit
      → d.distribute_amount < u64_limit
      → d.seen_vouchers + length keys < u32_limit
      → state.drop_idx + 1 < u32_limit
      → result.1.lamports sk
          + portions state.tokens_held d.distribute_amount (held keys store.vouchers)
        ≡ store.lamports sk
  unfolding distribute_vouchers
  loop_takes [] d store result e le p ht ha hs hi =
      subst (λ (r : Distribution × Store). r.1.lamports sk + 0 ≡ store.lamports sk)
        (ok-injective {E = Failure} e) (omega arith)
  loop_takes (key ∷ rest) d store result e le p ht ha hs hi =
      let t = distribute_vouchers-Turn pn state sk now key rest d store result e in
      let l =
        distribute_to_leaves pn d t.d' t.voucher t.voucher' state.drop_idx state.tokens_held
          t.amount now t.distributed in
      let store' : Store = record {
        lamports = t.lamports';
        vouchers = set key (some t.voucher') store.vouchers;
      } in
      let once = (distribute_vouchers-Sweeps pn state sk now (key ∷ rest) d store result e).once in
      let same = held-set_absent rest key (some t.voucher') store.vouchers once.0 in
      let own : balance_of (store.vouchers key) ≡ t.voucher.balance = ap balance_of t.found in
      let pays =
        distribute_to_pays pn d t.voucher state.drop_idx state.tokens_held now l.0
          (omega (arith, own)) p ht ha (omega arith) hi in
      let n : t.amount ≡ portion_of t.voucher.balance state.tokens_held d.distribute_amount =
        ap (λ r. r.0) (ok-injective {E = Failure} (sym t.distributed ∙ pays)) in
      let ih =
        loop_takes rest t.d' store' result t.continued (rw same (omega arith)) p ht
          (omega (arith, l)) (omega (arith, l)) hi in
      let ih' : result.1.lamports sk
            + portions state.tokens_held d.distribute_amount (held rest store.vouchers)
          ≡ t.lamports' sk =
        subst
          (λ (a : ℕ).
            result.1.lamports sk + portions state.tokens_held a (held rest store.vouchers)
            ≡ t.lamports' sk)
          l.5
          (subst
            (λ us.
              result.1.lamports sk + portions state.tokens_held t.d'.distribute_amount us
              ≡ t.lamports' sk)
            same ih) in
      rw own
        (omega (arith, ih', n, pay_from_takes sk key t.amount store.lamports t.lamports' t.paid))

  -- When the named vouchers hold no more tokens than there are in all, which are some, and no
  -- counter leaves its range, a loop that succeeds takes at most the amount of the distribution
  -- and half a lamport for each voucher from the state account.
  pub loop_takes_bounded :
      (keys : List Pubkey) (d : Distribution) (store : Store) (result : Distribution × Store)
      → distribute_vouchers pn state sk now keys d store ≡ ok result
      → sum (held keys store.vouchers) ≤ state.tokens_held
      → 0 < state.tokens_held
      → state.tokens_held < u64_limit
      → d.distribute_amount < u64_limit
      → d.seen_vouchers + length keys < u32_limit
      → state.drop_idx + 1 < u32_limit
      → 2 * store.lamports sk ≤ 2 * (result.1.lamports sk + d.distribute_amount) + length keys
  loop_takes_bounded keys d store result e le p ht ha hs hi = omega (
    arith,
    loop_takes keys d store result e le p ht ha hs hi,
    portions_bounded state.tokens_held d.distribute_amount (held keys store.vouchers) p le,
    length-held keys store.vouchers,
  )
