-- ===== src/Royalty/Ledger.antt =====
-- The lamports of a list of accounts, and that payments between them conserve their sum.
use human_program_library.Base.Words.{u64_limit}
use human_program_library.Base.Lists.{contains, IsDistinct}
use human_program_library.Base.Result.{ok-injective, ok}
use human_program_library.Base.{
  ◌-◌, ◌≤◌, subst, inl, inr, ◌&&◌, ltb, leb, ◌==◌, Bool-cases, ℕ, ◌+◌, ◌≡◌, refl, true, false, List,
  [], ◌∷◌, arith, Pubkey,
}
use human_program_library.Royalty.Defs.{Failure, set}
use human_program_library.Royalty.Distribute.{pay_from}

abbrev pub total : List Pubkey → (Pubkey → ℕ) → ℕ
total [] f = 0
total (k ∷ ks) f = f k + total ks f

total-set_absent :
    (ks : List Pubkey) (k v : ℕ) (f : Pubkey → ℕ)
    → contains k ks ≡ false
    → total ks (set k v f) ≡ total ks f
total-set_absent [] k v f h = refl
total-set_absent (j ∷ ks) k v f h = ground (arith, total-set_absent ks k v f)

pub total-set :
    (ks : List Pubkey) (k v : ℕ) (f : Pubkey → ℕ)
    → IsDistinct ks
    → contains k ks ≡ true
    → total ks (set k v f) + f k ≡ total ks f + v
total-set [] k v f d h = cc
total-set (j ∷ ks) k v f d h = ground (arith, total-set ks k v f, total-set_absent ks k v f)

pub pay_from_ok :
    (s t n : ℕ) (f f' : Pubkey → ℕ)
    → pay_from s t n f ≡ ok f'
    → ((t == s) ≡ false) × (n ≤ f s) × (set t (f t + n) (set s (f s - n) f) ≡ f')
unfolding pay_from
pay_from_ok s t n f f' e = elim (Bool-cases (t == s)) [
  | inl same ↦ absurd (ground arith)
  | inr other ↦ elim (Bool-cases (leb n (f s) && ltb (f t + n) u64_limit)) [
    | inl fits ↦ (other, ground arith, ok-injective {E = Failure} (ground arith))
    | inr over ↦ absurd (ground arith)
  ]
]

pub pay_from-conserves :
    (s t n : ℕ) (f f' : Pubkey → ℕ) (ks : List Pubkey)
    → pay_from s t n f ≡ ok f'
    → IsDistinct ks
    → contains s ks ≡ true
    → contains t ks ≡ true
    → total ks f' ≡ total ks f
pay_from-conserves s t n f f' ks e d hs ht =
    let (other, le, same) = pay_from_ok s t n f f' e in
    let taken = total-set ks s (f s - n) f d hs in
    let given = total-set ks t (f t + n) (set s (f s - n) f) d ht in
    subst (λ g. total ks g ≡ total ks f) same (ground arith)
