-- ===== src/Fanout/PayLaws.antt =====
-- What the loop of `distribute` pays: money is conserved, and the members get their shares.
use human_program_library.Precise.{PreciseNumber}
use human_program_library.Base.Lists.{length, IsWithin, IsDistinct, contains}
use human_program_library.Base.Result.{Result-cases, ok}
use human_program_library.Base.{
  [], ◌-◌, inr, inl, Option-cases, true, arith, some, ◌+◌, ◌∷◌, List, Pubkey, ◌≡◌, ℕ,
}
use human_program_library.Fanout.Defs.{Fanout}
use human_program_library.Fanout.Split.{calculate_split, Shares, get, keys}
use human_program_library.Fanout.Pay.{Payee, Paid, pay, distribute}

abbrev pub payee_keys : List Payee → List Pubkey
payee_keys [] = []
payee_keys (acc ∷ rest) = acc.key ∷ payee_keys rest

abbrev pub balance : List Payee → ℕ
balance [] = 0
balance (acc ∷ rest) = acc.lamports + balance rest

-- What a successful loop has done.
pub record Settles (split : Shares) (accs : List Payee) (seen : List Pubkey)
    (lamports distributed : ℕ) (paid : Paid) : Type 0 where
  pub conserved : paid.fanout_lamports + balance paid.payees ≡ lamports + balance accs
  pub counted : paid.distributed + paid.fanout_lamports ≡ distributed + lamports
  pub each_once : IsDistinct seen → IsDistinct paid.seen
  pub members_only : IsWithin seen (keys split) → IsWithin paid.seen (keys split)
  pub all_seen : length paid.seen ≡ length seen + length accs

pub get-contains :
    (k v : ℕ) (split : Shares) → get k split ≡ some v → contains k (keys split) ≡ true
get-contains k v [] e = cc
get-contains k v (x ∷ split) e = ground (arith, get-contains k v split)

pay-Settles :
    (split : Shares) (key : Pubkey) (accs : List Payee) (seen : List Pubkey)
    (lamports distributed : ℕ) (paid : Paid)
    → pay split key accs seen lamports distributed ≡ ok paid
    → Settles split accs seen lamports distributed paid
unfolding pay
pay-Settles split key [] seen lamports distributed paid e = ground arith
pay-Settles split key (acc ∷ rest) seen lamports distributed paid e =
    elim (Option-cases (get acc.key split)) [
      | inl missing ↦ ground arith
      | inr (v, found) ↦
          elim (Result-cases
            (pay split key rest (acc.key ∷ seen) (lamports - v) (distributed + v))) [
              | inl (p, eq) ↦ ground (
                arith,
                get-contains acc.key v split found,
                pay-Settles split key rest (acc.key ∷ seen) (lamports - v) (distributed + v) p eq,
              )
              | inr (inl (x, eq)) ↦ ground arith
              | inr (inr eq) ↦ ground arith
            ]
    ]

-- A successful `distribute` conserves lamports: what the fanout loses, the accounts gain, and its
-- counter grows by as much. It has then paid as many different accounts as there are members, and
-- each of them is a member.
pub distribute_conserves :
    (pn : PreciseNumber) (f : Fanout) (key : Pubkey) (lamports rent : ℕ) (accs : List Payee)
    (paid : Paid) (split : Shares)
    → distribute pn f key lamports rent accs ≡ ok paid
    → calculate_split pn f (lamports - rent) ≡ ok split
    → (paid.fanout_lamports + balance paid.payees ≡ lamports + balance accs)
      × (paid.distributed + paid.fanout_lamports ≡ f.distributed + lamports)
      × IsDistinct paid.seen
      × IsWithin paid.seen (keys split)
      × (length paid.seen ≡ length f.members)
      × (length accs ≡ length f.members)
unfolding distribute
distribute_conserves pn f key lamports rent accs paid split e es =
    elim (Result-cases (pay split key accs [] lamports f.distributed)) [
      | inl (p, ep) ↦ ground (arith, pay-Settles split key accs [] lamports f.distributed p ep)
      | inr (inl (x, ep)) ↦ ground arith
      | inr (inr ep) ↦ ground arith
    ]

-- A successful `distribute` has split what the fanout held above the rent.
pub distribute_splits :
    (pn : PreciseNumber) (f : Fanout) (key : Pubkey) (lamports rent : ℕ) (accs : List Payee)
    (paid : Paid)
    → distribute pn f key lamports rent accs ≡ ok paid
    → (split : Shares) × (calculate_split pn f (lamports - rent) ≡ ok split)
unfolding distribute
distribute_splits pn f key lamports rent accs paid e =
    elim (Result-cases (calculate_split pn f (lamports - rent))) [
      | inl found ↦ found
      | inr (inl (x, ep)) ↦ absurd (ground arith)
      | inr (inr ep) ↦ absurd (ground arith)
    ]
