-- ===== src/Fanout/InitLaws.antt =====
-- What `initialize` of the fanout accepts.
use human_program_library.Base.{inr, inl, ℕ, ◌+◌, ◌≤◌, ◌≡◌, ◌↔◌, sym, ap, ◌∙◌, List, [], ◌∷◌, arith}
use human_program_library.Base.Result.{ok, Result-cases}
use human_program_library.Base.Lists.{length}
use human_program_library.Fanout.Defs.{Member, Fanout}
use human_program_library.Fanout.Init.{add_shares, initialize}

-- Each share lies between 1 and 10000.
abbrev pub SharesInRange : List Member → Type 0
SharesInRange [] = Unit {0}
SharesInRange (m ∷ ms) = (1 ≤ m.share) × (m.share ≤ 10_000) × SharesInRange ms

abbrev pub total_shares : List Member → ℕ
total_shares [] = 0
total_shares (m ∷ ms) = m.share + total_shares ms

pub record IsValidMembers (ms : List Member) : Type 0 where
  pub not_empty : 1 ≤ length ms
  pub at_most_ten : length ms ≤ 10
  pub in_range : SharesInRange ms
  pub complete : total_shares ms ≡ 10_000

add_shares_ok :
    (ms : List Member) (n : ℕ) → SharesInRange ms → add_shares ms n ≡ ok (n + total_shares ms)
unfolding add_shares
add_shares_ok [] n h = ground arith
add_shares_ok (m ∷ ms) n h = ground (arith, add_shares_ok ms (n + m.share) h.2)

add_shares_range : (ms : List Member) (n t : ℕ) → add_shares ms n ≡ ok t → SharesInRange ms
unfolding add_shares
add_shares_range [] n t e = tt
add_shares_range (m ∷ ms) n t e = ground (arith, add_shares_range ms (n + m.share) t)

initialize_accepts :
    (ms : List Member)
    → IsValidMembers ms
    → initialize ms ≡ ok (record { distributed = 0; members = ms })
unfolding initialize
initialize_accepts ms v =
    ground (arith, add_shares_ok ms 0 v.in_range, v.not_empty, v.at_most_ten, v.complete)

initialize_needs :
    (ms : List Member) (f : Fanout)
    → initialize ms ≡ ok f
    → IsValidMembers ms × (f ≡ record { distributed = 0; members = ms })
unfolding initialize
initialize_needs ms f e = elim (Result-cases (add_shares ms 0)) [
  | inl (t, eq) ↦
      ground (arith, add_shares_range ms 0 t eq, add_shares_ok ms 0 (add_shares_range ms 0 t eq))
  | inr (inl (x, eq)) ↦ ground arith
  | inr (inr eq) ↦ ground arith
]

-- `initialize` succeeds exactly for one to ten members whose shares lie between 1 and 10000 and
-- add up to 10000, and then the account holds these members and has distributed nothing.
pub initialize_iff :
    (ms : List Member) (f : Fanout)
    → (initialize ms ≡ ok f) ↔ (IsValidMembers ms × (f ≡ record { distributed = 0; members = ms }))
initialize_iff ms f = (initialize_needs ms f, λ h. initialize_accepts ms h.0 ∙ ap ok (sym h.1))
