-- ===== src/Royalty/VoucherLedger.antt =====
-- The vouchers of a state as a ledger: their balances together are the tokens that the state counts.
use human_program_library.Base.Lists.{contains, IsDistinct}
use human_program_library.Base.Result.{Result, err, panic, ok}
use human_program_library.Base.{
  refl, true, [], ◌∷◌, ==_refl, ap, inl, inr, Bool-cases, ℕ, ◌+◌, ◌≡◌, ◌∙◌, false, List, arith,
  ◌==◌, Pubkey,
}
use human_program_library.Common.Errors.{ProgramError}
use human_program_library.Common.Entity.{deserialize_from}
use human_program_library.Common.Accounts.{AccountInfo}
use human_program_library.Common.EntityAccounts.{save_entity}
use human_program_library.Common.EntityAccountLaws.{IsSaved, save_entity-IsSaved}
use human_program_library.Royalty.Defs.{State, Voucher}
use human_program_library.Royalty.Program.{Program, state_entity, voucher_entity}

module _ (p : Program) where
  open p use {rt, mem}

  -- The voucher and then the state are saved last.
  pub saved_both :
      (v : Voucher) (vkey : Pubkey) (s : State) (key : Pubkey) (accs accs1 accs' : List AccountInfo)
      (w w1 w' : rt.World) (u u1 : Unit {0})
      → (vkey == key) ≡ false
      → save_entity rt mem (voucher_entity p) v vkey (accs, w) ≡ ok (u1, (accs1, w1))
      → save_entity rt mem (state_entity p) s key (accs1, w1) ≡ ok (u, (accs', w'))
      → (deserialize_from (voucher_entity p) (mem.contents w' vkey) ≡ ok v)
        × (deserialize_from (state_entity p) (mem.contents w' key) ≡ ok s)
        × ((k : Pubkey) → rt.tokens w' k ≡ rt.tokens w k)
        × ((k : Pubkey)
            → (k == vkey) ≡ false
            → (k == key) ≡ false
            → mem.contents w' k ≡ mem.contents w k)
  unfolding IsSaved
  saved_both v vkey s key accs accs1 accs' w w1 w' u u1 apart hv hs =
      let (v_there, v_others, v_tokens) =
        save_entity-IsSaved rt mem (voucher_entity p) v vkey accs accs1 w w1 u1
          (λ e. absurd (omega arith)) hv in
      let (s_there, others, s_tokens) =
        save_entity-IsSaved rt mem (state_entity p) s key accs1 accs' w1 w' u
          (λ e. absurd (omega arith)) hs in
      (
        rw (others vkey apart) v_there,
        s_there,
        λ k. s_tokens k ∙ v_tokens k,
        λ k not_v not_s. others k not_s ∙ v_others k not_v,
      )

  -- The balance of the voucher in an account.
  abbrev pub balance_of : Result ProgramError Voucher → ℕ
  balance_of (ok v) = v.balance
  balance_of (err e) = 0
  balance_of panic = 0

  unfoldable pub balance_in : rt.World → Pubkey → ℕ
  balance_in w k = balance_of (deserialize_from (voucher_entity p) (mem.contents w k))

  pub balance_in_ok :
      (w : rt.World) (k : Pubkey) (v : Voucher)
      → deserialize_from (voucher_entity p) (mem.contents w k) ≡ ok v
      → balance_in w k ≡ v.balance
  unfolding balance_in
  balance_in_ok w k v found = ap balance_of found

  -- The balances of the vouchers in some accounts, together.
  unfoldable pub held_by : List Pubkey → rt.World → ℕ
  held_by [] w = 0
  held_by (k ∷ ks) w = balance_in w k + held_by ks w

  held_by-same :
      (ks : List Pubkey) (w w' : rt.World) (k : Pubkey)
      → contains k ks ≡ false
      → ((j : Pubkey)
          → contains j ks ≡ true
          → (j == k) ≡ false
          → mem.contents w' j ≡ mem.contents w j)
      → held_by ks w' ≡ held_by ks w
  unfolding held_by balance_in
  held_by-same [] w w' k absent same = refl
  held_by-same (j ∷ ks) w w' k absent same =
      let rest = held_by-same ks w w' k (ground arith) (λ i h ne. same i (ground arith) ne) in
      let here =
        ap (λ d. balance_of (deserialize_from (voucher_entity p) d))
          (same j (ground (arith, ==_refl j)) (ground arith)) in
      omega (arith, rest, here)

  -- One voucher of the ledger changes, and no other one.
  pub held_by-changed :
      (ks : List Pubkey) (w w' : rt.World) (k : Pubkey)
      → IsDistinct ks
      → contains k ks ≡ true
      → ((j : Pubkey)
          → contains j ks ≡ true
          → (j == k) ≡ false
          → mem.contents w' j ≡ mem.contents w j)
      → held_by ks w' + balance_in w k ≡ held_by ks w + balance_in w' k
  unfolding held_by balance_in
  held_by-changed [] w w' k distinct there same = absurd (cc)
  held_by-changed (j ∷ ks) w w' k distinct there same = elim (Bool-cases (j == k)) [
    | inl here ↦
        let at : j ≡ k = ground arith in
        let absent : contains j ks ≡ false = distinct.0 in
        let rest = held_by-same ks w w' j absent (λ i h ne. same i (ground arith) (ground arith)) in
        let was = ap (balance_in w) at in
        let is = ap (balance_in w') at in omega (arith, rest, was, is)
    | inr other ↦
        let rest =
          held_by-changed ks w w' k distinct.1 (ground arith)
            (λ i h ne. same i (ground arith) ne) in
        let here =
          ap (λ d. balance_of (deserialize_from (voucher_entity p) d))
            (same j (ground (arith, ==_refl j)) other) in
        omega (arith, rest, here)
  ]
