-- ===== src/Royalty/Reads.antt =====
-- What the handlers of deposits and withdrawals read before they change anything.
use human_program_library.Base.Result.{ok}
use human_program_library.Base.{
  subst, inl, inr, Bool-cases, List, [], ◌∷◌, ◌≡◌, ◌∙◌, sym, ap, false, ◌==◌, arith, Pubkey,
}
use human_program_library.Runtime.Chains.{bind_at-eq-ok}
use human_program_library.Common.Codec.{Bytes}
use human_program_library.Common.Entity.{Entity, deserialize_from, first_byte}
use human_program_library.Common.Accounts.{
  AccountInfo, next_account_info, next_expected_token_wallet, next_atoken_wallet,
  next_signer_account, next_expected_account,
}
use human_program_library.Common.Keeps.{
  Keeps, keeps_next, keeps_then, keeps_pure, keeps_next_account_info,
  keeps_next_expected_token_wallet, keeps_next_atoken_wallet, keeps_next_signer_account,
  keeps_next_expected_account,
}
use human_program_library.Runtime.Chains.{bind_at-known}
use human_program_library.Royalty.Withdraw.{process_withdraw, record_withdraw}
use human_program_library.Royalty.Tokens.{check_deposit, voucher_address}
use human_program_library.Common.EntityAccounts.{next_entity, entity_from_acc}
use human_program_library.Royalty.Defs.{State, Voucher}
use human_program_library.Royalty.Program.{Program, state_entity, voucher_entity}
use human_program_library.Royalty.Tokens.{TokenAccounts, deposit_accounts, owner_atoken_address}
use human_program_library.Royalty.Withdraw.{WithdrawAccounts, withdraw_accounts, check_withdraw}
use human_program_library.Royalty.Weights.{assert_no_unrequilished_votes}
use human_program_library.Base.{ℕ}

deserialize_from-magic :
    {A : Type 0} (e : Entity A) (bytes : Bytes) (a : A)
    → deserialize_from e bytes ≡ ok a
    → first_byte bytes ≡ e.magic
unfolding deserialize_from
deserialize_from-magic e bytes a h = ground arith

module _ (p : Program) where
  open p use {rt, mem}

  -- No account is read as a state and as a voucher.
  pub read_apart :
      (w : rt.World) (k key : Pubkey) (s : State) (v : Voucher)
      → deserialize_from (voucher_entity p) (mem.contents w k) ≡ ok v
      → deserialize_from (state_entity p) (mem.contents w key) ≡ ok s
      → (k == key) ≡ false
  read_apart w k key s v v_there s_there =
      let m = deserialize_from-magic (voucher_entity p) (mem.contents w k) v v_there in
      let m' = deserialize_from-magic (state_entity p) (mem.contents w key) s s_there in
      elim (Bool-cases (k == key)) [
        | inl here ↦
            let at : k ≡ key = ground arith in
            let same = ap (λ j. first_byte (mem.contents w j)) at in absurd (ground arith)
        | inr other ↦ other
      ]

  pub entity_from_acc_read :
      {A : Type 0} (e : Entity A) (acc : AccountInfo) (accs left : List AccountInfo)
      (w w' : rt.World) (a : A)
      → entity_from_acc rt mem e p.program_id acc (accs, w) ≡ ok (a, (left, w'))
      → (w ≡ w') × (deserialize_from e (mem.contents w acc.key) ≡ ok a)
  unfolding entity_from_acc
  entity_from_acc_read e acc accs left w w' a h = (ground arith, ground arith)

  pub next_entity_read :
      {A : Type 0} (e : Entity A) (accs left : List AccountInfo) (w w' : rt.World) (a : A)
      (key : Pubkey)
      → next_entity rt mem e p.program_id (accs, w) ≡ ok ((a, key), (left, w'))
      → (w ≡ w') × (deserialize_from e (mem.contents w key) ≡ ok a)
  unfolding next_entity entity_from_acc
  next_entity_read e [] left w w' a key h = (ground arith, ground arith)
  next_entity_read e (acc ∷ accs) left w w' a key h = (ground arith, ground arith)

  keeps_next_entity :
      {A : Type 0} (e : Entity A)
      → Keeps rt
          (next_entity rt mem e p.program_id)
          (λ w r. deserialize_from e (mem.contents w r.1) ≡ ok r.0)
  keeps_next_entity e = record {
    runs = λ at y h. next_entity_read e at.0 y.1.0 at.1 y.1.1 y.0.0 y.0.1 h;
  }

  withdraw_accounts-Keeps :
      (s : State)
      → Keeps rt
          (withdraw_accounts p s)
          (λ w a. deserialize_from (voucher_entity p) (mem.contents w a.voucher_key) ≡ ok a.voucher)
  unfolding withdraw_accounts
  withdraw_accounts-Keeps s =
      keeps_next rt (next_expected_token_wallet rt s.wallet)
        (keeps_next_expected_token_wallet rt s.wallet)
        λ wallet.
          keeps_then rt (next_entity rt mem (voucher_entity p) p.program_id)
            (λ w r. deserialize_from (voucher_entity p) (mem.contents w r.1) ≡ ok r.0)
            (keeps_next_entity (voucher_entity p))
            λ r.
              keeps_next rt (next_signer_account rt r.0.user)
                (keeps_next_signer_account rt r.0.user)
                λ _.
                  keeps_next rt (next_atoken_wallet rt r.0.user wallet.mint)
                    (keeps_next_atoken_wallet rt r.0.user wallet.mint)
                    λ t.
                      keeps_next rt (next_account_info rt) (keeps_next_account_info rt)
                        λ voter_record.
                          keeps_next rt (next_account_info rt) (keeps_next_account_info rt)
                            λ vote_weight_record.
                              keeps_next rt (next_expected_token_wallet rt s.vault_addr)
                                (keeps_next_expected_token_wallet rt s.vault_addr)
                                λ vault.
                                  keeps_next rt
                                    (next_expected_token_wallet rt (owner_atoken_address p s))
                                    (keeps_next_expected_token_wallet rt (owner_atoken_address p s))
                                    λ owner_atoken.
                                      keeps_next rt (next_account_info rt)
                                        (keeps_next_account_info rt)
                                        λ max_weight_record.
                                          keeps_next rt (next_account_info rt)
                                            (keeps_next_account_info rt)
                                            λ funder.
                                              keeps_next rt
                                                (next_expected_account rt rt.token_program)
                                                (keeps_next_expected_account rt rt.token_program)
                                                λ _.
                                                  keeps_next rt
                                                    (next_expected_account rt p.system_program)
                                                    (keeps_next_expected_account rt
                                                      p.system_program)
                                                    λ _. keeps_pure rt _ (λ w found. found)

  check_withdraw-Keeps :
      (s : State) (a : WithdrawAccounts) (amount : ℕ)
      → Keeps rt (check_withdraw p s a amount) (λ w u. Unit {0})
  unfolding check_withdraw assert_no_unrequilished_votes
  check_withdraw-Keeps s a amount = record { runs = λ at y h. (ground arith, tt) }

  pub deposit_accounts-Keeps : (s : State) → Keeps rt (deposit_accounts p s) (λ w a. Unit {0})
  unfolding deposit_accounts
  deposit_accounts-Keeps s =
      keeps_next rt (next_expected_token_wallet rt s.wallet)
        (keeps_next_expected_token_wallet rt s.wallet)
        λ wallet. keeps_next rt (next_account_info rt) (keeps_next_account_info rt) λ voucher_acc.
          keeps_next rt (next_account_info rt) (keeps_next_account_info rt) λ user.
            keeps_next rt (next_atoken_wallet rt user.key wallet.mint)
              (keeps_next_atoken_wallet rt user.key wallet.mint)
              λ t.
                keeps_next rt (next_expected_token_wallet rt s.vault_addr)
                  (keeps_next_expected_token_wallet rt s.vault_addr)
                  λ vault.
                    keeps_next rt (next_expected_token_wallet rt (owner_atoken_address p s))
                      (keeps_next_expected_token_wallet rt (owner_atoken_address p s))
                      λ owner_atoken.
                        keeps_next rt (next_account_info rt) (keeps_next_account_info rt)
                          λ max_weight_record.
                            keeps_next rt (next_account_info rt) (keeps_next_account_info rt)
                              λ funder.
                                keeps_next rt (next_expected_account rt p.system_program)
                                  (keeps_next_expected_account rt p.system_program)
                                  λ _.
                                    keeps_next rt (next_expected_account rt rt.token_program)
                                      (keeps_next_expected_account rt rt.token_program)
                                      λ _.
                                        keeps_next rt (next_expected_account rt p.instructions_id)
                                          (keeps_next_expected_account rt p.instructions_id)
                                          λ _. keeps_pure rt _ (λ w. tt)

  -- The voucher of a deposit is at the address of its user and state.
  pub check_deposit-Keeps :
      (s : State) (key : Pubkey) (a : TokenAccounts)
      → Keeps rt
          (check_deposit p s key a)
          (λ w u. a.voucher_acc.key ≡ voucher_address p key a.user.key)
  unfolding check_deposit
  check_deposit-Keeps s key a = record { runs = λ at y h. (ground arith, ground arith) }

  -- A withdrawal reads a state and a voucher, and then records in the same world.
  pub process_withdraw_steps :
      (amount : ℕ) (s : State) (key : Pubkey) (a : WithdrawAccounts)
      (accs left left' accs' : List AccountInfo) (w w₀ w₁ w' : rt.World) (u : Unit {0})
      → next_entity rt mem (state_entity p) p.program_id (accs, w) ≡ ok ((s, key), (left, w₀))
      → withdraw_accounts p s (left, w₀) ≡ ok (a, (left', w₁))
      → process_withdraw p amount (accs, w) ≡ ok (u, (accs', w'))
      → (deserialize_from (state_entity p) (mem.contents w key) ≡ ok s)
        × (deserialize_from (voucher_entity p) (mem.contents w a.voucher_key) ≡ ok a.voucher)
        × (rest : List AccountInfo) × (record_withdraw p s key a amount (rest, w)
            ≡ ok (u, (accs', w')))
  unfolding process_withdraw
  process_withdraw_steps amount s key a accs left left' accs' w w₀ w₁ w' u h1 h2 h =
      let k1 = bind_at-known (next_entity rt mem (state_entity p) p.program_id (accs, w)) _ h1 h in
      let k2 = bind_at-known (withdraw_accounts p s (left, w₀)) _ h2 k1 in
      let (_, (rest, w₂), h3, k3) = bind_at-eq-ok (check_withdraw p s a amount (left', w₁)) _ k2 in
      let (e1, s_there) = next_entity_read (state_entity p) accs left w w₀ s key h1 in
      let (e2, v_there) = (withdraw_accounts-Keeps s).runs (left, w₀) (a, (left', w₁)) h2 in
      let (e3, _) = (check_withdraw-Keeps s a amount).runs (left', w₁) _ h3 in
      let same : w ≡ w₂ = e1 ∙ e2 ∙ e3 in
      (
        s_there,
        subst
            (λ x. deserialize_from (voucher_entity p) (mem.contents x a.voucher_key) ≡ ok a.voucher)
            (sym e1) v_there,
        rest,
        subst (λ x. record_withdraw p s key a amount (rest, x) ≡ ok (u, (accs', w'))) (sym same) k3,
      )
