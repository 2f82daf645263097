-- ===== src/Royalty/Calls.antt =====
-- Whole calls of `process_withdraw` and `process_deposit` (royalty/src/lib.rs).
use human_program_library.Base.Result.{ok}
use human_program_library.Base.{ℕ, List, ◌≡◌, ◌≢◌, ◌+◌, ◌-◌, ◌≤◌, true, false, some, Pubkey}
use human_program_library.Base.Lists.{contains}
use human_program_library.Common.Entity.{deserialize_from}
use human_program_library.Common.Accounts.{AccountInfo}
use human_program_library.Common.EntityAccounts.{next_entity}
use human_program_library.Royalty.Defs.{State}
use human_program_library.Royalty.Program.{Program, state_entity, voucher_entity}
use human_program_library.Royalty.Withdraw.{WithdrawAccounts, withdraw_accounts, process_withdraw}
use human_program_library.Royalty.WithdrawLaws.{withdraw_recorded}
use human_program_library.Royalty.Reads.{process_withdraw_steps, read_apart}
use human_program_library.Royalty.LedgerSpec.{
  Ledger, withdrawn, withdraw_tokens, run_call, IsLedger,
}
use human_program_library.Royalty.Refinement.{IsCallOn, call_refines_ledger}
use human_program_library.Base.{sym, ap, subst, ◌∙◌, none}
use human_program_library.Runtime.Chains.{bind_at-eq-ok, bind_at-known}
use human_program_library.Common.EntityAccounts.{entity_from_acc}
use human_program_library.Royalty.Defs.{Voucher}
use human_program_library.Royalty.Distribute.{fixed_settings}
use human_program_library.Royalty.VoucherLedger.{balance_in}
use human_program_library.Royalty.Reads.{
  next_entity_read, entity_from_acc_read, deposit_accounts-Keeps, check_deposit-Keeps,
}
use human_program_library.Royalty.OpenLaws.{IsOpened, open_voucher-IsOpened}
use human_program_library.Royalty.LedgerSpec.{deposited, deposit_tokens}
use human_program_library.Royalty.Tokens.{
  TokenAccounts, deposit_accounts, check_deposit, open_voucher, record_deposit, process_deposit,
  wallet_address,
}

module _ (p : Program) where
  open p use {rt, mem}

  -- A withdrawal whose state and accounts are read as given, with the wallet of the state different
  -- from that of the user, succeeds only when the amount is covered by the voucher and by the tokens
  -- that the state counts; then the tokens have moved from the wallet of the state to the wallet of
  -- the user, and the voucher and the state are stored with the amount taken off both.
  pub process_withdraw_recorded :
      (amount : ℕ) (s : State) (key : Pubkey) (a : WithdrawAccounts)
      (accs left left' accs' : List AccountInfo) (w w₀ w₁ w' : rt.World) (u : Unit {0})
      → next_entity rt mem (state_entity p) p.program_id (accs, w) ≡ ok ((s, key), (left, w₀))
      → withdraw_accounts p s (left, w₀) ≡ ok (a, (left', w₁))
      → s.wallet ≢ a.user_wallet
      → process_withdraw p amount (accs, w) ≡ ok (u, (accs', w'))
      → (amount ≤ a.voucher.balance)
        × (amount ≤ s.tokens_held)
        × (rt.tokens w' s.wallet + amount ≡ rt.tokens w s.wallet)
        × (rt.tokens w' a.user_wallet ≡ rt.tokens w a.user_wallet + amount)
        × (deserialize_from (voucher_entity p) (mem.contents w' a.voucher_key)
            ≡ ok (record a.voucher { balance = a.voucher.balance - amount }))
        × (deserialize_from (state_entity p) (mem.contents w' key)
            ≡ ok (record s { tokens_held = s.tokens_held - amount }))
  process_withdraw_recorded amount s key a accs left left' accs' w w₀ w₁ w' u h1 h2 wallets h =
      let (s_there, v_there, rest, recorded) =
        process_withdraw_steps p amount s key a accs left left' accs' w w₀ w₁ w' u h1 h2 h in
      withdraw_recorded p s key a amount rest accs' w w' u
        (read_apart p w a.voucher_key key s a.voucher v_there s_there) wallets recorded

  -- A withdrawal carries out its operation on a ledger of vouchers. Let the state that it reads and
  -- some accounts stand for a ledger, the voucher that it reads be one of these accounts, the state
  -- and the weight records not be among them, and the wallet of the state differ from that of the
  -- user: when the withdrawal succeeds, the ledger does not refuse it, and the stored state and the
  -- accounts stand for the ledger with the amount taken off the voucher and off the total.
  pub withdraw_refines_ledger :
      (keys : List Pubkey) (l : Ledger) (amount : ℕ) (s : State) (key : Pubkey)
      (a : WithdrawAccounts) (accs left left' accs' : List AccountInfo) (w w₀ w₁ w' : rt.World)
      (u : Unit {0})
      → next_entity rt mem (state_entity p) p.program_id (accs, w) ≡ ok ((s, key), (left, w₀))
      → withdraw_accounts p s (left, w₀) ≡ ok (a, (left', w₁))
      → contains a.voucher_key keys ≡ true
      → contains key keys ≡ false
      → contains a.max_weight_record.key keys ≡ false
      → contains a.vote_weight_record.key keys ≡ false
      → s.wallet ≢ a.user_wallet
      → IsLedger p keys s w l
      → process_withdraw p amount (accs, w) ≡ ok (u, (accs', w'))
      → (l' : Ledger) × (s' : State) × (withdrawn a.voucher_key amount l ≡ some l')
        × (deserialize_from (state_entity p) (mem.contents w' key) ≡ ok s')
        × IsLedger p keys s' w' l'
  unfolding IsCallOn run_call
  withdraw_refines_ledger keys l amount s key a accs left left' accs' w w₀ w₁ w' u h1 h2 there
        no_state no_max no_vote wallets stands h =
      let (s_there, v_there, rest, recorded) =
        process_withdraw_steps p amount s key a accs left left' accs' w w₀ w₁ w' u h1 h2 h in
      call_refines_ledger p keys s key l (withdraw_tokens a amount) rest accs' w w' u
        (there, no_state, no_max, no_vote, wallets, v_there) stands recorded

  -- A deposit reads a state, opens the voucher where it is new, and records.
  process_deposit_steps :
      (amount : ℕ) (stored : State) (key : Pubkey) (a : TokenAccounts)
      (accs left left' accs' : List AccountInfo) (w w₀ w₁ w' : rt.World) (u : Unit {0})
      → next_entity rt mem (state_entity p) p.program_id (accs, w) ≡ ok ((stored, key), (left, w₀))
      → deposit_accounts p stored (left, w₀) ≡ ok (a, (left', w₁))
      → process_deposit p amount (accs, w) ≡ ok (u, (accs', w'))
      → (s : State) × (v : Voucher) × (rest : List AccountInfo) × (w₂ : rt.World) × (s.tokens_held
          ≡ stored.tokens_held)
        × ((k : Pubkey) → balance_in p w₂ k ≡ balance_in p w k)
        × (deserialize_from (voucher_entity p) (mem.contents w₂ a.voucher_acc.key) ≡ ok v)
        × (record_deposit p s key a amount v (rest, w₂) ≡ ok (u, (accs', w')))
  unfolding process_deposit IsOpened
  process_deposit_steps amount stored key a accs left left' accs' w w₀ w₁ w' u h1 h2 h =
      let fixed : State = record stored { settings = fixed_settings } in
      let k1 = bind_at-known (next_entity rt mem (state_entity p) p.program_id (accs, w)) _ h1 h in
      let k2 = bind_at-known (deposit_accounts p stored (left, w₀)) _ h2 k1 in
      let (_, (l3, w3), h3, k3) = bind_at-eq-ok (check_deposit p fixed key a (left', w₁)) _ k2 in
      let ((s, acc), (l4, w4), h4, k4) =
        bind_at-eq-ok
          (open_voucher p fixed key a amount (mem.contents w3 a.voucher_acc.key) (l3, w3)) _ k3 in
      let (v, (l5, w5), h5, k5) =
        bind_at-eq-ok (entity_from_acc rt mem (voucher_entity p) p.program_id acc (l4, w4)) _ k4 in
      let (e1, _) = next_entity_read p (state_entity p) accs left w w₀ stored key h1 in
      let (e2, _) = (deposit_accounts-Keeps p stored).runs (left, w₀) (a, (left', w₁)) h2 in
      let (e3, at) = (check_deposit-Keeps p fixed key a).runs (left', w₁) _ h3 in
      let (held, named, balances) =
        open_voucher-IsOpened p fixed s key a amount l3 l4 w3 w4 acc at h4 in
      let (e5, found) = entity_from_acc_read p (voucher_entity p) acc l4 l5 w4 w5 v h5 in
      let same : w ≡ w3 = e1 ∙ e2 ∙ e3 in
      (
        s,
        v,
        l5,
        w4,
        held,
        λ k. balances k ∙ ap (λ x. balance_in p x k) (sym same),
        subst (λ k. deserialize_from (voucher_entity p) (mem.contents w4 k) ≡ ok v) named found,
        subst (λ x. record_deposit p s key a amount v (l5, x) ≡ ok (u, (accs', w'))) (sym e5) k5,
      )

  -- A deposit carries out its operation on a ledger of vouchers, also where it is the first one and
  -- opens its voucher. Let the state that it reads and some accounts stand for a ledger, the account
  -- of the voucher be one of these accounts, the state and the record of the maximal weight not be
  -- among them, and the wallet of the user differ from the one derived for the state: when the deposit
  -- succeeds, the stored state and the accounts stand for the ledger with the amount added to the
  -- voucher and to the total.
  pub deposit_refines_ledger :
      (keys : List Pubkey) (l : Ledger) (amount : ℕ) (stored : State) (key : Pubkey)
      (a : TokenAccounts) (accs left left' accs' : List AccountInfo) (w w₀ w₁ w' : rt.World)
      (u : Unit {0})
      → next_entity rt mem (state_entity p) p.program_id (accs, w) ≡ ok ((stored, key), (left, w₀))
      → deposit_accounts p stored (left, w₀) ≡ ok (a, (left', w₁))
      → contains a.voucher_acc.key keys ≡ true
      → contains key keys ≡ false
      → contains a.max_weight_record.key keys ≡ false
      → a.user_wallet ≢ wallet_address p key
      → IsLedger p keys stored w l
      → process_deposit p amount (accs, w) ≡ ok (u, (accs', w'))
      → (s' : State) × (deserialize_from (state_entity p) (mem.contents w' key) ≡ ok s')
        × IsLedger p keys s' w' (deposited a.voucher_acc.key amount l)
  unfolding IsCallOn run_call IsLedger
  deposit_refines_ledger keys l amount stored key a accs left left' accs' w w₀ w₁ w' u h1 h2 there
        no_state no_max wallets (total, stands) h =
      let (s, v, rest, w₂, held, balances, v_there, recorded) =
        process_deposit_steps amount stored key a accs left left' accs' w w₀ w₁ w' u h1 h2 h in
      let (l', s', is_l', s_there, kept) =
        call_refines_ledger p keys s key l (deposit_tokens a v amount) rest accs' w₂ w' u
          (there, no_state, no_max, wallets, v_there)
          (held ∙ total, λ k among. balances k ∙ stands k among) recorded in
      let same : deposited a.voucher_acc.key amount l ≡ l' =
        ap (λ o. elim o [ none ↦ l | some x ↦ x ]) is_l' in
      (s', s_there, subst (λ x. IsLedger p keys s' w' x) (sym same) kept)
