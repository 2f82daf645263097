-- ===== src/Royalty/Refinement.antt =====
-- Deposits and withdrawals carry out the operations of a ledger.
use human_program_library.Common.Accounts.{AccountInfo}
use human_program_library.Royalty.Defs.{State}
use human_program_library.Royalty.Program.{Program}
use human_program_library.Royalty.VoucherLedger.{balance_in}
use human_program_library.Base.{
  ◌+◌, ◌-◌, ◌≡◌, true, some, List, ◌==◌, if◌then◌else◌, Pubkey, refl, false, inl, inr, ap, ◌≢◌,
  arith, Bool-cases,
}
use human_program_library.Base.Lists.{contains, contains-apart}
use human_program_library.Base.Result.{ok}
use human_program_library.Common.Entity.{deserialize_from}
use human_program_library.Royalty.Program.{state_entity, voucher_entity}
use human_program_library.Royalty.Tokens.{wallet_address}
use human_program_library.Royalty.VoucherLedger.{balance_of, balance_in_ok}
use human_program_library.Royalty.DepositLaws.{deposit_recorded, deposit_others}
use human_program_library.Royalty.WithdrawLaws.{withdraw_recorded, withdraw_others}
use human_program_library.Royalty.LedgerSpec.{
  Ledger, deposited, TokenCall, deposit_tokens, withdraw_tokens, spec_of, run_call, IsLedger,
}

module _ (p : Program) where
  open p use {rt, mem}

  -- The accounts of a call fit the ledger: its voucher is one of the accounts and was read from the
  -- world, the state and the weight records are not among them, and tokens move between two wallets.
  unfoldable pub IsCallOn : List Pubkey → State → Pubkey → rt.World → TokenCall → Type 0
  IsCallOn keys s key w (deposit_tokens a v n) =
      (contains a.voucher_acc.key keys ≡ true)
      × (contains key keys ≡ false)
      × (contains a.max_weight_record.key keys ≡ false)
      × (a.user_wallet ≢ wallet_address p key)
      × (deserialize_from (voucher_entity p) (mem.contents w a.voucher_acc.key) ≡ ok v)
  IsCallOn keys s key w (withdraw_tokens a n) =
      (contains a.voucher_key keys ≡ true)
      × (contains key keys ≡ false)
      × (contains a.max_weight_record.key keys ≡ false)
      × (contains a.vote_weight_record.key keys ≡ false)
      × (s.wallet ≢ a.user_wallet)
      × (deserialize_from (voucher_entity p) (mem.contents w a.voucher_key) ≡ ok a.voucher)

  balance_in-same :
      (w w' : rt.World) (k : Pubkey)
      → mem.contents w' k ≡ mem.contents w k
      → balance_in p w' k ≡ balance_in p w k
  unfolding balance_in
  balance_in-same w w' k same = ap (λ d. balance_of p (deserialize_from (voucher_entity p) d)) same

  -- The recording part of a deposit or a withdrawal (`record_deposit`, `record_withdraw`) that succeeds
  -- carries out its operation on the ledger that the state and its vouchers stand for, provided that
  -- its voucher is one of the accounts of the ledger and was read from the world, that neither the
  -- state nor the weight records are among these accounts, and that tokens move between two different
  -- wallets: the specification does not refuse it, and what is stored afterwards stands for its result.
  pub call_refines_ledger :
      (keys : List Pubkey) (s : State) (key : Pubkey) (l : Ledger) (c : TokenCall)
      (accs accs' : List AccountInfo) (w w' : rt.World) (u : Unit {0})
      → IsCallOn keys s key w c
      → IsLedger p keys s w l
      → run_call p c s key (accs, w) ≡ ok (u, (accs', w'))
      → (l' : Ledger) × (s' : State) × (spec_of c l ≡ some l')
        × (deserialize_from (state_entity p) (mem.contents w' key) ≡ ok s')
        × IsLedger p keys s' w' l'
  unfolding IsCallOn IsLedger run_call
  call_refines_ledger keys s key l (deposit_tokens a v n) accs accs' w w' u
        (there, no_state, no_max, wallets, found) (total, stands) h =
      let k = a.voucher_acc.key in
      let apart = contains-apart k key keys there no_state in
      let (_, _, _, _, v_there, s_there) =
        deposit_recorded p s key a n v accs accs' w w' u apart wallets h in
      let before = balance_in_ok p w k v found in
      let after = balance_in_ok p w' k (record v { balance = v.balance + n }) v_there in
      let was = stands k there in
      (
        deposited k n l,
        record s { tokens_held = s.tokens_held + n },
        refl,
        s_there,
        (
          ap (λ t. t + n) total,
          λ j among. elim (Bool-cases (j == k)) [
            | inl here ↦
                let at : j ≡ k = ground arith in
                let moved = ap (balance_in p w') at in let same = ap l.balance at in ground arith
            | inr other ↦
                let kept = balance_in-same w w' j (
                  deposit_others p s key a n v accs accs' w w' u j apart h other
                    (contains-apart j key keys among no_state)
                    (contains-apart j a.max_weight_record.key keys among no_max)) in
                let stood = stands j among in ground arith
          ],
        ),
      )
  call_refines_ledger keys s key l (withdraw_tokens a n) accs accs' w w' u
        (there, no_state, no_max, no_vote, wallets, found) (total, stands) h =
      let k = a.voucher_key in
      let apart = contains-apart k key keys there no_state in
      let (covered, _, _, _, v_there, s_there) =
        withdraw_recorded p s key a n accs accs' w w' u apart wallets h in
      let before = balance_in_ok p w k a.voucher found in
      let after =
        balance_in_ok p w' k (record a.voucher { balance = a.voucher.balance - n }) v_there in
      let was = stands k there in
      (
        record {
          total = l.total - n;
          balance = λ j. if j == k then l.balance j - n else l.balance j;
        },
        record s { tokens_held = s.tokens_held - n },
        ground arith,
        s_there,
        (
          ap (λ t. t - n) total,
          λ j among. elim (Bool-cases (j == k)) [
            | inl here ↦
                let at : j ≡ k = ground arith in
                let moved = ap (balance_in p w') at in let same = ap l.balance at in ground arith
            | inr other ↦
                let kept = balance_in-same w w' j (
                  withdraw_others p s key a n accs accs' w w' u j apart h other
                    (contains-apart j key keys among no_state)
                    (contains-apart j a.vote_weight_record.key keys among no_vote)
                    (contains-apart j a.max_weight_record.key keys among no_max)) in
                let stood = stands j among in ground arith
          ],
        ),
      )
