-- ===== src/Royalty/WithdrawLaws.antt =====
-- What a withdrawal moves and records.
use human_program_library.Base.Lists.{contains, IsDistinct}
use human_program_library.Base.Words.{checked_sub}
use human_program_library.Base.Result.{ok, ok_or}
use human_program_library.Base.{
  true, sym, ap, subst, inl, inr, some, leb, Bool-cases, ℕ, ◌+◌, ◌-◌, ◌≤◌, ◌≡◌, ◌∙◌, ◌≢◌, false,
  List, arith, ◌==◌, Pubkey,
}
use human_program_library.Runtime.{token_transfer}
use human_program_library.Runtime.Chains.{bind_at-eq-ok}
use human_program_library.Common.Errors.{ProgramError}
use human_program_library.Common.Codec.{Bytes}
use human_program_library.Base.Lists.{contains-apart}
use human_program_library.Common.Entity.{deserialize_from}
use human_program_library.Common.Accounts.{AccountInfo, Cursor, need}
use human_program_library.Common.EntityAccounts.{call_program, save_entity}
use human_program_library.Common.EntityAccountLaws.{call_program_ok}
use human_program_library.Royalty.Defs.{State, overflow}
use human_program_library.Royalty.Program.{Program, state_entity, voucher_entity, error_of}
use human_program_library.Royalty.Weights.{
  max_vote_weight, update_voter_weight, update_max_voter_weight,
}
use human_program_library.Royalty.WeightLaws.{
  IsApart, contents-IsApart, tokens-IsApart, update_voter_weight_keeps,
  update_max_voter_weight_keeps,
}
use human_program_library.Royalty.Withdraw.{WithdrawAccounts, record_withdraw}
use human_program_library.Royalty.VoucherLedger.{
  saved_both, held_by, held_by-changed, balance_in_ok,
}

module _ (p : Program) where
  open p use {rt, mem}

  checked_sub_ok :
      (m n d : ℕ) (e : ProgramError) (at at' : Cursor rt)
      → need rt (ok_or (checked_sub m n) e) at ≡ ok (d, at')
      → (n ≤ m) × (m - n ≡ d)
  checked_sub_ok m n d e at at' h = elim (Bool-cases (leb n m)) [
    | inl le ↦ (ground arith, ground arith)
    | inr gt ↦ absurd (ground arith)
  ]

  -- The steps of a withdrawal.
  withdraw_steps :
      (s : State) (key : Pubkey) (a : WithdrawAccounts) (amount : ℕ) (accs accs' : List AccountInfo)
      (w w' : rt.World) (u : Unit {0})
      → record_withdraw p s key a amount (accs, w) ≡ ok (u, (accs', w'))
      → (w1 w6 w7 : rt.World) × (accs6 accs7 : List AccountInfo) × (u7 : Unit {0}) × (rt.invoke
            (token_transfer s.wallet a.user_wallet s.wallet amount)
            w
          ≡ some w1)
        × (amount ≤ a.voucher.balance)
        × (amount ≤ s.tokens_held)
        × ((A : Type 0) (f : rt.World → A)
            → IsApart p f a.vote_weight_record a.funder
            → IsApart p f a.max_weight_record a.funder
            → f w6 ≡ f w1)
        × (save_entity rt mem
              (voucher_entity p)
              (record a.voucher { balance = a.voucher.balance - amount })
              a.voucher_key
              (accs6, w6)
            ≡ ok (u7, (accs7, w7)))
        × (save_entity rt mem
              (state_entity p)
              (record s { tokens_held = s.tokens_held - amount })
              key
              (accs7, w7)
            ≡ ok (u, (accs', w')))
  unfolding record_withdraw
  withdraw_steps s key a amount accs accs' w w' u h =
      let (_, (accs1, w1), sent, h1) =
        bind_at-eq-ok
          (call_program rt mem (token_transfer s.wallet a.user_wallet s.wallet amount) (accs, w)) _
          h in
      let (balance, s2, b, h2) =
        bind_at-eq-ok
          (need rt (ok_or (checked_sub a.voucher.balance amount) (error_of overflow)) (accs1, w1)) _
          h1 in
      let (held, (accs3, w3), t, h3) =
        bind_at-eq-ok (need rt (ok_or (checked_sub s.tokens_held amount) (error_of overflow)) s2) _
          h2 in
      let (weight, s4, m, h4) =
        bind_at-eq-ok (need rt (max_vote_weight held a.vault a.owner_atoken) (accs3, w3)) _ h3 in
      let (_, (accs5, w5), voted, h5) =
        bind_at-eq-ok
          (update_voter_weight p key s.realm_addr a.wallet.mint a.voucher.user balance
            a.vote_weight_record a.funder s4)
          _ h4 in
      let (_, (accs6, w6), most, h6) =
        bind_at-eq-ok
          (update_max_voter_weight p key s.realm_addr a.wallet.mint weight a.max_weight_record
            a.funder (accs5, w5))
          _ h5 in
      let (_, (accs7, w7), hv, hs) =
        bind_at-eq-ok
          (save_entity rt mem (voucher_entity p) (record a.voucher { balance = balance })
            a.voucher_key (accs6, w6))
          _ h6 in
      let moved =
        call_program_ok rt mem (token_transfer s.wallet a.user_wallet s.wallet amount) (accs, w)
          accs1 w1 _ sent in
      let (least, left) =
        checked_sub_ok a.voucher.balance amount balance (error_of overflow) (accs1, w1) s2 b in
      let (least', left') =
        checked_sub_ok s.tokens_held amount held (error_of overflow) s2 (accs3, w3) t in
      let same : w3 ≡ w1 = ground arith in
      let same' : s4.1 ≡ w3 = ground arith in
      (
        w1,
        w6,
        w7,
        accs6,
        accs7,
        _,
        moved,
        least,
        least',
        λ A f apart apart'.
            update_max_voter_weight_keeps p f key s.realm_addr a.wallet.mint weight
              a.max_weight_record a.funder (accs5, w5) accs6 w6 _ apart' most
            ∙ update_voter_weight_keeps p f key s.realm_addr a.wallet.mint a.voucher.user balance
                a.vote_weight_record a.funder s4 accs5 w5 _ apart voted
            ∙ ap f (same' ∙ same),
        subst
            (λ n.
              save_entity rt mem (voucher_entity p) (record a.voucher { balance = n }) a.voucher_key
                (accs6, w6)
              ≡ ok (_, (accs7, w7)))
            (sym left) hv,
        subst
            (λ n.
              save_entity rt mem (state_entity p) (record s { tokens_held = n }) key (accs7, w7)
              ≡ ok (u, (accs', w')))
            (sym left') hs,
      )

  -- Where the voucher is not in the account of the state and the wallet of the state is not the
  -- wallet of the user, the recording part of a withdrawal (`record_withdraw`) succeeds only when the
  -- amount is covered by the voucher and by the tokens that the state counts; then the tokens have
  -- moved from the wallet of the state to the wallet of the user, and the voucher and the state are
  -- stored with the amount taken off both.
  pub withdraw_recorded :
      (s : State) (key : Pubkey) (a : WithdrawAccounts) (amount : ℕ) (accs accs' : List AccountInfo)
      (w w' : rt.World) (u : Unit {0})
      → (a.voucher_key == key) ≡ false
      → s.wallet ≢ a.user_wallet
      → record_withdraw p s key a amount (accs, w) ≡ ok (u, (accs', w'))
      → (amount ≤ a.voucher.balance)
        × (amount ≤ s.tokens_held)
        × (rt.tokens w' s.wallet + amount ≡ rt.tokens w s.wallet)
        × (rt.tokens w' a.user_wallet ≡ rt.tokens w a.user_wallet + amount)
        × (deserialize_from (voucher_entity p) (mem.contents w' a.voucher_key)
            ≡ ok (record a.voucher { balance = a.voucher.balance - amount }))
        × (deserialize_from (state_entity p) (mem.contents w' key)
            ≡ ok (record s { tokens_held = s.tokens_held - amount }))
  withdraw_recorded s key a amount accs accs' w w' u apart wallets h =
      let (w1, w6, w7, accs6, accs7, u7, moved, least, least', kept, hv, hs) =
        withdraw_steps s key a amount accs accs' w w' u h in
      let (paid, got) = rt.transfer_lem s.wallet a.user_wallet s.wallet amount w w1 wallets moved in
      let kept' : (k : Pubkey) → rt.tokens w6 k ≡ rt.tokens w1 k = λ k.
        kept ℕ (λ x. rt.tokens x k) (tokens-IsApart p k a.vote_weight_record a.funder)
          (tokens-IsApart p k a.max_weight_record a.funder) in
      let (v_there, s_there, tokens, _) =
        saved_both p (record a.voucher { balance = a.voucher.balance - amount }) a.voucher_key
          (record s { tokens_held = s.tokens_held - amount }) key accs6 accs7 accs' w6 w7 w' u u7
          apart hv hs in
      (
        least,
        least',
        ap (λ n. n + amount) (tokens s.wallet ∙ kept' s.wallet) ∙ paid,
        tokens a.user_wallet ∙ kept' a.user_wallet ∙ got,
        v_there,
        s_there,
      )

  -- The data of the accounts that a withdrawal does not name stays.
  pub withdraw_others :
      (s : State) (key : Pubkey) (a : WithdrawAccounts) (amount : ℕ) (accs accs' : List AccountInfo)
      (w w' : rt.World) (u : Unit {0}) (k : Pubkey)
      → (a.voucher_key == key) ≡ false
      → record_withdraw p s key a amount (accs, w) ≡ ok (u, (accs', w'))
      → (k == a.voucher_key) ≡ false
      → (k == key) ≡ false
      → (k == a.vote_weight_record.key) ≡ false
      → (k == a.max_weight_record.key) ≡ false
      → mem.contents w' k ≡ mem.contents w k
  withdraw_others s key a amount accs accs' w w' u k apart h not_v not_s not_vote not_max =
      let (w1, w6, w7, accs6, accs7, u7, moved, least, least', kept, hv, hs) =
        withdraw_steps s key a amount accs accs' w w' u h in
      let (_, _, _, others) =
        saved_both p (record a.voucher { balance = a.voucher.balance - amount }) a.voucher_key
          (record s { tokens_held = s.tokens_held - amount }) key accs6 accs7 accs' w6 w7 w' u u7
          apart hv hs in
      others k not_v not_s
      ∙ kept Bytes (λ x. mem.contents x k)
          (contents-IsApart p k a.vote_weight_record a.funder not_vote)
          (contents-IsApart p k a.max_weight_record a.funder not_max)
      ∙ mem.contents-transfer s.wallet a.user_wallet s.wallet amount w w1 k moved

  -- A withdrawal from a voucher of the ledger keeps the books of a royalty state: when the state
  -- counts what a list of different vouchers holds, and neither the state nor the weight records are
  -- among these accounts, then the stored state counts what they hold afterwards.
  pub withdraw_keeps_books :
      (keys : List Pubkey) (s : State) (key : Pubkey) (a : WithdrawAccounts) (amount : ℕ)
      (accs accs' : List AccountInfo) (w w' : rt.World) (u : Unit {0})
      → IsDistinct keys
      → contains a.voucher_key keys ≡ true
      → contains key keys ≡ false
      → contains a.vote_weight_record.key keys ≡ false
      → contains a.max_weight_record.key keys ≡ false
      → s.wallet ≢ a.user_wallet
      → deserialize_from (voucher_entity p) (mem.contents w a.voucher_key) ≡ ok a.voucher
      → s.tokens_held ≡ held_by p keys w
      → record_withdraw p s key a amount (accs, w) ≡ ok (u, (accs', w'))
      → (s' : State) × (deserialize_from (state_entity p) (mem.contents w' key) ≡ ok s')
        × (s'.tokens_held ≡ held_by p keys w')
        × (s'.tokens_held + amount ≡ s.tokens_held)
  withdraw_keeps_books keys s key a amount accs accs' w w' u distinct there no_state no_vote no_max
        wallets found books h =
      let apart = contains-apart a.voucher_key key keys there no_state in
      let (least, least', _, _, v_there, s_there) =
        withdraw_recorded s key a amount accs accs' w w' u apart wallets h in
      let sums = held_by-changed p keys w w' a.voucher_key distinct there (λ j h' other.
        withdraw_others s key a amount accs accs' w w' u j apart h other
          (contains-apart j key keys h' no_state)
          (contains-apart j a.vote_weight_record.key keys h' no_vote)
          (contains-apart j a.max_weight_record.key keys h' no_max)) in
      let before = balance_in_ok p w a.voucher_key a.voucher found in
      let after =
        balance_in_ok p w' a.voucher_key (record a.voucher { balance = a.voucher.balance - amount })
          v_there in
      (record s { tokens_held = s.tokens_held - amount }, s_there, omega arith, omega arith)
