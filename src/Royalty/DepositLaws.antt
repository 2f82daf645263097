-- ===== src/Royalty/DepositLaws.antt =====
-- What a deposit moves and records.
use human_program_library.Base.Lists.{sum, contains, IsDistinct}
use human_program_library.Base.Words.{checked_add, u64_limit}
use human_program_library.Base.Result.{ok, ok_or}
use human_program_library.Base.{
  ◌<◌, refl, ltb, true, sym, ap, subst, inl, inr, some, Bool-cases, ℕ, ◌+◌, ◌≡◌, ◌∙◌, ◌≢◌, false,
  List, arith, ◌==◌, Pubkey,
}
use human_program_library.Runtime.{token_transfer}
use human_program_library.Runtime.Chains.{bind_at-eq-ok}
use human_program_library.Common.Errors.{ProgramError}
use human_program_library.Common.Codec.{Bytes}
use human_program_library.Base.Lists.{contains-apart}
use human_program_library.Common.Entity.{deserialize_from}
use human_program_library.Common.Accounts.{AccountInfo, Cursor, need}
use human_program_library.Common.EntityAccounts.{call_program, save_entity}
use human_program_library.Common.EntityAccountLaws.{call_program_ok}
use human_program_library.Royalty.Defs.{State, Voucher, overflow}
use human_program_library.Royalty.Program.{Program, state_entity, voucher_entity, error_of}
use human_program_library.Royalty.Weights.{max_vote_weight, update_max_voter_weight}
use human_program_library.Royalty.WeightLaws.{
  IsApart, contents-IsApart, tokens-IsApart, update_max_voter_weight_keeps,
}
use human_program_library.Royalty.Tokens.{TokenAccounts, record_deposit, wallet_address}
use human_program_library.Royalty.VoucherLedger.{
  saved_both, held_by, held_by-changed, balance_in_ok,
}

module _ (p : Program) where
  open p use {rt, mem}

  checked_add_ok :
      (m n d : ℕ) (e : ProgramError) (at at' : Cursor rt)
      → need rt (ok_or (checked_add u64_limit m n) e) at ≡ ok (d, at')
      → (m + n < u64_limit) × (m + n ≡ d)
  checked_add_ok m n d e at at' h = elim (Bool-cases (ltb (m + n) u64_limit)) [
    | inl fits ↦ (ground arith, ground arith)
    | inr large ↦ absurd (ground arith)
  ]

  -- The steps of a deposit.
  deposit_steps :
      (s : State) (key : Pubkey) (a : TokenAccounts) (amount : ℕ) (v : Voucher)
      (accs accs' : List AccountInfo) (w w' : rt.World) (u : Unit {0})
      → record_deposit p s key a amount v (accs, w) ≡ ok (u, (accs', w'))
      → (w1 w6 w7 : rt.World) × (accs6 accs7 : List AccountInfo) × (u7 : Unit {0}) × (rt.invoke
            (token_transfer a.user_wallet (wallet_address p key) a.user.key amount)
            w
          ≡ some w1)
        × (v.balance + amount < u64_limit)
        × (s.tokens_held + amount < u64_limit)
        × ((A : Type 0) (f : rt.World → A) → IsApart p f a.max_weight_record a.funder → f w6 ≡ f w1)
        × (save_entity rt mem
              (voucher_entity p)
              (record v { balance = v.balance + amount })
              a.voucher_acc.key
              (accs6, w6)
            ≡ ok (u7, (accs7, w7)))
        × (save_entity rt mem
              (state_entity p)
              (record s { tokens_held = s.tokens_held + amount })
              key
              (accs7, w7)
            ≡ ok (u, (accs', w')))
  unfolding record_deposit
  deposit_steps s key a amount v accs accs' w w' u h =
      let (_, (accs1, w1), sent, h1) =
        bind_at-eq-ok
          (call_program rt mem
            (token_transfer a.user_wallet (wallet_address p key) a.user.key amount) (accs, w))
          _ h in
      let (balance, s2, b, h2) =
        bind_at-eq-ok
          (need rt (ok_or (checked_add u64_limit v.balance amount) (error_of overflow)) (accs1, w1))
          _ h1 in
      let (held, (accs3, w3), t, h3) =
        bind_at-eq-ok
          (need rt (ok_or (checked_add u64_limit s.tokens_held amount) (error_of overflow)) s2) _
          h2 in
      let (weight, s4, m, h4) =
        bind_at-eq-ok (need rt (max_vote_weight held a.vault a.owner_atoken) (accs3, w3)) _ h3 in
      let (_, (accs6, w6), most, h6) =
        bind_at-eq-ok
          (update_max_voter_weight p key s.realm_addr a.wallet.mint weight a.max_weight_record
            a.funder s4)
          _ h4 in
      let (_, (accs7, w7), hv, hs) =
        bind_at-eq-ok
          (save_entity rt mem (voucher_entity p) (record v { balance = balance }) a.voucher_acc.key
            (accs6, w6))
          _ h6 in
      let moved =
        call_program_ok rt mem
          (token_transfer a.user_wallet (wallet_address p key) a.user.key amount) (accs, w) accs1 w1
          _ sent in
      let (fits, sum) =
        checked_add_ok v.balance amount balance (error_of overflow) (accs1, w1) s2 b in
      let (fits', sum') =
        checked_add_ok s.tokens_held amount held (error_of overflow) s2 (accs3, w3) t in
      let same : w3 ≡ w1 = ground arith in
      let same' : s4.1 ≡ w3 = ground arith in
      (
        w1,
        w6,
        w7,
        accs6,
        accs7,
        _,
        moved,
        fits,
        fits',
        λ A f apart.
            update_max_voter_weight_keeps p f key s.realm_addr a.wallet.mint weight
              a.max_weight_record a.funder s4 accs6 w6 _ apart most
            ∙ ap f (same' ∙ same),
        subst
            (λ n.
              save_entity rt mem (voucher_entity p) (record v { balance = n }) a.voucher_acc.key
                (accs6, w6)
              ≡ ok (_, (accs7, w7)))
            (sym sum) hv,
        subst
            (λ n.
              save_entity rt mem (state_entity p) (record s { tokens_held = n }) key (accs7, w7)
              ≡ ok (u, (accs', w')))
            (sym sum') hs,
      )

  -- A deposit that succeeds overflows neither sum; the tokens have moved from the wallet of the user
  -- to the wallet derived for the state, and the voucher and the state are stored with the amount
  -- added to both.
  pub deposit_recorded :
      (s : State) (key : Pubkey) (a : TokenAccounts) (amount : ℕ) (v : Voucher)
      (accs accs' : List AccountInfo) (w w' : rt.World) (u : Unit {0})
      → (a.voucher_acc.key == key) ≡ false
      → a.user_wallet ≢ wallet_address p key
      → record_deposit p s key a amount v (accs, w) ≡ ok (u, (accs', w'))
      → (v.balance + amount < u64_limit)
        × (s.tokens_held + amount < u64_limit)
        × (rt.tokens w' (wallet_address p key) ≡ rt.tokens w (wallet_address p key) + amount)
        × (rt.tokens w' a.user_wallet + amount ≡ rt.tokens w a.user_wallet)
        × (deserialize_from (voucher_entity p) (mem.contents w' a.voucher_acc.key)
            ≡ ok (record v { balance = v.balance + amount }))
        × (deserialize_from (state_entity p) (mem.contents w' key)
            ≡ ok (record s { tokens_held = s.tokens_held + amount }))
  deposit_recorded s key a amount v accs accs' w w' u apart wallets h =
      let (w1, w6, w7, accs6, accs7, u7, moved, fits, fits', kept, hv, hs) =
        deposit_steps s key a amount v accs accs' w w' u h in
      let (paid, got) =
        rt.transfer_lem a.user_wallet (wallet_address p key) a.user.key amount w w1 wallets moved in
      let kept' : (k : Pubkey) → rt.tokens w6 k ≡ rt.tokens w1 k =
        λ k. kept ℕ (λ x. rt.tokens x k) (tokens-IsApart p k a.max_weight_record a.funder) in
      let (v_there, s_there, tokens, _) =
        saved_both p (record v { balance = v.balance + amount }) a.voucher_acc.key
          (record s { tokens_held = s.tokens_held + amount }) key accs6 accs7 accs' w6 w7 w' u u7
          apart hv hs in
      (
        fits,
        fits',
        tokens (wallet_address p key) ∙ kept' (wallet_address p key) ∙ got,
        ap (λ n. n + amount) (tokens a.user_wallet ∙ kept' a.user_wallet) ∙ paid,
        v_there,
        s_there,
      )

  -- The data of the accounts that a deposit does not name stays.
  pub deposit_others :
      (s : State) (key : Pubkey) (a : TokenAccounts) (amount : ℕ) (v : Voucher)
      (accs accs' : List AccountInfo) (w w' : rt.World) (u : Unit {0}) (k : Pubkey)
      → (a.voucher_acc.key == key) ≡ false
      → record_deposit p s key a amount v (accs, w) ≡ ok (u, (accs', w'))
      → (k == a.voucher_acc.key) ≡ false
      → (k == key) ≡ false
      → (k == a.max_weight_record.key) ≡ false
      → mem.contents w' k ≡ mem.contents w k
  deposit_others s key a amount v accs accs' w w' u k apart h not_v not_s not_max =
      let (w1, w6, w7, accs6, accs7, u7, moved, fits, fits', kept, hv, hs) =
        deposit_steps s key a amount v accs accs' w w' u h in
      let (_, _, _, others) =
        saved_both p (record v { balance = v.balance + amount }) a.voucher_acc.key
          (record s { tokens_held = s.tokens_held + amount }) key accs6 accs7 accs' w6 w7 w' u u7
          apart hv hs in
      others k not_v not_s
      ∙ kept Bytes (λ x. mem.contents x k)
          (contents-IsApart p k a.max_weight_record a.funder not_max)
      ∙ mem.contents-transfer a.user_wallet (wallet_address p key) a.user.key amount w w1 k moved

  -- A deposit on a voucher of the ledger keeps the books of a royalty state: when the state counts
  -- what a list of different vouchers holds, and neither the state nor the weight record is among
  -- these accounts, then the stored state counts what they hold afterwards.
  pub deposit_keeps_books :
      (keys : List Pubkey) (s : State) (key : Pubkey) (a : TokenAccounts) (amount : ℕ) (v : Voucher)
      (accs accs' : List AccountInfo) (w w' : rt.World) (u : Unit {0})
      → IsDistinct keys
      → contains a.voucher_acc.key keys ≡ true
      → contains key keys ≡ false
      → contains a.max_weight_record.key keys ≡ false
      → a.user_wallet ≢ wallet_address p key
      → deserialize_from (voucher_entity p) (mem.contents w a.voucher_acc.key) ≡ ok v
      → s.tokens_held ≡ held_by p keys w
      → record_deposit p s key a amount v (accs, w) ≡ ok (u, (accs', w'))
      → (s' : State) × (deserialize_from (state_entity p) (mem.contents w' key) ≡ ok s')
        × (s'.tokens_held ≡ held_by p keys w')
        × (s'.tokens_held ≡ s.tokens_held + amount)
  deposit_keeps_books keys s key a amount v accs accs' w w' u distinct there no_state no_max wallets
        found books h =
      let k = a.voucher_acc.key in
      let apart = contains-apart k key keys there no_state in
      let (fits, fits', _, _, v_there, s_there) =
        deposit_recorded s key a amount v accs accs' w w' u apart wallets h in
      let sums = held_by-changed p keys w w' k distinct there (λ j h' other.
        deposit_others s key a amount v accs accs' w w' u j apart h other
          (contains-apart j key keys h' no_state)
          (contains-apart j a.max_weight_record.key keys h' no_max)) in
      let before = balance_in_ok p w k v found in
      let after = balance_in_ok p w' k (record v { balance = v.balance + amount }) v_there in
      (record s { tokens_held = s.tokens_held + amount }, s_there, omega arith, refl)
