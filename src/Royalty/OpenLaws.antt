-- ===== src/Royalty/OpenLaws.antt =====
-- What opening a voucher on a first deposit changes (`process_deposit` of royalty/src/lib.rs).
use human_program_library.Base.Result.{ok}
use human_program_library.Base.{
  ◌∙◌, subst, some, ltb, ℕ, sym, ap, inl, inr, Bool-cases, List, ◌≡◌, refl, false, ◌==◌, arith,
  Pubkey,
}
use human_program_library.Runtime.Chains.{bind_at-eq-ok}
use human_program_library.Common.Entity.{deserialize_from, is_initialized}
use human_program_library.Common.Accounts.{AccountInfo, check, need}
use human_program_library.Common.EntityAccounts.{call_program, initialize_account}
use human_program_library.Common.EntityAccountLaws.{
  IsSaved, initialize_account-IsSaved, call_program_ok,
}
use human_program_library.Royalty.Defs.{State, Voucher}
use human_program_library.Royalty.Program.{Program, voucher_entity}
use human_program_library.Royalty.Tokens.{TokenAccounts, open_voucher, voucher_address}
use human_program_library.Royalty.VoucherLedger.{balance_in, balance_of}
use human_program_library.Base.Result.{ok_or}
use human_program_library.Base.Int.{pos}
use human_program_library.Base.Words.{checked_add, u32_limit}
use human_program_library.Royalty.Defs.{less_than_deposit_minimum, overflow}
use human_program_library.Royalty.Program.{error_of}
use human_program_library.Royalty.VoucherLedger.{balance_in_ok}
use human_program_library.Runtime.{system_create}

module _ (p : Program) where
  open p use {rt, mem}

  -- An account that is not in use counts as an empty voucher.
  unused_balance :
      (w : rt.World) (k : Pubkey)
      → is_initialized (voucher_entity p) (mem.contents w k) ≡ false
      → balance_in p w k ≡ 0
  unfolding balance_in deserialize_from is_initialized
  unused_balance w k h = ground arith

  -- A new voucher is empty, and creating it changes no other balance.
  opened_balance :
      (w1 w2 w3 w4 : rt.World) (payer addr vkey : Pubkey) (v : Voucher) (rent space : ℕ)
      (owner : Pubkey)
      → vkey ≡ addr
      → is_initialized (voucher_entity p) (mem.contents w1 vkey) ≡ false
      → rt.invoke (system_create payer addr rent space owner) w1 ≡ some w2
      → w3 ≡ w2
      → deserialize_from (voucher_entity p) (mem.contents w4 vkey) ≡ ok v
      → ((k : Pubkey) → (k == vkey) ≡ false → mem.contents w4 k ≡ mem.contents w3 k)
      → v.balance ≡ 0
      → (k : Pubkey) → balance_in p w4 k ≡ balance_in p w1 k
  unfolding balance_in
  opened_balance w1 w2 w3 w4 payer addr vkey v rent space owner at unused made same v_there others
        empty k =
      elim (Bool-cases (k == vkey)) [
        | inl here ↦
            let at_k : k ≡ vkey = ground arith in
            subst (λ j. balance_in p w4 j ≡ balance_in p w1 j) (sym at_k)
              (balance_in_ok p w4 vkey v v_there ∙ empty ∙ sym (unused_balance w1 vkey unused))
        | inr other ↦
            let kept : mem.contents w4 k ≡ mem.contents w1 k =
              others k other
              ∙ ap (λ x. mem.contents x k) same
              ∙ mem.contents-create payer addr rent space owner w1 w2 k (ground arith) made in
            ap (λ d. balance_of p (deserialize_from (voucher_entity p) d)) kept
      ]

  -- Whatever branch is taken, no balance changes, and the count of tokens stays.
  unfoldable pub IsOpened :
      State → TokenAccounts → rt.World → State → AccountInfo → rt.World → Type 0
  IsOpened s a w s' acc w' =
      (s'.tokens_held ≡ s.tokens_held)
      × (acc.key ≡ a.voucher_acc.key)
      × ((k : Pubkey) → balance_in p w' k ≡ balance_in p w k)

  open_unused-IsOpened :
      (s s' : State) (key : Pubkey) (a : TokenAccounts) (amount : ℕ) (accs left : List AccountInfo)
      (w w' : rt.World) (acc : AccountInfo)
      → a.voucher_acc.key ≡ voucher_address p key a.user.key
      → is_initialized (voucher_entity p) (mem.contents w a.voucher_acc.key) ≡ false
      → open_voucher p s key a amount (mem.contents w a.voucher_acc.key) (accs, w)
        ≡ ok ((s', acc), (left, w'))
      → IsOpened s a w s' acc w'
  unfolding open_voucher IsOpened IsSaved
  open_unused-IsOpened s s' key a amount accs left w w' acc at unused h =
      let h0 = rw unused at h in
      let (_, (l1, w1), enough, h1) =
        bind_at-eq-ok
          (check rt (ltb amount s.settings.min_token_to_enroll) (error_of less_than_deposit_minimum)
            (accs, w))
          _ h0 in
      let (_, (l2, w2), made, h2) =
        bind_at-eq-ok
          (call_program rt mem
            (system_create a.funder.key (voucher_address p key a.user.key) (rt.rent_minimum 128) 128
              p.program_id)
            (l1, w1))
          _ h1 in
      let (n, (l3, w3), counted, h3) =
        bind_at-eq-ok
          (need rt (ok_or (checked_add u32_limit s.vouchers_count 1) (error_of overflow)) (l2, w2))
          _ h2 in
      let v : Voucher = record {
        user = a.user.key;
        state = key;
        drop_idx = s.drop_idx;
        balance = 0;
        last_distribution = pos 0;
      } in
      let (u, (l4, w4), written, h4) =
        bind_at-eq-ok (initialize_account rt mem (voucher_entity p) v a.voucher_acc.key (l3, w3)) _
          h3 in
      let (_, (v_there, others, _)) =
        initialize_account-IsSaved rt mem (voucher_entity p) v a.voucher_acc.key l3 l4 w3 w4 u
          (λ e. absurd (omega arith)) written in
      let created_by =
        call_program_ok rt mem
          (system_create a.funder.key (voucher_address p key a.user.key) (rt.rent_minimum 128) 128
            p.program_id)
          (l1, w1) l2 w2 _ made in
      let e1 : w1 ≡ w = ground arith in
      let e3 : w3 ≡ w2 = ground arith in
      let e4 : w4 ≡ w' = ground arith in
      (
        ground arith,
        ground arith,
        λ k.
            ap (λ x. balance_in p x k) (sym e4)
            ∙ opened_balance w1 w2 w3 w4 a.funder.key (voucher_address p key a.user.key)
                a.voucher_acc.key v (rt.rent_minimum 128) 128 p.program_id at
                (subst
                  (λ x.
                    is_initialized (voucher_entity p) (mem.contents x a.voucher_acc.key) ≡ false)
                  (sym e1) unused)
                created_by e3 v_there others refl k
            ∙ ap (λ x. balance_in p x k) e1,
      )

  pub open_voucher-IsOpened :
      (s s' : State) (key : Pubkey) (a : TokenAccounts) (amount : ℕ) (accs left : List AccountInfo)
      (w w' : rt.World) (acc : AccountInfo)
      → a.voucher_acc.key ≡ voucher_address p key a.user.key
      → open_voucher p s key a amount (mem.contents w a.voucher_acc.key) (accs, w)
        ≡ ok ((s', acc), (left, w'))
      → IsOpened s a w s' acc w'
  unfolding open_voucher IsOpened
  open_voucher-IsOpened s s' key a amount accs left w w' acc at h =
      elim (Bool-cases (is_initialized (voucher_entity p) (mem.contents w a.voucher_acc.key))) [
        | inl used ↦
            let same : w ≡ w' = ground arith in
            (ground arith, ground arith, λ k. ap (λ x. balance_in p x k) (sym same))
        | inr unused ↦ open_unused-IsOpened s s' key a amount accs left w w' acc at unused h
      ]
