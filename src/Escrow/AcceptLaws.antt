-- ===== src/Escrow/AcceptLaws.antt =====
-- What accepting a request pays.
use human_program_library.Base.Result.{ok}
use human_program_library.Base.{
  ◌<◌, ◌≢◌, sym, ap, ◌∙◌, subst, true, some, ◌+◌, ◌≡◌, false, not, List, arith, ◌==◌, Pubkey,
}
use human_program_library.Runtime.{token_transfer, token_close, Cpi}
use human_program_library.Runtime.Chains.{bind_at-eq-ok}
use human_program_library.Runtime.Action.{bind_at}
use human_program_library.Escrow.EraseLaws.{erase_returns_rent, erase_keeps_tokens}
use human_program_library.Common.Errors.{custom}
use human_program_library.Common.Accounts.{AccountInfo, TokenState, Cursor, check, need}
use human_program_library.Escrow.Defs.{
  State, funded, is_open, accepted, try_accept, below_threshold,
}
use human_program_library.Escrow.Program.{Program}
use human_program_library.Escrow.Storage.{authority, invoke, erase_state, zeros}
use human_program_library.Escrow.Decide.{settle_accepted, accept_request}

module _ (p : Program) where
  open p use {rt, mem}

  invoke_ok :
      (c : Cpi) (at : Cursor rt) (accs' : List AccountInfo) (w' : rt.World) (u : Unit {0})
      → invoke p c at ≡ ok (u, (accs', w'))
      → (rt.invoke c at.1 ≡ some w') × (at.0 ≡ accs')
  invoke_ok c (accs, w) accs' w' u h = (ground arith, ground arith)

  try_accept_ok :
      (s s' : State)
      → try_accept s ≡ ok s'
      → (is_open s ≡ true)
        × (below_threshold s.request ≡ false)
        × (record s { request_status = accepted } ≡ s')
  unfolding try_accept
  try_accept_ok s s' h = (ground arith, ground arith, ground arith)

  -- The steps of `accept_request`.
  accept_steps :
      (s : State) (key payer : Pubkey) (wallet : TokenState) (dest : Pubkey)
      (accs accs' : List AccountInfo) (w w' : rt.World) (u : Unit {0})
      → accept_request p s key payer wallet dest (accs, w) ≡ ok (u, (accs', w'))
      → (accs1 : List AccountInfo) × (w1 : rt.World) × (is_open s ≡ true)
        × (below_threshold s.request ≡ false)
        × ((wallet.amount == 0) ≡ false)
        × (rt.invoke (token_transfer s.wallet dest (authority p key) wallet.amount) w ≡ some w1)
        × (settle_accepted p (record s { request_status = accepted }) key payer (accs1, w1)
            ≡ ok (u, (accs', w')))
  unfolding accept_request
  accept_steps s key payer wallet dest accs accs' w w' u h =
      let (_, s1, opened, h1) =
        bind_at-eq-ok (check rt (not (is_open s)) (custom 0x10) (accs, w)) _ h in
      let (_, (accs2, w2), some_left, h2) =
        bind_at-eq-ok (check rt (wallet.amount == 0) (custom 0x11) s1) _ h1 in
      let (s', (accs3, w3), took, h3) = bind_at-eq-ok (need rt (try_accept s) (accs2, w2)) _ h2 in
      let (_, (accs4, w4), sent, h4) =
        bind_at-eq-ok
          (invoke p (token_transfer s'.wallet dest (authority p key) wallet.amount) (accs3, w3)) _
          h3 in
      let (opened', reached, same) = try_accept_ok s s' (ground arith) in
      let (moved, _) =
        invoke_ok (token_transfer s'.wallet dest (authority p key) wallet.amount) (accs3, w3) accs4
          w4 _ sent in
      let at : w3 ≡ w = ground arith in
      let sent' =
        subst
          (λ x.
            rt.invoke (token_transfer s'.wallet dest (authority p key) wallet.amount) x ≡ some w4)
          at moved in
      (
        accs4,
        w4,
        opened',
        reached,
        ground arith,
        subst
            (λ (x : State).
              rt.invoke (token_transfer x.wallet dest (authority p key) wallet.amount) w ≡ some w4)
            (sym same) sent',
        subst (λ (x : State). settle_accepted p x key payer (accs4, w4) ≡ ok (u, (accs', w')))
            (sym same) h4,
      )

  -- The end of an accepted funded request: its wallet is closed and the request is erased.
  settle_funded_steps :
      (s : State) (author key payer : Pubkey) (accs accs' : List AccountInfo) (w w' : rt.World)
      (u : Unit {0})
      → s.request ≡ funded author
      → settle_accepted p s key payer (accs, w) ≡ ok (u, (accs', w'))
      → (accs2 : List AccountInfo) × (w2 : rt.World) × (rt.invoke
            (token_close s.wallet payer (authority p key))
            w
          ≡ some w2)
        × (erase_state p s key payer (accs2, w2) ≡ ok (u, (accs', w')))
  unfolding settle_accepted
  settle_funded_steps s author key payer accs accs' w w' u kind h =
      let close = token_close s.wallet payer (authority p key) in
      let closing : bind_at (invoke p close (accs, w)) (λ x. erase_state p s key payer)
          ≡ ok (u, (accs', w')) =
        ground arith in
      let (_, (accs2, w2), closed, h1) = bind_at-eq-ok (invoke p close (accs, w)) _ closing in
      (accs2, w2, (invoke_ok close (accs, w) accs2 w2 _ closed).0, h1)

  -- Accepting a funded request (`accept_request`) succeeds only when it is open and its wallet holds
  -- tokens; then, where the wallet of the request is neither its account nor the wallet of the
  -- destination and the payer is not that account, the destination has got all these tokens, and the
  -- account of the request is erased: its data is zero and its lamports are gone.
  pub accept_funded_pays :
      (s : State) (author key payer : Pubkey) (wallet : TokenState) (dest : Pubkey)
      (accs accs' : List AccountInfo) (w w' : rt.World) (u : Unit {0})
      → s.request ≡ funded author
      → s.wallet ≢ dest
      → key ≢ s.wallet
      → key ≢ payer
      → accept_request p s key payer wallet dest (accs, w) ≡ ok (u, (accs', w'))
      → (is_open s ≡ true)
        × (0 < wallet.amount)
        × (rt.tokens w' dest ≡ rt.tokens w dest + wallet.amount)
        × (mem.contents w' key ≡ zeros (mem.contents w key))
        × (mem.lamports w' key ≡ 0)
  accept_funded_pays s author key payer wallet dest accs accs' w w' u kind apart not_key not_payer
        h =
      let s' = record s { request_status = accepted } in
      let (accs1, w1, opened, _, held, sent, settled) =
        accept_steps s key payer wallet dest accs accs' w w' u h in
      let (accs2, w2, closed, erased_by) =
        settle_funded_steps s' author key payer accs1 accs' w1 w' u kind settled in
      let (_, got) =
        rt.transfer_lem s.wallet dest (authority p key) wallet.amount w w1 apart sent in
      let (_, _, no_rent, _, zero_data) =
        erase_returns_rent p s' key payer accs2 accs' w2 w' u (ground arith) (ground arith)
          erased_by in
      (
        opened,
        ground arith,
        erase_keeps_tokens p s' key payer accs2 accs' w2 w' u dest erased_by
            ∙ mem.tokens-close s.wallet payer (authority p key) w1 w2 dest (λ e. apart (sym e))
                closed
            ∙ got,
        zero_data
            ∙ ap zeros (
                mem.contents-close s.wallet payer (authority p key) w1 w2 key not_key closed
                ∙ mem.contents-transfer s.wallet dest (authority p key) wallet.amount w w1 key
                    sent),
        no_rent,
      )
