-- ===== src/Escrow/EraseLaws.antt =====
-- What erasing a request leaves.
use human_program_library.Base.Result.{ok}
use human_program_library.Base.{sym, ap, ◌∙◌, ◌+◌, ◌≡◌, false, List, arith, ◌==◌, Pubkey, ==_refl}
use human_program_library.Common.Accounts.{AccountInfo}
use human_program_library.Escrow.Defs.{State, is_open, open_status, request_status_eq}
use human_program_library.Escrow.Program.{Program}
use human_program_library.Escrow.Storage.{erase_state, zeros, collected_of}

module _ (p : Program) where
  open p use {rt, mem}

  -- The world after `erase_state`.
  erased : Pubkey → Pubkey → rt.World → rt.World
  erased key payer w =
      let w1 = mem.set_lamports key 0 w in
      let w2 = mem.set_lamports payer (mem.lamports w1 payer + mem.lamports w key) w1 in
      mem.set_contents key (zeros (mem.contents w2 key)) w2

  erase_state_ok :
      (s : State) (key payer : Pubkey) (accs accs' : List AccountInfo) (w w' : rt.World)
      (u : Unit {0})
      → erase_state p s key payer (accs, w) ≡ ok (u, (accs', w'))
      → (request_status_eq s.request_status open_status ≡ false)
        × (collected_of s.request ≡ 0)
        × (erased key payer w ≡ w')
  unfolding erase_state erased
  erase_state_ok s key payer accs accs' w w' u h = (ground arith, ground arith, ground arith)

  erased_lem :
      (key payer : Pubkey) (w : rt.World)
      → (payer == key) ≡ false
      → (key == payer) ≡ false
      → (mem.lamports (erased key payer w) key ≡ 0)
        × (mem.lamports (erased key payer w) payer ≡ mem.lamports w payer + mem.lamports w key)
        × (mem.contents (erased key payer w) key ≡ zeros (mem.contents w key))
  unfolding erased
  erased_lem key payer w apart apart' =
      let w1 = mem.set_lamports key 0 w in
      let n = mem.lamports w1 payer + mem.lamports w key in
      let w2 = mem.set_lamports payer n w1 in
      let d = zeros (mem.contents w2 key) in
      let e1 = mem.lamports-set_contents key key d w2 in
      let e2 = mem.lamports-set_lamports payer key n w1 in
      let e3 = mem.lamports-set_lamports key key 0 w in
      let e4 = mem.lamports-set_contents key payer d w2 in
      let e5 = mem.lamports-set_lamports payer payer n w1 in
      let e6 = mem.lamports-set_lamports key payer 0 w in
      let e7 = mem.contents-set_contents key key d w2 in
      let e8 = mem.contents-set_lamports payer key n w1 in
      let e9 = mem.contents-set_lamports key key 0 w in
      (
        ground (arith, e1, e2, e3, ==_refl key),
        ground (arith, e4, e5, e6, ==_refl payer),
        ground (arith, e7, ==_refl key) ∙ ap zeros (e8 ∙ e9),
      )

  -- Erasing a request succeeds only when it is decided and nothing that was collected is left; then
  -- all lamports of its account have gone to the payer and all its data is zero.
  pub erase_returns_rent :
      (s : State) (key payer : Pubkey) (accs accs' : List AccountInfo) (w w' : rt.World)
      (u : Unit {0})
      → (payer == key) ≡ false
      → (key == payer) ≡ false
      → erase_state p s key payer (accs, w) ≡ ok (u, (accs', w'))
      → (is_open s ≡ false)
        × (collected_of s.request ≡ 0)
        × (mem.lamports w' key ≡ 0)
        × (mem.lamports w' payer ≡ mem.lamports w payer + mem.lamports w key)
        × (mem.contents w' key ≡ zeros (mem.contents w key))
  erase_returns_rent s key payer accs accs' w w' u apart apart' h =
      let (closed, paid_off, done) = erase_state_ok s key payer accs accs' w w' u h in
      let (e1, e2, e3) = erased_lem key payer w apart apart' in
      let l1 = ap (λ x. mem.lamports x key) done in
      let l2 = ap (λ x. mem.lamports x payer) done in
      let l3 = ap (λ x. mem.contents x key) done in
      (closed, paid_off, sym l1 ∙ e1, sym l2 ∙ e2, sym l3 ∙ e3)

  -- Erasing a request moves no tokens.
  pub erase_keeps_tokens :
      (s : State) (key payer : Pubkey) (accs accs' : List AccountInfo) (w w' : rt.World)
      (u : Unit {0}) (k : Pubkey)
      → erase_state p s key payer (accs, w) ≡ ok (u, (accs', w'))
      → rt.tokens w' k ≡ rt.tokens w k
  unfolding erased
  erase_keeps_tokens s key payer accs accs' w w' u k h =
      let (_, _, done) = erase_state_ok s key payer accs accs' w w' u h in
      let w1 = mem.set_lamports key 0 w in
      let n = mem.lamports w1 payer + mem.lamports w key in
      let w2 = mem.set_lamports payer n w1 in
      ap (λ x. rt.tokens x k) (sym done)
      ∙ mem.tokens-set_contents key k (zeros (mem.contents w2 key)) w2
      ∙ mem.tokens-set_lamports payer k n w1
      ∙ mem.tokens-set_lamports key k 0 w
