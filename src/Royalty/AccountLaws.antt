-- ===== src/Royalty/AccountLaws.antt =====
-- What the creation and the migration of a royalty state leave.
use human_program_library.Base.Result.{ok}
use human_program_library.Base.{◌≡◌, List, arith, ◌!=◌, if◌then◌else◌, Pubkey, default_pubkey}
use human_program_library.Runtime.Chains.{bind_at-eq-ok, bind_at-known}
use human_program_library.Common.Entity.{deserialize_from}
use human_program_library.Common.Accounts.{AccountInfo, next_expected_token_wallet}
use human_program_library.Common.EntityAccounts.{next_entity}
use human_program_library.Common.EntityAccountLaws.{IsSaved, save_entity-IsSaved}
use human_program_library.Royalty.Defs.{State}
use human_program_library.Royalty.Program.{Program, state_entity}
use human_program_library.Royalty.Account.{process_migrate}

module _ (p : Program) where
  open p use {rt, mem}

  -- A migration sets the addresses and the mint of a state that has no mint, and leaves any other
  -- state as it is.
  pub migrate_once :
      (realm vault : Pubkey) (s : State) (key : Pubkey) (accs left accs' : List AccountInfo)
      (w w₀ w' : rt.World) (u : Unit {0})
      → next_entity rt mem (state_entity p) p.program_id (accs, w) ≡ ok ((s, key), (left, w₀))
      → process_migrate p realm vault (accs, w) ≡ ok (u, (accs', w'))
      → (mint : Pubkey) × (deserialize_from (state_entity p) (mem.contents w' key)
          ≡ ok (
              if s.token_mint != default_pubkey
              then s
              else record s { realm_addr = realm; vault_addr = vault; token_mint = mint }))
  unfolding process_migrate IsSaved
  migrate_once realm vault s key accs left accs' w w₀ w' u found h =
      let h1 =
        bind_at-known (next_entity rt mem (state_entity p) p.program_id (accs, w)) _ found h in
      let (wallet, (accs2, w2), there, h2) =
        bind_at-eq-ok (next_expected_token_wallet rt s.wallet (left, w₀)) _ h1 in
      let saved =
        save_entity-IsSaved rt mem (state_entity p)
          (if s.token_mint != default_pubkey
            then s
            else record s { realm_addr = realm; vault_addr = vault; token_mint = wallet.mint })
          key accs2 accs' w2 w' u (λ e. absurd (omega arith)) h2 in
      (wallet.mint, saved.0)
