-- ===== src/Human/ContractLaws.antt =====
-- Who may change the state of a contract, and what the changes leave.
use human_program_library.Base.Lists.{length}
use human_program_library.Base.Int.{ℤ}
use human_program_library.Base.Result.{ok}
use human_program_library.Base.{
  refl, false, Option, none, some, ◌≤◌, ap, ◌∙◌, true, List, ==_refl, ◌<◌, ◌≡◌, ◌∷◌, arith, Pubkey,
}
use human_program_library.Runtime.Chains.{bind_at-eq-ok, bind_at-known}
use human_program_library.Common.Codec.{Bytes}
use human_program_library.Common.Entity.{
  is_empty, copy_slice, tail_of, serialize_to, deserialize_from,
}
use human_program_library.Common.EntityLaws.{deserialize_from-serialize_to}
use human_program_library.Common.Accounts.{AccountInfo, Cursor, next_signer_account}
use human_program_library.Common.EntityAccounts.{next_entity}
use human_program_library.Common.EntityAccountLaws.{IsSaved, save_entity-IsSaved}
use human_program_library.Human.State.{ContractState}
use human_program_library.Human.Program.{
  OldSplit, Program, ContractStateV3, contract_state, contract_state_v3,
}
use human_program_library.Human.Migration.{split_or, migrate, from_v3, try_migrate_state}
use human_program_library.Human.Contract.{process_migrate_state, process_set_admin}

split_or_lem :
    (split : Option OldSplit) (treasury : Pubkey)
    → split_or split treasury ≡ elim split [ none ↦ treasury | some old ↦ old.split_addr ]
unfolding split_or
split_or_lem none treasury = refl
split_or_lem (some old) treasury = refl

module _ (p : Program) where
  open p use {rt, mem}

  room_v3 :
      (bytes : Bytes) (v3 : ContractStateV3)
      → deserialize_from (contract_state_v3 p) bytes ≡ ok v3
      → 513 ≤ length bytes
  unfolding deserialize_from
  room_v3 bytes v3 h = ground arith

  laid :
      (s : ContractState) (bytes : Bytes)
      → length (p.states.encode s) < 513
      → 513 ≤ length bytes
      → serialize_to (contract_state p) s bytes
        ≡ ok (0x45 ∷ copy_slice (tail_of bytes) (p.states.encode s))
  unfolding serialize_to
  laid s bytes small room = ground arith

  -- The data that the migration of an old state leaves.
  migrated_data :
      (bytes : Bytes) (v3 : ContractStateV3) (swap commission treasury : Pubkey) (now : ℤ)
      → deserialize_from (contract_state_v3 p) bytes ≡ ok v3
      → (is_empty bytes ≡ false)
        × (try_migrate_state p bytes swap commission treasury now
            ≡ ok (
                0x45
                ∷ copy_slice
                    (tail_of bytes)
                    (p.states.encode (migrate v3 swap commission treasury now))))
  unfolding deserialize_from try_migrate_state from_v3
  migrated_data bytes v3 swap commission treasury now old = (ground arith, ground arith)

  process_migrate_state_ok :
      (now : ℤ) (state second commission treasury : AccountInfo) (accs : List AccountInfo)
      (w : rt.World) (bytes : Bytes)
      → is_empty (mem.contents w state.key) ≡ false
      → try_migrate_state p (mem.contents w state.key) second.key commission.key treasury.key now
        ≡ ok bytes
      → process_migrate_state p now (state ∷ second ∷ commission ∷ treasury ∷ accs, w)
        ≡ ok (tt, (accs, mem.set_contents state.key bytes w))
  unfolding process_migrate_state
  process_migrate_state_ok now state second commission treasury accs w bytes some_data done =
      ground arith

  -- Where the encoding of a state has less than 513 bytes, the migration of an account that holds a
  -- state of version 3 succeeds for whatever accounts are passed, none of which has to sign or to
  -- belong to the program: the state that is stored then has the commission account that was passed,
  -- the second account as its swap state, and the treasury that was passed unless the old state had
  -- an additional split, whose address it keeps; the token, the owner, the admin, the count of what
  -- was sold and the vesting are those of the old state.
  pub migrate_state_unguarded :
      (now : ℤ) (state second commission treasury : AccountInfo) (accs : List AccountInfo)
      (w : rt.World) (v3 : ContractStateV3)
      → ((s : ContractState) → length (p.states.encode s) < 513)
      → deserialize_from (contract_state_v3 p) (mem.contents w state.key) ≡ ok v3
      → (w' : rt.World) × (s' : ContractState) × (process_migrate_state p now
            (state ∷ second ∷ commission ∷ treasury ∷ accs, w)
          ≡ ok (tt, (accs, w')))
        × (deserialize_from (contract_state p) (mem.contents w' state.key) ≡ ok s')
        × (s'.commission_addr ≡ commission.key)
        × (s'.swap_state ≡ second.key)
        × (s'.treasury_addr
            ≡ elim v3.additional_split [ none ↦ treasury.key | some split ↦ split.split_addr ])
        × (s'.token ≡ v3.token)
        × (s'.owner ≡ v3.owner)
        × (s'.admin ≡ v3.admin)
        × (s'.sold ≡ v3.sold)
        × (s'.vest ≡ v3.vest)
  unfolding migrate split_or
  migrate_state_unguarded now state second commission treasury accs w v3 small old =
      let bytes = mem.contents w state.key in
      let s' = migrate v3 second.key commission.key treasury.key now in
      let laid_out = 0x45 ∷ copy_slice (tail_of bytes) (p.states.encode s') in
      let (some_data, done) =
        migrated_data bytes v3 second.key commission.key treasury.key now old in
      let here = mem.contents-set_contents state.key state.key laid_out w in
      let there : mem.contents (mem.set_contents state.key laid_out w) state.key ≡ laid_out =
        ground (arith, here, ==_refl state.key) in
      let written = laid s' bytes (small s') (room_v3 bytes v3 old) in
      let read_back =
        deserialize_from-serialize_to (contract_state p) s' s' bytes laid_out
          (λ e. absurd (omega arith)) written in
      (
        mem.set_contents state.key laid_out w,
        s',
        process_migrate_state_ok now state second commission treasury accs w laid_out some_data
            done,
        ap (deserialize_from (contract_state p)) there ∙ read_back.0,
        refl,
        refl,
        split_or_lem v3.additional_split treasury.key,
        refl,
        refl,
        refl,
        refl,
        refl,
      )

  signer_ok :
      (k : Pubkey) (acc : AccountInfo) (accs : List AccountInfo) (w : rt.World)
      (found : AccountInfo) (at : Cursor rt)
      → next_signer_account rt k (acc ∷ accs, w) ≡ ok (found, at)
      → (acc.key ≡ k) × (acc.is_signer ≡ true)
  unfolding next_signer_account
  signer_ok k acc accs w found at h = (ground arith, ground arith)

  -- The admin is changed only by an instruction that the present admin has signed, and then the
  -- stored state differs in the admin alone.
  pub admin_signs_change :
      (admin : Pubkey) (acc : AccountInfo) (accs left accs' : List AccountInfo) (s : ContractState)
      (key : Pubkey) (w w₀ w' : rt.World) (u : Unit {0})
      → next_entity rt mem (contract_state p) p.program_id (accs, w)
        ≡ ok ((s, key), (acc ∷ left, w₀))
      → process_set_admin p admin (accs, w) ≡ ok (u, (accs', w'))
      → (acc.key ≡ s.admin)
        × (acc.is_signer ≡ true)
        × (deserialize_from (contract_state p) (mem.contents w' key)
            ≡ ok (record s { admin = admin }))
  unfolding process_set_admin IsSaved
  admin_signs_change admin acc accs left accs' s key w w₀ w' u found h =
      let h1 =
        bind_at-known (next_entity rt mem (contract_state p) p.program_id (accs, w)) _ found h in
      let (signer, (accs2, w2), there, h2) =
        bind_at-eq-ok (next_signer_account rt s.admin (acc ∷ left, w₀)) _ h1 in
      let (is_admin, signed) = signer_ok s.admin acc left w₀ signer (accs2, w2) there in
      let saved =
        save_entity-IsSaved rt mem (contract_state p) (record s { admin = admin }) key accs2 accs'
          w2 w' u (λ e. absurd (omega arith)) h2 in
      (is_admin, signed, saved.0)
