-- ===== src/Common/EntityAccounts.antt =====
-- Entities in the accounts of an instruction (common/src/entity.rs): `next_entity`,
-- `entity_from_acc`, `initialize_entity` and the `drop` of `EntityGuard`.
use human_program_library.Base.{ℕ, none, some, ◌!=◌, Pubkey}
use human_program_library.Base.Result.{Result, ok, err, panic}
use human_program_library.Runtime.{Runtime, Cpi}
use human_program_library.Runtime.Action.{◌>>=◌, ◌>>◌, pure}
use human_program_library.Common.Errors.{ProgramError, illegal_owner, cpi_failed}
use human_program_library.Common.Codec.{Bytes}
use human_program_library.Common.Memory.{Memory}
use human_program_library.Common.Entity.{Entity, serialize_to, deserialize_from, initialize_entity}
use human_program_library.Common.Accounts.{AccountInfo, Handler, next_account_info, check, need}

-- `.expect(…)`
abbrev pub expect : {A : Type 0} → Result ProgramError A → Result ProgramError A
expect (ok a) = ok a
expect (err e) = panic
expect panic = panic

module _ (rt : Runtime) (mem : Memory rt) where
  abbrev pub read_data : Pubkey → Handler rt Bytes
  read_data k (accs, w) = ok (mem.contents w k, (accs, w))

  abbrev pub write_data : Pubkey → Bytes → Handler rt (Unit {0})
  write_data k d (accs, w) = ok (tt, (accs, mem.set_contents k d w))

  abbrev pub lamports_held : Pubkey → Handler rt ℕ
  lamports_held k (accs, w) = ok (mem.lamports w k, (accs, w))

  -- A call of another program; a failure of it fails the transaction.
  abbrev pub call_program : Cpi → Handler rt (Unit {0})
  call_program c (accs, w) = elim (rt.invoke c w) [
    | none ↦ err cpi_failed
    | some w' ↦ ok (tt, (accs, w'))
  ]

  module _ {A : Type 0} (e : Entity A) where
    unfoldable pub entity_from_acc : Pubkey → AccountInfo → Handler rt A
    entity_from_acc program_id acc = do
      check rt (acc.owner != program_id) illegal_owner
      bytes ← read_data acc.key
      need rt (deserialize_from e bytes)

    unfoldable pub next_entity : Pubkey → Handler rt (A × Pubkey)
    next_entity program_id = do
      state_acc ← next_account_info rt
      state ← entity_from_acc program_id state_acc
      pure (state, state_acc.key)

    -- `drop`: the value is written back when its guard goes out of scope.
    unfoldable pub save_entity : A → Pubkey → Handler rt (Unit {0})
    save_entity inner key = do
      bytes ← read_data key
      saved ← need rt (expect (serialize_to e inner bytes))
      write_data key saved

    unfoldable pub initialize_account : A → Pubkey → Handler rt (Unit {0})
    initialize_account ent key = do
      bytes ← read_data key
      saved ← need rt (initialize_entity e ent bytes)
      write_data key saved
