-- ===== src/Common/EntityAccountLaws.antt =====
-- An entity that is saved is found again.
use human_program_library.Base.Result.{ok, Result-cases}
use human_program_library.Base.{
  ◌≡◌, sym, ap, ◌∙◌, ◌≢◌, inl, inr, false, some, List, arith, ◌==◌, Pubkey, ==_refl,
}
use human_program_library.Runtime.{Runtime, Cpi}
use human_program_library.Common.Codec.{Bytes}
use human_program_library.Common.Memory.{Memory}
use human_program_library.Common.Entity.{
  Entity, serialize_to, deserialize_from, initialize_entity, is_initialized,
}
use human_program_library.Common.EntityLaws.{deserialize_from-serialize_to}
use human_program_library.Common.Accounts.{AccountInfo, Cursor}
use human_program_library.Common.EntityAccounts.{call_program, save_entity, initialize_account}

module _ (rt : Runtime) (mem : Memory rt) where
  pub call_program_ok :
      (c : Cpi) (at : Cursor rt) (accs' : List AccountInfo) (w' : rt.World) (u : Unit {0})
      → call_program rt mem c at ≡ ok (u, (accs', w'))
      → rt.invoke c at.1 ≡ some w'
  call_program_ok c (accs, w) accs' w' u h = ground arith

  module _ {A : Type 0} (e : Entity A) where
    -- What holds of an account in which an entity was saved, and of the others.
    unfoldable pub IsSaved : A → Pubkey → rt.World → rt.World → Type 0
    IsSaved a key w w' =
        (deserialize_from e (mem.contents w' key) ≡ ok a)
        × ((k : Pubkey) → (k == key) ≡ false → mem.contents w' k ≡ mem.contents w k)
        × ((k : Pubkey) → rt.tokens w' k ≡ rt.tokens w k)

    written_IsSaved :
        (a : A) (key : Pubkey) (bytes : Bytes) (w w' : rt.World)
        → e.magic ≢ 0
        → serialize_to e a (mem.contents w key) ≡ ok bytes
        → mem.set_contents key bytes w ≡ w'
        → IsSaved a key w w'
    unfolding IsSaved
    written_IsSaved a key bytes w w' nz h done =
        let found = deserialize_from-serialize_to e a a (mem.contents w key) bytes nz h in
        let here = mem.contents-set_contents key key bytes w in
        let at_key : mem.contents w' key ≡ bytes =
          ap (λ x. mem.contents x key) (sym done) ∙ ground (arith, here, ==_refl key) in
        (
          rw at_key found.0,
          λ k other.
              ap (λ x. mem.contents x k) (sym done)
              ∙ (let there = mem.contents-set_contents key k bytes w in ground arith),
          λ k. ap (λ x. rt.tokens x k) (sym done) ∙ mem.tokens-set_contents key k bytes w,
        )

    pub save_entity-IsSaved :
        (a : A) (key : Pubkey) (accs accs' : List AccountInfo) (w w' : rt.World) (u : Unit {0})
        → e.magic ≢ 0
        → save_entity rt mem e a key (accs, w) ≡ ok (u, (accs', w'))
        → IsSaved a key w w'
    unfolding save_entity
    save_entity-IsSaved a key accs accs' w w' u nz h =
        elim (Result-cases (serialize_to e a (mem.contents w key))) [
          | inl (bytes, fits) ↦ written_IsSaved a key bytes w w' nz fits (ground arith)
          | inr (inl (e', fails)) ↦ absurd (ground arith)
          | inr (inr fails) ↦ absurd (ground arith)
        ]

    pub initialize_account-IsSaved :
        (a : A) (key : Pubkey) (accs accs' : List AccountInfo) (w w' : rt.World) (u : Unit {0})
        → e.magic ≢ 0
        → initialize_account rt mem e a key (accs, w) ≡ ok (u, (accs', w'))
        → (is_initialized e (mem.contents w key) ≡ false) × IsSaved a key w w'
    unfolding initialize_account initialize_entity
    initialize_account-IsSaved a key accs accs' w w' u nz h =
        elim (Result-cases (serialize_to e a (mem.contents w key))) [
          | inl (bytes, fits) ↦
              (ground arith, written_IsSaved a key bytes w w' nz fits (ground arith))
          | inr (inl (e', fails)) ↦ absurd (ground arith)
          | inr (inr fails) ↦ absurd (ground arith)
        ]
