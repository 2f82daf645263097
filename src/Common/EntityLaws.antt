-- ===== src/Common/EntityLaws.antt =====
-- What is written as an entity is read back.
use human_program_library.Base.Lists.{length}
use human_program_library.Base.{
  ◌<◌, subst, some, ℕ, zero, suc, ◌-◌, ◌≤◌, ◌≡◌, refl, ap, ◌≢◌, true, [], ◌∷◌, ◌++◌, arith,
}
use human_program_library.Base.Result.{ok, err}
use human_program_library.Common.Errors.{account_already_initialized}
use human_program_library.Common.Codec.{Bytes}
use human_program_library.Common.Entity.{
  Entity, copy_slice, tail_of, serialize_to, deserialize_from, is_initialized, initialize_entity,
}

abbrev pub drop : ℕ → Bytes → Bytes
drop zero bs = bs
drop (suc n) [] = []
drop (suc n) (b ∷ bs) = drop n bs

pub copy_slice_lem :
    (dst src : Bytes) → length src ≤ length dst → copy_slice dst src ≡ src ++ drop (length src) dst
copy_slice_lem dst [] h = refl
copy_slice_lem [] (b ∷ src) h = absurd (omega arith)
copy_slice_lem (c ∷ dst) (b ∷ src) h = ap (λ bs. b ∷ bs) (copy_slice_lem dst src (omega arith))

pub length-copy_slice : (dst src : Bytes) → length (copy_slice dst src) ≡ length dst
length-copy_slice dst [] = refl
length-copy_slice [] (b ∷ src) = refl
length-copy_slice (c ∷ dst) (b ∷ src) = ap suc (length-copy_slice dst src)

length-tail_of : (bytes : Bytes) → length (tail_of bytes) ≡ length bytes - 1
length-tail_of [] = refl
length-tail_of (b ∷ bs) = omega arith

module _ {A : Type 0} (e : Entity A) where
  serialize_to_ok :
      (a : A) (bytes bytes' : Bytes)
      → serialize_to e a bytes ≡ ok bytes'
      → (e.size ≤ length bytes)
        × (length (e.codec.encode a) < e.size)
        × (e.magic ∷ copy_slice (tail_of bytes) (e.codec.encode a) ≡ bytes')
  unfolding serialize_to
  serialize_to_ok a bytes bytes' w = ground arith

  -- An entity that was written to an account is read back from it, the account counts as
  -- initialized and keeps its length, and a second initialization is refused.
  pub deserialize_from-serialize_to :
      (a b : A) (bytes bytes' : Bytes)
      → e.magic ≢ 0
      → serialize_to e a bytes ≡ ok bytes'
      → (deserialize_from e bytes' ≡ ok a)
        × (is_initialized e bytes' ≡ true)
        × (length bytes' ≡ length bytes)
        × (initialize_entity e b bytes' ≡ err account_already_initialized)
  unfolding deserialize_from is_initialized initialize_entity
  deserialize_from-serialize_to a b bytes bytes' nz w =
      let (room, short, same) = serialize_to_ok a bytes bytes' w in
      let src = e.codec.encode a in
      let whole = length-copy_slice (tail_of bytes) src in
      let rest = length-tail_of bytes in
      let laid = copy_slice_lem (tail_of bytes) src (omega (arith, rest)) in
      let found : e.codec.decode (copy_slice (tail_of bytes) src)
          ≡ some (a, drop (length src) (tail_of bytes)) =
        rw laid (e.codec.decode-encode a (drop (length src) (tail_of bytes))) in
      subst
        (λ (d : Bytes).
          (deserialize_from e d ≡ ok a)
          × (is_initialized e d ≡ true)
          × (length d ≡ length bytes)
          × (initialize_entity e b d ≡ err account_already_initialized))
        same (ground arith, ground arith, omega (arith, whole, rest), ground arith)
