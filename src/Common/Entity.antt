-- ===== src/Common/Entity.antt =====
-- Entities (common/src/entity.rs): a value in the data of an account, behind a byte that tells its
-- type. `EntityGuard` writes the value back when it goes out of scope; the handlers do so where they
-- return.
use human_program_library.Base.Lists.{length}
use human_program_library.Base.{true, false, ℕ, Bool, ◌&&◌, [], ◌∷◌, ltb, leb, ◌==◌, ◌!=◌}
use human_program_library.Base.Result.{Result, ok, ◌>>◌, fail_if, assert}
use human_program_library.Common.Errors.{
  ProgramError, account_data_too_small, uninitialized_account, invalid_account_data,
  account_already_initialized,
}
use human_program_library.Common.Codec.{Bytes, Codec, deserialized}

-- The trait: a codec with the size and the magic byte of the type.
pub record Entity (A : Type 0) : Type 0 where
  pub size : ℕ
  pub magic : ℕ  -- u8
  pub codec : Codec A

-- `sol_memcpy` to the front of a slice; it does not stop at the end of the slice, this does.
abbrev pub copy_slice : Bytes → Bytes → Bytes
copy_slice dst [] = dst
copy_slice [] (b ∷ src) = []
copy_slice (c ∷ dst) (b ∷ src) = b ∷ copy_slice dst src

abbrev pub tail_of : Bytes → Bytes
tail_of [] = []
tail_of (b ∷ bs) = bs

abbrev pub is_empty : Bytes → Bool
is_empty [] = true
is_empty (b ∷ bs) = false

abbrev pub first_byte : Bytes → ℕ
first_byte [] = 0
first_byte (b ∷ bs) = b

module _ {A : Type 0} (e : Entity A) where
  unfoldable pub serialize_to : A → Bytes → Result ProgramError Bytes
  serialize_to a bytes = do
    fail_if (ltb (length bytes) e.size) account_data_too_small
    assert (ltb (length (e.codec.encode a)) e.size)
    ok (e.magic ∷ copy_slice (tail_of bytes) (e.codec.encode a))

  unfoldable pub deserialize_from : Bytes → Result ProgramError A
  deserialize_from bytes = do
    fail_if (ltb (length bytes) e.size) account_data_too_small
    fail_if (first_byte bytes == 0) uninitialized_account
    fail_if (first_byte bytes != e.magic) invalid_account_data
    deserialized (e.codec.decode (tail_of bytes))

  unfoldable pub is_initialized : Bytes → Bool
  is_initialized bytes = leb e.size (length bytes) && first_byte bytes != 0

  -- The data that `initialize_entity` leaves.
  unfoldable pub initialize_entity : A → Bytes → Result ProgramError Bytes
  initialize_entity a bytes = do
    fail_if (is_initialized bytes) account_already_initialized
    serialize_to a bytes
