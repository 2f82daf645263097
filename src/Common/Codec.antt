-- ===== src/Common/Codec.antt =====
-- The serialization of a value by the crate borsh, which derives it for the types of the programs.
-- It is a parameter with what borsh documents: the bytes of a value decode to it, whatever follows.
use human_program_library.Base.{ℕ, ◌≡◌, Option, none, some, List, [], ◌∷◌, ◌++◌}
use human_program_library.Base.Result.{Result, ok, err}
use human_program_library.Common.Errors.{ProgramError, borsh_io_error}

abbrev pub Bytes : Type 0
Bytes = List ℕ

pub record Codec (A : Type 0) : Type 0 where
  pub encode : A → Bytes
  pub decode : Bytes → Option (A × Bytes)
  pub decode-encode : (a : A) (rest : Bytes) → decode (encode a ++ rest) ≡ some (a, rest)

-- `deserialize` from a slice: what follows the value stays unread.
abbrev pub deserialized : {A : Type 0} → Option (A × Bytes) → Result ProgramError A
deserialized none = err borsh_io_error
deserialized (some (a, rest)) = ok a

-- `try_from_slice` fails unless all bytes are read.
abbrev pub read_whole : {A : Type 0} → Option (A × Bytes) → Result ProgramError A
read_whole none = err borsh_io_error
read_whole (some (a, [])) = ok a
read_whole (some (a, b ∷ bs)) = err borsh_io_error

abbrev pub try_from_slice : {A : Type 0} → Codec A → Bytes → Result ProgramError A
try_from_slice c bytes = read_whole (c.decode bytes)
