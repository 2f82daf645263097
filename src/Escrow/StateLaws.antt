-- ===== src/Escrow/StateLaws.antt =====
-- How a request is written and read back.
use human_program_library.Base.Lists.{length}
use human_program_library.Base.{ℕ, zero, suc, ◌≤◌, refl, ap, ◌∙◌, some, [], ◌∷◌, arith, ◌<◌, ◌≡◌}
use human_program_library.Base.Result.{ok, err}
use human_program_library.Common.Errors.{borsh_io_error}
use human_program_library.Common.Codec.{Bytes, Codec, try_from_slice, read_whole}
use human_program_library.Common.Entity.{copy_slice}
use human_program_library.Common.EntityLaws.{drop, copy_slice_lem}

drop_all : (bs : Bytes) → drop (length bs) bs ≡ []
drop_all [] = refl
drop_all (b ∷ bs) = drop_all bs

-- Bytes that are left over.
drop_short :
    (n : ℕ) (bs : Bytes) → n < length bs → (b : ℕ) × (rest : Bytes) × (drop n bs ≡ b ∷ rest)
drop_short n [] h = absurd (omega arith)
drop_short zero (b ∷ bs) h = (b, bs, refl)
drop_short (suc n) (b ∷ bs) h = drop_short n bs (omega arith)

-- What a value that was copied to the front of a slice decodes to.
copied :
    {A : Type 0} (c : Codec A) (a : A) (dst : Bytes)
    → length (c.encode a) ≤ length dst
    → c.decode (copy_slice dst (c.encode a)) ≡ some (a, drop (length (c.encode a)) dst)
copied c a dst h =
    rw (copy_slice_lem dst (c.encode a) h) (c.decode-encode a (drop (length (c.encode a)) dst))

-- A value is read from a slice that holds its bytes and nothing else, and from no longer one.
pub try_from_slice_exact :
    {A : Type 0} (c : Codec A) (a : A) (dst : Bytes)
    → length (c.encode a) ≡ length dst
    → try_from_slice c (copy_slice dst (c.encode a)) ≡ ok a
try_from_slice_exact c a dst h =
    let none_left : drop (length (c.encode a)) dst ≡ [] = rw h (drop_all dst) in
    ap read_whole (copied c a dst (omega arith) ∙ ap (λ r. some (a, r)) none_left)

pub try_from_slice_longer :
    {A : Type 0} (c : Codec A) (a : A) (dst : Bytes)
    → length (c.encode a) < length dst
    → try_from_slice c (copy_slice dst (c.encode a)) ≡ err borsh_io_error
try_from_slice_longer c a dst h =
    let (b, rest, left) = drop_short (length (c.encode a)) dst h in
    ap read_whole (copied c a dst (omega arith) ∙ ap (λ r. some (a, r)) left)
