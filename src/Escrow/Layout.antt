-- ===== src/Escrow/Layout.antt =====
-- The bytes that borsh writes for a request: one for each tag, eight for a number, 32 for an
-- address. `STATE_SIZE` is the size of a funded request; an unfunded one is shorter.
use human_program_library.Base.Lists.{length}
use human_program_library.Base.{ℕ, ◌+◌, ◌<◌, Option, none, some, arith, ◌≡◌}
use human_program_library.Common.Codec.{Codec}
use human_program_library.Base.{Pubkey}
use human_program_library.Escrow.Defs.{UnfundedRequest, State, Request, funded, unfunded}
use human_program_library.Escrow.Storage.{state_size}

abbrev pub option_size : {A : Type 0} → Option A → ℕ
option_size none = 1
option_size (some a) = 9

abbrev pub request_size : Request → ℕ
request_size (funded author) = 1 + 32
request_size (unfunded r) = 1 + 8 + option_size r.deadline + 8

-- The status, the creation time, the wallet, the destination, the payer and the request.
unfoldable pub encoded_size : State → ℕ
encoded_size s = 1 + 8 + 32 + 32 + 32 + request_size s.request

unfoldable pub IsBorsh : Codec State → Type 0
IsBorsh c = (s : State) → length (c.encode s) ≡ encoded_size s

unfunded_short : {A : Type 0} (d : Option A) → 1 + 8 + option_size d + 8 < 33
unfunded_short none = omega arith
unfunded_short (some a) = omega arith

pub length-funded :
    (c : Codec State) (s : State) (author : Pubkey)
    → IsBorsh c
    → s.request ≡ funded author
    → length (c.encode s) ≡ state_size
unfolding IsBorsh encoded_size
length-funded c s author size f = ground (arith, size s)

pub length-unfunded :
    (c : Codec State) (s : State) (r : UnfundedRequest)
    → IsBorsh c
    → s.request ≡ unfunded r
    → length (c.encode s) < state_size
unfolding IsBorsh encoded_size
length-unfunded c s r size f = ground (arith, size s, unfunded_short r.deadline)
