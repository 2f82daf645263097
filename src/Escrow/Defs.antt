-- ===== src/Escrow/Defs.antt =====
-- Requests, vouchers and the methods of `State` (escrow/src/lib.rs).
use human_program_library.Base.{
  ℕ, Bool, true, false, not, ◌&&◌, Option, none, some, ltb, if◌then◌else◌, Pubkey,
}
use human_program_library.Base.Int.{ℤ, ltb_ℤ}
use human_program_library.Base.Result.{Result, ok, ◌>>◌, fail_if}
use human_program_library.Common.Errors.{ProgramError, custom}

pub record UnfundedRequest : Type 0 where
  pub collected : ℕ  -- u64
  pub deadline : Option ℤ  -- UnixTimestamp
  pub accept_threshold : ℕ  -- u64

pub data Request : Type 0 where
  funded : (author : Pubkey) → Request
  unfunded : UnfundedRequest → Request

pub data RequestStatus : Type 0 where
  unitialized open_status declined accepted : RequestStatus

-- The derived `PartialEq`.
abbrev pub request_status_eq : RequestStatus → RequestStatus → Bool
request_status_eq unitialized unitialized = true
request_status_eq open_status open_status = true
request_status_eq declined declined = true
request_status_eq accepted accepted = true
request_status_eq _ _ = false

pub record State : Type 0 where
  pub request_status : RequestStatus
  pub created_at : ℤ  -- UnixTimestamp
  pub wallet : Pubkey
  pub destination : Pubkey
  pub payer : Pubkey
  pub request : Request

pub record Voucher : Type 0 where
  pub state : Pubkey
  pub user : Pubkey
  pub amount : ℕ  -- u64

abbrev pub is_open : State → Bool
is_open s = request_status_eq s.request_status open_status

-- The `if let` on the deadline.
abbrev pub deadline_missed : Request → ℤ → Bool
deadline_missed (funded author) now = false
deadline_missed (unfunded r) now = elim r.deadline [
  | none ↦ false
  | some deadline ↦ ltb_ℤ deadline now && ltb r.collected r.accept_threshold
]

unfoldable pub expired : State → ℤ → Bool
expired s now = if not (is_open s) then false else deadline_missed s.request now

abbrev pub below_threshold : Request → Bool
below_threshold (funded author) = false
below_threshold (unfunded r) = ltb r.collected r.accept_threshold

unfoldable pub try_accept : State → Result ProgramError State
try_accept s = do
  fail_if (not (is_open s)) (custom 0x16)
  fail_if (below_threshold s.request) (custom 0x16)
  ok (record s { request_status = accepted })

abbrev pub is_funded : State → Bool
is_funded s = elim s.request [ funded author ↦ true | unfunded r ↦ false ]

pub data CreateInstructionRequest : Type 0 where
  funded : (author : Pubkey) → CreateInstructionRequest
  unfunded : (deadline : Option ℤ) (accept_threshold : ℕ) → CreateInstructionRequest

pub record CreateInstruction : Type 0 where
  pub dest : Pubkey
  pub payer : Pubkey
  pub rtype : CreateInstructionRequest
