-- ===== src/Royalty/Distribute.antt =====
-- `process_distribute` (royalty/src/lib.rs). The programs that the transaction calls, the rent
-- minimum of the state account and the time are arguments.
use human_program_library.Base.{
  ℕ, not, none, some, List, [], ◌∷◌, Pubkey, ltb, leb, ◌==◌, ◌!=◌, if◌then◌else◌,
}
use human_program_library.Base.Int.{ℤ}
use human_program_library.Base.Lists.{sum, contains}
use human_program_library.Base.Words.{checked_add, checked_sub, u64_limit, u32_limit}
use human_program_library.Base.Result.{Result, ok, ◌>>=◌, ◌>>◌, ok_or, unwrap, fail_if, assert}
use human_program_library.Precise.{PreciseNumber}
use human_program_library.Royalty.Defs.{
  Settings, Distribution, State, Failure, Store, set, or_overflow, royalty_error, illegal_owner,
  invalid_argument, account_not_rent_exempt, account_borrow_failed, overflow,
  no_other_programs_allowed, not_enough_to_start_distribution, invalid_voucher,
}
use human_program_library.Royalty.Split.{calculate_split, distribute_to}

unfoldable pub check_no_other_programs : List Pubkey → List Pubkey → Result Failure (Unit {0})
check_no_other_programs [] allowed = ok tt
check_no_other_programs (program ∷ programs) allowed = do
  fail_if (not (contains program allowed)) (royalty_error no_other_programs_allowed)
  check_no_other_programs programs allowed

-- `LAMPORTS_PER_SOL / 2`
abbrev pub distribution_minimum_lamports : ℕ
distribution_minimum_lamports = 500_000_000

-- The settings that the code writes over those of the account.
abbrev pub fixed_settings : Settings
fixed_settings = record {
  min_token_to_enroll = 0;
  owner_fee = 0;
  host_fee = 250;
  host_flat_fee = 0;
}

-- Lamports from the state account, whose lamports stay borrowed, to another account.
unfoldable pub pay_from : Pubkey → Pubkey → ℕ → (Pubkey → ℕ) → Result Failure (Pubkey → ℕ)
pay_from state_key target amount lamports = do
  fail_if (target == state_key) account_borrow_failed
  left ← ok_or (checked_sub (lamports state_key) amount) (royalty_error overflow)
  sum ← ok_or (checked_add u64_limit (lamports target) amount) (royalty_error overflow)
  ok (set target sum (set state_key left lamports))

-- The start of a distribution: the commissions are paid, and the rest is to be distributed.
unfoldable pub start_distribution :
    (pn : PreciseNumber) → State → Pubkey → ℕ → (Pubkey → ℕ) → Result Failure (State × (Pubkey → ℕ))
start_distribution pn state state_key rent_minimum lamports = do
  minimum_balance ← unwrap (checked_add u64_limit rent_minimum 1)
  excess_balance ← ok_or (checked_sub (lamports state_key) minimum_balance) account_not_rent_exempt
  fail_if (ltb excess_balance distribution_minimum_lamports)
      (royalty_error not_enough_to_start_distribution)
  amount_to_distribute ← unwrap (checked_sub excess_balance 1)
  split ← or_overflow (calculate_split pn state.settings amount_to_distribute state.vouchers_count)
  lamports1 ← pay_from state_key state.owner split.owner_comission lamports
  lamports2 ← pay_from state_key state.host split.host_comission lamports1
  total ←
      ok_or (checked_add u64_limit state.total_distributed excess_balance) (royalty_error overflow)
  total_user ←
      ok_or (checked_add u64_limit state.total_user_distributed split.distribute_amount)
        (royalty_error overflow)
  ok (
    record state {
      total_distributed = total;
      total_user_distributed = total_user;
      distribution =
          some (record { distribute_amount = split.distribute_amount; seen_vouchers = 0 });
    },
    lamports2,
  )

-- The loop over the remaining accounts: each holds a voucher of the program, which is stored again
-- before the next one is read.
unfoldable pub distribute_vouchers :
    (pn : PreciseNumber)
    → State
    → Pubkey
    → ℤ
    → List Pubkey
    → Distribution
    → Store
    → Result Failure (Distribution × Store)
distribute_vouchers pn state state_key now [] d store = ok (d, store)
distribute_vouchers pn state state_key now (key ∷ rest) d store = do
  voucher ← ok_or (store.vouchers key) illegal_owner
  fail_if (voucher.state != state_key) (royalty_error invalid_voucher)
  (to_send, d', voucher') ← distribute_to pn d voucher state.drop_idx state.tokens_held now
  lamports ← pay_from state_key key to_send store.lamports
  distribute_vouchers pn state state_key now rest d'
      (record { lamports = lamports; vouchers = set key (some voucher') store.vouchers })

-- The end: when all vouchers have been seen the next drop begins.
unfoldable pub finish_distribution : State → Distribution → Result Failure State
finish_distribution state d =
    if d.seen_vouchers == state.vouchers_count
    then (ok_or (checked_add u32_limit state.drop_idx 1) (royalty_error overflow)
        >>= (λ idx. ok (record state { drop_idx = idx; distribution = none })))
    else ok (record state { distribution = some d })

-- A distribution is started unless one is in progress.
unfoldable pub ensure_started :
    (pn : PreciseNumber) → State → Pubkey → ℕ → (Pubkey → ℕ) → Result Failure (State × (Pubkey → ℕ))
ensure_started pn state state_key rent_minimum lamports = elim state.distribution [
  | none ↦ start_distribution pn state state_key rent_minimum lamports
  | some d ↦ ok (state, lamports)
]

pub record Distribute : Type 0 where
  pub state_key : Pubkey
  pub owner : Pubkey
  pub host : Pubkey
  pub programs : List Pubkey
  pub vouchers : List Pubkey

-- What `process_distribute` does once its accounts and the transaction have been checked.
unfoldable pub run_distribution :
    (pn : PreciseNumber) → Distribute → State → ℕ → ℤ → Store → Result Failure (State × Store)
run_distribution pn accounts state rent_minimum now store = do
  (started, lamports) ← ensure_started pn state accounts.state_key rent_minimum store.lamports
  dist_state ← unwrap started.distribution
  (d, store') ←
      distribute_vouchers pn started accounts.state_key now accounts.vouchers dist_state
        (record { lamports = lamports; vouchers = store.vouchers })
  assert (leb rent_minimum (store'.lamports accounts.state_key))
  state' ← finish_distribution started d
  ok (state', store')

unfoldable pub process_distribute :
    (pn : PreciseNumber)
    → Pubkey
    → Distribute
    → State
    → ℕ
    → ℤ
    → Store
    → Result Failure (State × Store)
process_distribute pn program_id accounts state rent_minimum now store = do
  fail_if (accounts.owner != state.owner) invalid_argument
  fail_if (accounts.host != state.host) invalid_argument
  check_no_other_programs accounts.programs (program_id ∷ [])
  run_distribution pn accounts (record state { settings = fixed_settings }) rent_minimum now store
