-- ===== src/Tests/RoyaltyTests.antt =====
-- The royalty program at concrete inputs.
use human_program_library.Precise.Chain.{to_u64, mul_div}
use human_program_library.Base.Lists.{length, contains, IsDistinct}
use human_program_library.Base.Int.{pos}
use human_program_library.Base.Result.{panic, ok}
use human_program_library.Base.{
  ◌*◌, false, ℕ, ◌+◌, ◌≤◌, ◌≡◌, refl, true, Option, none, some, List, [], ◌∷◌, arith, ◌==◌,
  if◌then◌else◌, Pubkey,
}
use human_program_library.Precise.Reference.{reference}
use human_program_library.Royalty.Defs.{Settings, Split, Distribution, State, Voucher, Store, set}
use human_program_library.Royalty.Split.{calculate_split, distribute_to}
use human_program_library.Royalty.Distribute.{
  Distribute, fixed_settings, process_distribute, run_distribution, ensure_started,
  start_distribution, distribute_vouchers, finish_distribution, pay_from, check_no_other_programs,
}
use human_program_library.Royalty.Claim.{process_claim}
use human_program_library.Royalty.Ledger.{total}
use human_program_library.Royalty.DistributeLaws.{AllSpent}
use human_program_library.Royalty.Payments.{loop_takes_bounded}
use human_program_library.Royalty.Drops.{
  Progresses, distribution_conserves, distribution_counts, distribution_pays_once,
}

-- The settings of the test `test_split`.
abbrev settings : Settings
settings = record {
  min_token_to_enroll = 1_000;
  owner_fee = 1_000;
  host_fee = 500;
  host_flat_fee = 5_000;
}

abbrev million : Split
million = record { distribute_amount = 825_000; owner_comission = 100_000; host_comission = 75_000 }

splits_million : calculate_split reference settings 1_000_000 5 ≡ ok million
unfolding calculate_split mul_div
splits_million = refl

abbrev voucher_of : ℕ → ℕ → Voucher
voucher_of idx balance = record {
  user = 21;
  state = 1;
  drop_idx = idx;
  balance = balance;
  last_distribution = pos 0;
}

-- A state account with three vouchers, of which the accounts 11 and 12 hold two.
abbrev state : State
state = record {
  wallet = 4;
  owner = 2;
  host = 3;
  total_distributed = 0;
  total_user_distributed = 0;
  settings = settings;
  drop_idx = 5;
  vouchers_count = 3;
  tokens_held = 1_000;
  distribution = none;
  token_mint = 31;
  realm_addr = 32;
  vault_addr = 33;
}

abbrev rent : ℕ
rent = 4_454_400

abbrev lamports : Pubkey → ℕ
lamports a = if a == 1 then 1_004_454_402 else 0

abbrev vouchers : Pubkey → Option Voucher
vouchers a =
    if a == 11
    then some (voucher_of 5 500)
    else if a == 12
    then some (voucher_of 5 300)
    else if a == 13
    then some (voucher_of 5 200)
    else none

abbrev store : Store
store = record { lamports = lamports; vouchers = vouchers }

abbrev first : Distribute
first = record { state_key = 1; owner = 2; host = 3; programs = 77 ∷ []; vouchers = 11 ∷ 12 ∷ [] }

abbrev second : Distribute
second = record { state_key = 1; owner = 2; host = 3; programs = 77 ∷ []; vouchers = 13 ∷ [] }

abbrev paid : ℕ → Voucher
paid balance = record (voucher_of 6 balance) { last_distribution = pos 9 }

abbrev between : State × Store
between = (
  record state {
    settings = fixed_settings;
    total_distributed = 1_000_000_001;
    total_user_distributed = 975_000_000;
    distribution = some (record { distribute_amount = 975_000_000; seen_vouchers = 2 });
  },
  record {
    lamports = set 12 292_500_000 (
        set 1 199_454_402 (
          set 11 487_500_000 (
            set 1 491_954_402
              (set 3 25_000_000 (set 1 979_454_402 (set 2 0 (set 1 1_004_454_402 lamports)))))));
    vouchers = set 12 (some (paid 300)) (set 11 (some (paid 500)) vouchers);
  },
)

distributes_first : process_distribute reference 77 first state rent (pos 9) store ≡ ok between
unfolding process_distribute run_distribution ensure_started start_distribution distribute_vouchers
    finish_distribution pay_from check_no_other_programs calculate_split distribute_to mul_div
    to_u64
distributes_first = refl

abbrev all_keys : List Pubkey
all_keys = 1 ∷ 2 ∷ 3 ∷ 11 ∷ 12 ∷ 13 ∷ []

distribution_conserves_example :
    (total all_keys between.1.lamports ≡ total all_keys lamports) × (rent ≤ between.1.lamports 1)
distribution_conserves_example =
    distribution_conserves reference 77 first state rent (pos 9) store between all_keys
      distributes_first (refl, (refl, (refl, (refl, (refl, (refl, tt)))))) refl refl refl
      (refl, (refl, tt))

distribution_counts_example :
    IsDistinct first.vouchers
    × AllSpent 6 first.vouchers between.1
    × Progresses first state between.0
distribution_counts_example =
    distribution_counts reference 77 first state rent (pos 9) store between distributes_first

abbrev after : State × Store
after = (
  record state {
    settings = fixed_settings;
    drop_idx = 6;
    total_distributed = 1_000_000_001;
    total_user_distributed = 975_000_000;
  },
  record {
    lamports = set 13 195_000_000 (set 1 4_454_402 between.1.lamports);
    vouchers = set 13 (some (record (paid 200) { last_distribution = pos 20 })) between.1.vouchers;
  },
)

distributes_second :
    process_distribute reference 77 second between.0 rent (pos 20) between.1 ≡ ok after
unfolding process_distribute run_distribution ensure_started start_distribution distribute_vouchers
    finish_distribution pay_from check_no_other_programs distribute_to to_u64
distributes_second = refl

distribution_pays_once_example : contains 11 second.vouchers ≡ false
distribution_pays_once_example =
    distribution_pays_once reference 77 first second state rent (pos 9) (pos 20) store between after
      11 distributes_first refl distributes_second refl

abbrev distribution : Distribution
distribution = record { distribute_amount = 975_000_000; seen_vouchers = 2 }

abbrev swept : Distribution × Store
swept = (record distribution { seen_vouchers = 3 }, after.1)

sweeps_last :
    distribute_vouchers reference between.0 1 (pos 20) (13 ∷ []) distribution between.1 ≡ ok swept
unfolding distribute_vouchers distribute_to pay_from to_u64
sweeps_last = refl

loop_takes_bounded_example :
    2 * between.1.lamports 1 ≤ 2 * (after.1.lamports 1 + 975_000_000) + length {A = ℕ} (13 ∷ [])
loop_takes_bounded_example =
    loop_takes_bounded reference between.0 1 (pos 20) (13 ∷ []) distribution between.1 swept
      sweeps_last (omega arith) (omega arith) (omega arith) (omega arith) (omega arith)
      (omega arith)

-- Eight equal vouchers: each part ends in half a lamport and is rounded up, which is more than the
-- two lamports kept back, so the state account falls below its rent and the call panics.
eight_vouchers_panic :
    process_distribute reference 77
      (record first { vouchers = 41 ∷ 42 ∷ 43 ∷ 44 ∷ 45 ∷ 46 ∷ 47 ∷ 48 ∷ [] })
      (record state { vouchers_count = 8 })
      rent
      (pos 9)
      (record {
        lamports = λ a. if a == 1 then rent + 1_000_000_006 else 0;
        vouchers = λ a. some (voucher_of 5 125);
      })
    ≡ panic
unfolding process_distribute run_distribution ensure_started start_distribution distribute_vouchers
    finish_distribution pay_from check_no_other_programs calculate_split distribute_to mul_div
    to_u64
eight_vouchers_panic = refl

abbrev claimed : Store
claimed = record between.1 { lamports = set 21 487_498_000 (set 11 2_000 between.1.lamports) }

claims : process_claim 1 11 21 true 2_000 between.1 ≡ ok claimed
unfolding process_claim
claims = refl
