-- ===== src/Royalty/Split.antt =====
-- `Settings` and `Distribution::distribute_to` (royalty/src/state.rs).
use human_program_library.Base.{ℕ, ◌+◌, Bool, not, leb, ◌!=◌, min}
use human_program_library.Base.Int.{ℤ}
use human_program_library.Base.Words.{checked_add, checked_mul, checked_sub, u64_limit, u32_limit}
use human_program_library.Base.Result.{Result, ok, ◌>>=◌, ◌>>◌, ok_or, unwrap, fail_if, assert}
use human_program_library.Precise.{PreciseNumber}
use human_program_library.Precise.Chain.{mul_div, to_u64}
use human_program_library.Royalty.Defs.{
  Settings, Split, Distribution, Voucher, Failure, royalty_error, overflow, voucher_not_eligible,
}

-- The fees are added with `saturating_add` of a `u16`.
unfoldable pub valid : Settings → Bool
valid s = not (leb 10_000 (min (s.owner_fee + s.host_fee) 65_535))

-- `None` is the error `tt`.
unfoldable pub calculate_split : (pn : PreciseNumber) → Settings → ℕ → ℕ → Result (Unit {0}) Split
calculate_split pn s balance num_vouchers = do
  bsp ← unwrap (pn.new 10_000)
  balance_precise ← ok_or (pn.new balance) tt
  owner_fee ← ok_or (pn.new s.owner_fee) tt
  host_fee ← ok_or (pn.new s.host_fee) tt
  owner_split ← ok_or (mul_div pn balance_precise owner_fee bsp) tt
  host_split ← ok_or (mul_div pn balance_precise host_fee bsp) tt
  host_flat_fee ← ok_or (checked_mul u32_limit s.host_flat_fee num_vouchers) tt
  host_total_comission ← ok_or (checked_add u64_limit host_split host_flat_fee) tt
  without_owner ← ok_or (checked_sub balance owner_split) tt
  remaining_balance ← ok_or (checked_sub without_owner host_total_comission) tt
  ok (record {
    distribute_amount = remaining_balance;
    owner_comission = owner_split;
    host_comission = host_total_comission;
  })

-- The lamports for a voucher, with the distribution and the voucher as they are left.
unfoldable pub distribute_to :
    (pn : PreciseNumber)
    → Distribution
    → Voucher
    → ℕ
    → ℕ
    → ℤ
    → Result Failure (ℕ × Distribution × Voucher)
distribute_to pn d v drop_idx total_tokens now = do
  fail_if (v.drop_idx != drop_idx) (royalty_error voucher_not_eligible)
  balance ← unwrap (pn.new v.balance)
  total ← unwrap (pn.new total_tokens)
  amount ← unwrap (pn.new d.distribute_amount)
  owned_percentage ← ok_or (pn.div balance total) (royalty_error overflow)
  whole ← unwrap (pn.new 1)
  assert (pn.less_than_or_equal owned_percentage whole)
  part ← ok_or (pn.mul amount owned_percentage) (royalty_error overflow)
  seen ← ok_or (checked_add u32_limit d.seen_vouchers 1) (royalty_error overflow)
  lamports ← ok_or (to_u64 pn part) (royalty_error overflow)
  idx ← ok_or (checked_add u32_limit v.drop_idx 1) (royalty_error overflow)
  ok (
    lamports,
    record d { seen_vouchers = seen },
    record v { drop_idx = idx; last_distribution = now },
  )
