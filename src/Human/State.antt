-- ===== src/Human/State.antt =====
-- The state of a contract, its drops and the splits of what is paid, and the records of posts and
-- reposts (human/src/state.rs, human/src/consts.rs). A text or a 32-byte id is a key.
use human_program_library.Precise.{PreciseNumber}
use human_program_library.Base.Int.{ℤ, pos, negsuc, ltb_ℤ, leb_ℤ, checked_sub_i64}
use human_program_library.Base.Words.{checked_sub, checked_mul, u64_limit}
use human_program_library.Base.Result.{Result, ok, err, ok_or, unwrap, fail_if, and_then}
use human_program_library.Base.{
  ℕ, ◌%◌, Bool, false, ◌&&◌, ◌||◌, Option, none, some, ltb, ◌==◌, if◌then◌else◌, Pubkey,
}
use human_program_library.Human.Defs.{
  VestState, HumanError, overflow, drop_price_zero, drop_invalid_date, no_drop,
  drop_timeframe_expired, expected_price_mismatch,
}
use human_program_library.Precise.Chain.{mul_div, ◌>>=◌}

pub record DropV2 : Type 0 where
  pub id : ℕ  -- u64
  pub price : ℕ  -- u64
  pub amount : ℕ  -- u64
  pub created_at : ℤ
  pub start_date : ℤ
  pub end_date : ℤ

pub record ContractState : Type 0 where
  pub token : Pubkey
  pub owner : Pubkey
  pub admin : Pubkey
  pub commission_addr : Pubkey
  pub treasury_addr : Pubkey
  pub swap_state : Pubkey
  pub sold : ℕ  -- u64
  pub vest : VestState
  pub drop : Option DropV2
  pub current_round : Option Pubkey
  pub completed_rounds_count : ℕ  -- u64

pub record BuySplit : Type 0 where
  pub owner_split : ℕ  -- u64
  pub commission : ℕ
  pub treasury_split : ℕ
  pub token_commission : ℕ

-- `BUY_COMMISSION` and `TREASURY_COMMISSION`, in basis points
abbrev pub buy_commission : ℕ
buy_commission = 1_000

abbrev pub treasury_commission : ℕ
treasury_commission = 8_000

-- `MAX_REPOST_TIME` and `REPOST_REDEEM_COOLDOWN`: a day
abbrev pub max_repost_time : ℤ
max_repost_time = pos 86_400

abbrev pub repost_redeem_cooldown : ℤ
repost_redeem_cooldown = pos 86_400

unfoldable pub calculate_split_by_lamports : (pn : PreciseNumber) → ℕ → Option BuySplit
calculate_split_by_lamports pn lamports = do
  lamports_precise ← pn.new lamports
  bsp ← pn.new 10_000
  commission_percent ← pn.new buy_commission
  additional_split_percent ← pn.new treasury_commission
  commission ← mul_div pn lamports_precise commission_percent bsp
  treasury_split ← mul_div pn lamports_precise additional_split_percent bsp
  without_commission ← checked_sub lamports commission
  owner_split ← checked_sub without_commission treasury_split
  some (record {
    owner_split = owner_split;
    commission = commission;
    treasury_split = treasury_split;
    token_commission = 0;
  })

unfoldable pub calculate_split : (pn : PreciseNumber) → ℕ → ℕ → Option BuySplit
calculate_split pn price_per_chatlan token_amount = do
  lamports ← checked_mul u64_limit price_per_chatlan token_amount
  tokens_precise ← pn.new token_amount
  commission_percent ← pn.new buy_commission
  bsp ← pn.new 10_000
  token_commission ← mul_div pn tokens_precise commission_percent bsp
  split ← calculate_split_by_lamports pn lamports
  some (record split { token_commission = token_commission })

unfoldable pub get_ongoing_drop_price : ContractState → ℤ → Result HumanError ℕ
get_ongoing_drop_price s now = elim s.drop [
  | none ↦ err no_drop
  | some drop ↦
      if ltb_ℤ now drop.start_date || ltb_ℤ drop.end_date now
      then err drop_timeframe_expired
      else ok drop.price
]

unfoldable pub calculate_buy_split :
    (pn : PreciseNumber) → ContractState → ℤ → ℕ → ℕ → Result HumanError BuySplit
calculate_buy_split pn s now token_amount expected_price =
    and_then (get_ongoing_drop_price s now) λ price_per_chatlan.
      and_then (fail_if (ltb expected_price price_per_chatlan) expected_price_mismatch)
        λ _. ok_or (calculate_split pn price_per_chatlan token_amount) overflow

unfoldable pub create_drop :
    ContractState
    → (price id amount : ℕ) → (now start_date end_date : ℤ) → Result HumanError ContractState
create_drop s price id amount now start_date end_date = elim s.drop [
  | some drop ↦ err drop_invalid_date
  | none ↦ and_then (fail_if (price == 0) drop_price_zero) λ _.
      and_then (fail_if (leb_ℤ end_date start_date) drop_invalid_date) λ _. ok (record s {
        drop = some (record {
          id = id;
          amount = amount;
          price = price;
          start_date = start_date;
          end_date = end_date;
          created_at = now;
        });
      })
]

unfoldable pub clear_drop : ContractState → ContractState
clear_drop s = record s { drop = none }

pub record PostInfo : Type 0 where
  pub state : Pubkey
  pub post_id : Pubkey
  pub created_at : ℤ
  pub repost_price : Option ℕ  -- u64
  pub royalty_address : Pubkey
  pub payer : Pubkey
  pub name : Pubkey
  pub symbol : Pubkey
  pub uri : Pubkey

pub record RepostRecord : Type 0 where
  pub state : Pubkey
  pub token : Pubkey
  pub user : Pubkey
  pub post_id : Pubkey
  pub reposted_at : ℤ
  pub receive_amount : ℕ  -- u64
  pub payer : Pubkey

-- `.map(|elapsed| elapsed < limit).unwrap_or(false)`
abbrev pub is_below : Option ℤ → ℤ → Bool
is_below none limit = false
is_below (some elapsed) limit = ltb_ℤ elapsed limit

unfoldable pub can_repost : PostInfo → ℤ → Bool
can_repost p now = is_below (checked_sub_i64 p.created_at now) max_repost_time

-- The fourth day of the week that begins 345600 seconds after the epoch's, both ends excluded. The
-- quotient by a day in floating point lies strictly between 3 and 4 just when the seconds do; the
-- remainder of a negative number is not positive.
abbrev pub is_thursday : ℤ → Bool
is_thursday (pos n) = ltb 259_200 (n % 604_800) && ltb (n % 604_800) 345_600
is_thursday (negsuc n) = false

-- `now - 345600` panics where it overflows.
unfoldable pub can_redeem : RepostRecord → ℤ → Result HumanError Bool
can_redeem r now = and_then (unwrap (checked_sub_i64 now (pos 345_600))) λ since.
    ok (is_below (checked_sub_i64 r.reposted_at now) repost_redeem_cooldown && is_thursday since)
