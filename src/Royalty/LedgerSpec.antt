-- ===== src/Royalty/LedgerSpec.antt =====
-- What deposits and withdrawals promise: a ledger of balances with their total, and the calls of the
-- program that carry out its operations.
use human_program_library.Base.{
  ℕ, ◌+◌, ◌-◌, Option, none, some, ◌==◌, leb, if◌then◌else◌, List, Pubkey, ◌≡◌, true,
}
use human_program_library.Base.Lists.{contains}
use human_program_library.Common.Accounts.{Handler}
use human_program_library.Royalty.Defs.{State, Voucher}
use human_program_library.Royalty.Program.{Program}
use human_program_library.Royalty.Tokens.{TokenAccounts, record_deposit}
use human_program_library.Royalty.Withdraw.{WithdrawAccounts, record_withdraw}
use human_program_library.Royalty.VoucherLedger.{balance_in}

pub record Ledger : Type 0 where
  pub total : ℕ
  pub balance : Pubkey → ℕ

abbrev pub deposited : Pubkey → ℕ → Ledger → Ledger
deposited k n l = record {
  total = l.total + n;
  balance = λ j. if j == k then l.balance j + n else l.balance j;
}

-- A withdrawal beyond the balance is refused.
abbrev pub withdrawn : Pubkey → ℕ → Ledger → Option Ledger
withdrawn k n l =
    if leb n (l.balance k)
    then some (record {
      total = l.total - n;
      balance = λ j. if j == k then l.balance j - n else l.balance j;
    })
    else none

-- A call with the accounts that it read.
pub data TokenCall : Type 0 where
  deposit_tokens : TokenAccounts → Voucher → (amount : ℕ) → TokenCall
  withdraw_tokens : WithdrawAccounts → (amount : ℕ) → TokenCall

abbrev pub spec_of : TokenCall → Ledger → Option Ledger
spec_of (deposit_tokens a v n) l = some (deposited a.voucher_acc.key n l)
spec_of (withdraw_tokens a n) l = withdrawn a.voucher_key n l

module _ (p : Program) where
  open p use {rt, mem}

  unfoldable pub run_call : TokenCall → State → Pubkey → Handler rt (Unit {0})
  run_call (deposit_tokens a v n) s key = record_deposit p s key a n v
  run_call (withdraw_tokens a n) s key = record_withdraw p s key a n

  -- The state and the vouchers in some accounts stand for a ledger.
  unfoldable pub IsLedger : List Pubkey → State → rt.World → Ledger → Type 0
  IsLedger keys s w l =
      (s.tokens_held ≡ l.total)
      × ((k : Pubkey) → contains k keys ≡ true → balance_in p w k ≡ l.balance k)
