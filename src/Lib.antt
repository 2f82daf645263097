-- ===== src/Lib.antt =====
-- Verification library of the human programs: Solana programs in Rust for crowd-funded rounds, for
-- splitting revenue and for paying royalties.
--
-- The programs and their files:
--   * fanout (fanout/src): `Fanout/Defs` has the account and its members, `Fanout/Init` the
--     instruction `initialize`, `Fanout/Split` `Fanout::calculate_split`, `Fanout/Pay` the loop of
--     `distribute`. What they do is in `Fanout/InitLaws`, `Fanout/SplitLaws`, `Fanout/PayLaws`,
--     `Fanout/Payout` and, for a list that repeats an address, `Fanout/Duplicates`.
--   * round (round/src): `Round/Defs` has the accounts, the status and the errors, `Round/Guards` the
--     guards of `impl Round`, `Round/Redeem` `calculate_redeem_amount`, `Round/Events` the events.
--     `Round/Context` and `Round/Lifecycle/Context` have the accounts of each instruction with the
--     constraints of their attributes; `Round/Bids` and `Round/Lifecycle` have the handlers, under
--     their names in round/src/lib.rs. `Round/Invariant` puts them together as calls on the stored
--     round, `Round/History` runs any list of calls, and `Round/GuardLaws`, `Round/BidLaws` and
--     `Round/Panics` hold the laws of the guards, of the tokens and of panics.
--   * royalty (royalty/src): `Royalty/Defs` has the accounts, the errors and a store of lamports and
--     vouchers; `Royalty/Split` has `Settings` and `Distribution::distribute_to` of state.rs, and
--     `Royalty/Distribute` and `Royalty/Claim` the handlers `process_distribute` and `process_claim`
--     of lib.rs. `Royalty/SplitLaws` is about single splits and payments, `Royalty/DistributeLaws` and
--     `Royalty/Payments` about the loop over vouchers, `Royalty/Ledger` about sums of lamports,
--     `Royalty/Drops` about whole calls and `Royalty/ClaimLaws` about claims. `Royalty/Program` is what
--     the other handlers run on: `Royalty/Tokens` has `process_deposit`, `Royalty/Withdraw`
--     `process_withdraw`, `Royalty/Account` `process_initialize`, `process_sync_weight_record` and
--     `process_migrate`, `Royalty/Weights` the vote weights. `Royalty/VoucherLedger` sums the vouchers
--     of a state, and `Royalty/DepositLaws`, `Royalty/WithdrawLaws`, `Royalty/WeightLaws` and
--     `Royalty/AccountLaws` are about these handlers; `Royalty/LedgerSpec` says what a ledger of
--     balances promises, `Royalty/Refinement` compares the recording parts with it, and with
--     `Royalty/Reads` (what is read first) and `Royalty/OpenLaws` (a first deposit) `Royalty/Calls`
--     compares whole calls.
--   * human (human/src): `Human/State` has the state of a contract with its drops, splits and time
--     windows (state.rs), `Human/Vest` the vesting (vest.rs), under the
--     constants of a build without the feature `dev`. Their laws are in `Human/StateLaws`,
--     `Human/VestLaws`, `Human/Schedule` and `Human/Timely` (calls at any times). The instruction
--     `Vest` does not reach `process_vest` at this commit: human/src/lib.rs logs that vesting is
--     disabled, and the call is commented out. `Human/Migration`
--     has the first state of a contract and the migration of an old one (state.rs), on what
--     `Human/Program` lists, `Human/Contract` the handlers on the accounts of a contract (lib.rs), and
--     `Human/ContractLaws` what they allow.
--
--   * escrow (escrow/src/lib.rs): `Escrow/Defs` has the requests, the vouchers and the methods of
--     `State`, `Escrow/Program` what the program runs on, `Escrow/Storage` how accounts are read and
--     written (`write_state` to `erase_state`, `get_voucher`, `redeem_voucher`), `Escrow/Create`,
--     `Escrow/Contribute`, `Escrow/Refund` and `Escrow/Decide` the handlers under their names, and
--     `Escrow/Entry` the entry point. `Escrow/Layout` has the sizes of borsh. What they do is in
--     `Escrow/StateLaws`, `Escrow/CreateLaws`, `Escrow/AcceptLaws` and `Escrow/EraseLaws`. Contributions,
--     refunds and the expiry, which are about unfunded requests, are modelled without results of their
--     own.
--   * common (common/src): `Common/Entity` has the trait of entities and `Common/Accounts` the
--     iterators over the accounts of an instruction, `Common/EntityAccounts` entities in accounts with
--     the guard that writes them back; `Common/EntityLaws`, `Common/EntityAccountLaws`
--     and `Common/Keeps` (handlers that only read) what they do.
--
-- Base has the numbers, words, integers, lists and results that the parts share. A `u64` or an `i64`
-- is a natural number or an integer, of which every operation states its bound; the programs are
-- built with overflow checks and abort on a panic, so an unchecked overflow is `panic`. An error of a
-- handler rolls the transaction back: a failed call leaves the round and the world as they were.
--
-- What the repository does not contain is a parameter. `Precise` is the arithmetic of the crate
-- spl_math, a record of operations with the accuracy that the crate documents; `Precise/Reference`
-- is a concrete instance, `Precise/Rounding` and `Precise/Portions` say how shares are rounded.
-- `Runtime` is what the programs use of Solana: calls of other programs, addresses derived from
-- seeds, and the balances of token accounts, with what the token program documents of a transfer.
-- The handlers of rounds and of the vesting are actions on its world (`Runtime/Action`,
-- `Runtime/Chains`). `Common/Memory` adds the lamports and the data of accounts, `Common/Codec` the
-- crate borsh; the handlers of escrow are actions on the accounts that are left and on that world.
-- Time is an argument. No definition needs fuel: every loop is over a list.
--
-- Tests has runs at concrete inputs.
--
-- The accounts that the framework of round creates before a handler runs (`init_if_needed` of a new
-- voucher) are there when the handlers of the model run: the call of the system program is not part of
-- them. `process_init_state` has no check of the owner of the state account, which the creation just
-- before sets.
--
-- Not modelled: the handlers of human/src/lib.rs on commissions, posts, reposts and rounds, logging,
-- and the builders of instructions for clients.
pub mod Base
pub mod Precise
pub mod Runtime
pub mod Common
pub mod Fanout
pub mod Round
pub mod Royalty
pub mod Human
pub mod Escrow
mod Tests
