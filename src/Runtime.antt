-- ===== src/Runtime.antt =====
-- What the programs use of Solana: calls of other programs (CPI), addresses derived from seeds, and
-- the accounts of the SPL token program. None of this is code of the repository, so it is a
-- parameter: a world that a call changes, with what the token program documents of a transfer.
pub mod Action
pub mod Chains
use Prim.Native.String.{String}
use human_program_library.Base.{◌+◌, ◌≡◌, ◌≢◌, Option, some, List, Pubkey, ℕ}

-- The calls that the programs make, with the accounts that they name.
pub data Cpi : Type 0 where
  token_transfer : (source target authority : Pubkey) (amount : ℕ) → Cpi
  token_close : (account destination authority : Pubkey) → Cpi
  token_initialize : (account mint authority : Pubkey) → Cpi
  system_create : (payer account : Pubkey) (lamports space : ℕ) (owner : Pubkey) → Cpi
  system_transfer : (source target : Pubkey) (lamports : ℕ) → Cpi

-- `invoke` returns `none` when the called program fails, which fails the transaction.
pub record Runtime : Type 1 where
  pub World : Type 0
  pub invoke : Cpi → World → Option World
  pub tokens : World → Pubkey → ℕ
  pub find_address : String → List Pubkey → Pubkey
  pub associated_token : Pubkey → Pubkey → Pubkey
  pub native_mint : Pubkey
  pub token_program : Pubkey
  pub token_account_len : ℕ
  pub rent_minimum : ℕ → ℕ
  pub transfer_lem :
      (source target authority : Pubkey) (amount : ℕ) (w w' : World)
      → source ≢ target
      → invoke (token_transfer source target authority amount) w ≡ some w'
      → (tokens w' source + amount ≡ tokens w source)
        × (tokens w' target ≡ tokens w target + amount)
  pub transfer_other :
      (source target authority : Pubkey) (amount : ℕ) (w w' : World) (a : Pubkey)
      → a ≢ source
      → a ≢ target
      → invoke (token_transfer source target authority amount) w ≡ some w'
      → tokens w' a ≡ tokens w a

-- The data of an SPL token account: `is_native` holds the rent reserve of a wrapped SOL account.
pub record TokenAccount : Type 0 where
  pub key : Pubkey
  pub mint : Pubkey
  pub amount : ℕ  -- u64
  pub delegate : Option Pubkey
  pub delegated_amount : ℕ  -- u64
  pub is_native : Option ℕ
