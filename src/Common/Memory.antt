-- ===== src/Common/Memory.antt =====
-- The memory of the accounts that a program handles: their lamports and, for those it owns, their
-- data. Solana keeps both; a program reads and writes them, and the calls of other programs leave
-- the data of its accounts alone.
use human_program_library.Base.{◌≢◌, false, ℕ, ◌≡◌, Bool, ◌||◌, some, ◌==◌, if◌then◌else◌, Pubkey}
use human_program_library.Runtime.{
  Runtime, Cpi, token_transfer, token_close, token_initialize, system_create, system_transfer,
}
use human_program_library.Common.Codec.{Bytes}

pub record Memory (rt : Runtime) : Type 0 where
  pub lamports : rt.World → Pubkey → ℕ
  pub set_lamports : Pubkey → ℕ → rt.World → rt.World
  pub contents : rt.World → Pubkey → Bytes
  pub set_contents : Pubkey → Bytes → rt.World → rt.World
  pub lamports-set_lamports :
      (k j : Pubkey) (n : ℕ) (w : rt.World)
      → lamports (set_lamports k n w) j ≡ (if j == k then n else lamports w j)
  pub lamports-set_contents :
      (k j : Pubkey) (d : Bytes) (w : rt.World) → lamports (set_contents k d w) j ≡ lamports w j
  pub contents-set_contents :
      (k j : Pubkey) (d : Bytes) (w : rt.World)
      → contents (set_contents k d w) j ≡ (if j == k then d else contents w j)
  pub contents-set_lamports :
      (k j : Pubkey) (n : ℕ) (w : rt.World) → contents (set_lamports k n w) j ≡ contents w j
  pub tokens-set_lamports :
      (k j : Pubkey) (n : ℕ) (w : rt.World) → rt.tokens (set_lamports k n w) j ≡ rt.tokens w j
  pub tokens-set_contents :
      (k j : Pubkey) (d : Bytes) (w : rt.World) → rt.tokens (set_contents k d w) j ≡ rt.tokens w j
  pub tokens-create :
      (payer account : Pubkey) (lamports_given space : ℕ) (owner : Pubkey) (w w' : rt.World)
      (k : Pubkey)
      → rt.invoke (system_create payer account lamports_given space owner) w ≡ some w'
      → rt.tokens w' k ≡ rt.tokens w k
  pub contents-create :
      (payer account : Pubkey) (lamports_given space : ℕ) (owner : Pubkey) (w w' : rt.World)
      (k : Pubkey)
      → (k == account) ≡ false
      → rt.invoke (system_create payer account lamports_given space owner) w ≡ some w'
      → contents w' k ≡ contents w k
  pub contents-transfer :
      (source target authority : Pubkey) (amount : ℕ) (w w' : rt.World) (k : Pubkey)
      → rt.invoke (token_transfer source target authority amount) w ≡ some w'
      → contents w' k ≡ contents w k
  pub contents-initialize :
      (account mint authority : Pubkey) (w w' : rt.World) (k : Pubkey)
      → k ≢ account
      → rt.invoke (token_initialize account mint authority) w ≡ some w'
      → contents w' k ≡ contents w k
  pub contents-close :
      (account dest authority : Pubkey) (w w' : rt.World) (k : Pubkey)
      → k ≢ account
      → rt.invoke (token_close account dest authority) w ≡ some w'
      → contents w' k ≡ contents w k
  pub tokens-close :
      (account dest authority : Pubkey) (w w' : rt.World) (k : Pubkey)
      → k ≢ account
      → rt.invoke (token_close account dest authority) w ≡ some w'
      → rt.tokens w' k ≡ rt.tokens w k

-- The accounts that an instruction names.
abbrev pub names : Cpi → Pubkey → Bool
names (token_transfer s t a n) k = s == k || t == k || a == k
names (token_close s d a) k = s == k || d == k || a == k
names (token_initialize s m a) k = s == k || m == k || a == k
names (system_create p s l n o) k = p == k || s == k
names (system_transfer s t n) k = s == k || t == k
