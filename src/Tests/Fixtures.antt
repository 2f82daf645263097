-- ===== src/Tests/Fixtures.antt =====
-- A concrete runtime: the world is a table of token balances, a transfer needs the balance, and
-- every other call succeeds without an effect on it.
use human_program_library.Base.{
  ℕ, ◌+◌, ◌-◌, ◌*◌, ◌≤◌, ◌≡◌, ap, subst, ◌≢◌, inl, inr, Option, none, some, arith, leb, ◌==◌,
  if◌then◌else◌, Pubkey, leb→le, Bool-cases,
}
use Prim.Native.String.{len}
use human_program_library.Runtime.{
  Runtime, Cpi, token_transfer, token_close, token_initialize, system_create, system_transfer,
}

abbrev pub Table : Type 0
Table = Pubkey → ℕ

abbrev pub move_tokens : Pubkey → Pubkey → ℕ → Table → Table
move_tokens s t n w a = if a == s then w s - n else if a == t then w t + n else w a

abbrev pub run_cpi : Cpi → Table → Option Table
run_cpi (token_transfer s t auth n) w = if leb n (w s) then some (move_tokens s t n w) else none
run_cpi (token_close a d auth) w = some w
run_cpi (token_initialize a m auth) w = some w
run_cpi (system_create p a l s o) w = some w
run_cpi (system_transfer s t l) w = some w

pub some-injective : {A : Type 0} {a b : A} → some a ≡ some b → a ≡ b
some-injective {a} e = ap (λ o. elim o [ none ↦ a | some x ↦ x ]) e

run_cpi-moves :
    (s t auth : Pubkey) (n : ℕ) (w w' : Table)
    → run_cpi (token_transfer s t auth n) w ≡ some w'
    → (n ≤ w s) × (move_tokens s t n w ≡ w')
run_cpi-moves s t auth n w w' e = elim (Bool-cases (leb n (w s))) [
  | inl h ↦ (leb→le n (w s) h, some-injective (rw h at e))
  | inr h ↦ absurd (ground arith)
]

pub transfer_law :
    (s t auth : Pubkey) (n : ℕ) (w w' : Table)
    → s ≢ t
    → run_cpi (token_transfer s t auth n) w ≡ some w'
    → (w' s + n ≡ w s) × (w' t ≡ w t + n)
transfer_law s t auth n w w' ne e =
    let (le, moved) = run_cpi-moves s t auth n w w' e in
    subst (λ v. (v s + n ≡ w s) × (v t ≡ w t + n)) moved (ground arith, ground arith)

pub other_law :
    (s t auth : Pubkey) (n : ℕ) (w w' : Table) (a : Pubkey)
    → a ≢ s
    → a ≢ t
    → run_cpi (token_transfer s t auth n) w ≡ some w'
    → w' a ≡ w a
other_law s t auth n w w' a hs ht e =
    let (le, moved) = run_cpi-moves s t auth n w w' e in subst (λ v. v a ≡ w a) moved (ground arith)

-- The derived address of a seed is told by the length of its literal.
abbrev pub table_runtime : Runtime
table_runtime = record {
  World = Table;
  invoke = run_cpi;
  tokens = λ w a. w a;
  find_address = λ s ks. 200 + len s;
  associated_token = λ owner mint. owner + 1_000;
  native_mint = 99;
  token_program = 98;
  token_account_len = 165;
  rent_minimum = λ n. n * 10;
  transfer_lem = transfer_law;
  transfer_other = other_law;
}
