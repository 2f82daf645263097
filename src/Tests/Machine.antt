-- ===== src/Tests/Machine.antt =====
-- A concrete runtime with memory: balances of tokens and of lamports, and the data of accounts.
use human_program_library.Base.Result.{Result, ok, err, panic}
use human_program_library.Base.{
  [], ◌+◌, ◌*◌, sym, ◌==◌, ◌≡◌, refl, ap, Option, none, some, if◌then◌else◌, Pubkey,
}
use human_program_library.Runtime.{Runtime, Cpi, token_transfer}
use human_program_library.Common.Errors.{ProgramError}
use human_program_library.Common.Codec.{Bytes}
use human_program_library.Common.Memory.{Memory}
use human_program_library.Tests.Fixtures.{Table, run_cpi, transfer_law, other_law, some-injective}
use Prim.Native.String.{len}

pub record Machine : Type 0 where
  pub balances : Table
  pub lamports : Table
  pub contents : Pubkey → Bytes

-- The called programs change the balances of tokens alone.
abbrev pub with_balances : Machine → Option Table → Option Machine
with_balances m none = none
with_balances m (some t) = some (record m { balances = t })

abbrev pub run : Cpi → Machine → Option Machine
run c m = with_balances m (run_cpi c m.balances)

pub with_balances-some :
    (m m' : Machine) (o : Option Table)
    → with_balances m o ≡ some m'
    → (o ≡ some m'.balances) × (m'.contents ≡ m.contents)
with_balances-some m m' none e = absurd (cc)
with_balances-some m m' (some t) e =
    let same = some-injective e in
    (ap (λ (x : Machine). some x.balances) same, ap (λ (x : Machine). x.contents) (sym same))

-- Addresses: the authority of a request and the wallet of a user.
abbrev pub machine_runtime : Runtime
machine_runtime = record {
  World = Machine;
  invoke = run;
  tokens = λ m a. m.balances a;
  find_address = λ s ks. 200 + len s;
  associated_token = λ owner mint. owner + 1_000;
  native_mint = 99;
  token_program = 98;
  token_account_len = 165;
  rent_minimum = λ n. n * 10;
  transfer_lem = λ s t auth n m m' ne e.
      transfer_law s t auth n m.balances m'.balances ne
        (with_balances-some m m' (run_cpi (token_transfer s t auth n) m.balances) e).0;
  transfer_other = λ s t auth n m m' a hs ht e.
      other_law s t auth n m.balances m'.balances a hs ht
        (with_balances-some m m' (run_cpi (token_transfer s t auth n) m.balances) e).0;
}

abbrev pub machine_memory : Memory machine_runtime
machine_memory = record {
  lamports = λ (m : Machine) k. m.lamports k;
  set_lamports =
      λ k n (m : Machine). record m { lamports = λ j. if j == k then n else m.lamports j };
  contents = λ (m : Machine) k. m.contents k;
  set_contents =
      λ k d (m : Machine). record m { contents = λ j. if j == k then d else m.contents j };
  lamports-set_lamports = λ k j n m. refl;
  lamports-set_contents = λ k j d m. refl;
  contents-set_contents = λ k j d m. refl;
  contents-set_lamports = λ k j n m. refl;
  tokens-set_lamports = λ k j n m. refl;
  tokens-set_contents = λ k j d m. refl;
  tokens-create =
      λ payer k n space owner m m' j e. ap (λ (x : Machine). x.balances j) (sym (some-injective e));
  contents-create = λ payer k n space owner m m' j other e.
      ap (λ (x : Machine). x.contents j) (sym (some-injective e));
  contents-transfer = λ s t auth n m m' k e.
      ap (λ f. f k) (with_balances-some m m' (run_cpi (token_transfer s t auth n) m.balances) e).1;
  contents-initialize =
      λ a mint auth m m' k other e. ap (λ (x : Machine). x.contents k) (sym (some-injective e));
  contents-close =
      λ a d auth m m' k other e. ap (λ (x : Machine). x.contents k) (sym (some-injective e));
  tokens-close =
      λ a d auth m m' k other e. ap (λ (x : Machine). x.balances k) (sym (some-injective e));
}

abbrev pub ok_bytes : Result ProgramError Bytes → Bytes
ok_bytes (ok bs) = bs
ok_bytes (err e) = []
ok_bytes panic = []
