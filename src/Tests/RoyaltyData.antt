-- ===== src/Tests/RoyaltyData.antt =====
-- A royalty program on the concrete machine, with states, vouchers and accounts.
use human_program_library.Base.{
  List, zero, suc, ◌+◌, ◌++◌, ℕ, ◌≡◌, refl, Option, none, some, [], ◌∷◌, ◌==◌, if◌then◌else◌,
  Pubkey,
}
use human_program_library.Base.Int.{pos}
use human_program_library.Base.Result.{ok}
use human_program_library.Common.Codec.{Bytes}
use human_program_library.Common.Entity.{serialize_to}
use human_program_library.Common.Accounts.{AccountInfo, TokenState}
use human_program_library.Royalty.Defs.{State, Voucher, Distribution}
use human_program_library.Royalty.Distribute.{fixed_settings}
use human_program_library.Royalty.Program.{Program, state_entity, voucher_entity}
use human_program_library.Royalty.Withdraw.{WithdrawAccounts}
use human_program_library.Royalty.Tokens.{TokenAccounts}
use human_program_library.Tests.Machine.{Machine, machine_runtime, machine_memory, ok_bytes}
use human_program_library.Tests.Codecs.{pad, royalty_voucher_codec}
use human_program_library.Tests.EscrowData.{token_account, account}

abbrev put_distribution : Option Distribution → Bytes → Bytes
put_distribution none bs = 0 ∷ bs
put_distribution (some d) bs = 1 ∷ d.distribute_amount ∷ d.seen_vouchers ∷ bs

abbrev get_distribution : State → Bytes → Option (State × Bytes)
get_distribution s [] = none
get_distribution s (zero ∷ bs) = some (record s { distribution = none }, bs)
get_distribution s (suc tag ∷ amount ∷ seen ∷ bs) = some (
  record s { distribution = some (record { distribute_amount = amount; seen_vouchers = seen }) },
  bs,
)
get_distribution s (suc tag ∷ bs) = none

abbrev get_state : Bytes → Option (State × Bytes)
get_state
      (wallet ∷ owner ∷ host ∷ total ∷ user_total ∷ minimum ∷ owner_fee ∷ host_fee ∷ flat ∷ idx
        ∷ count ∷ held ∷ mint ∷ realm ∷ vault ∷ bs) =
    get_distribution
      (record {
        wallet = wallet;
        owner = owner;
        host = host;
        total_distributed = total;
        total_user_distributed = user_total;
        settings = record {
          min_token_to_enroll = minimum;
          owner_fee = owner_fee;
          host_fee = host_fee;
          host_flat_fee = flat;
        };
        drop_idx = idx;
        vouchers_count = count;
        tokens_held = held;
        distribution = none;
        token_mint = mint;
        realm_addr = realm;
        vault_addr = vault;
      })
      bs
get_state _ = none

abbrev put_state : State → Bytes
put_state s =
    s.wallet
    ∷ s.owner
    ∷ s.host
    ∷ s.total_distributed
    ∷ s.total_user_distributed
    ∷ s.settings.min_token_to_enroll
    ∷ s.settings.owner_fee
    ∷ s.settings.host_fee
    ∷ s.settings.host_flat_fee
    ∷ s.drop_idx
    ∷ s.vouchers_count
    ∷ s.tokens_held
    ∷ s.token_mint
    ∷ s.realm_addr
    ∷ s.vault_addr
    ∷ put_distribution s.distribution []

distribution_lem :
    (s : State) (d : Option Distribution) (rest : Bytes)
    → get_distribution s (put_distribution d [] ++ rest)
      ≡ some (record s { distribution = d }, rest)
distribution_lem s none rest = refl
distribution_lem s (some d) rest = refl

pub get_state-put_state :
    (s : State) (rest : Bytes) → get_state (put_state s ++ rest) ≡ some (s, rest)
get_state-put_state s rest = distribution_lem (record s { distribution = none }) s.distribution rest

abbrev pub royalty : Program
royalty = record {
  rt = machine_runtime;
  mem = machine_memory;
  states = record { encode = put_state; decode = get_state; decode-encode = get_state-put_state };
  vouchers = royalty_voucher_codec;
  weights = record {
    encode = λ v. v.realm ∷ v.governing_token_mint ∷ v.governing_token_owner ∷ v.voter_weight ∷ [];
    decode = λ bs. elim bs [
      | r ∷ m ∷ o ∷ n ∷ rest ↦ some (
        record { realm = r; governing_token_mint = m; governing_token_owner = o; voter_weight = n },
        rest,
      )
      | _ ↦ none
    ];
    decode-encode = λ v rest. refl;
  };
  max_weights = record {
    encode = λ v. v.realm ∷ v.governing_token_mint ∷ v.max_voter_weight ∷ [];
    decode = λ bs. elim bs [
      | r ∷ m ∷ n ∷ rest ↦
          some (record { realm = r; governing_token_mint = m; max_voter_weight = n }, rest)
      | _ ↦ none
    ];
    decode-encode = λ v rest. refl;
  };
  program_id = 7;
  system_program = 22;
  associated_token_program = 23;
  round_program = 24;
  compute_budget_program = 25;
  instructions_id = 26;
  programs_called = λ w. 7 ∷ [];
  token_owner_record_address = λ realm mint user. realm + mint + user;
  token_owner_record = λ w k. ok (record {
    realm = 70;
    governing_token_mint = 3;
    governing_token_owner = 5;
    unrelinquished_votes_count = 0;
  });
}

-- A state in account 50 that counts the tokens of the vouchers in 207 and 60; the voucher in 61 is
-- another state's.
abbrev pub state_holding : ℕ → State
state_holding tokens_held = record {
  wallet = 206;
  owner = 40;
  host = 41;
  total_distributed = 0;
  total_user_distributed = 0;
  settings = fixed_settings;
  drop_idx = 3;
  vouchers_count = 2;
  tokens_held = tokens_held;
  distribution = none;
  token_mint = 3;
  realm_addr = 70;
  vault_addr = 71;
}

abbrev pub voucher_holding : Pubkey → Pubkey → ℕ → Voucher
voucher_holding user state balance = record {
  user = user;
  state = state;
  drop_idx = 3;
  balance = balance;
  last_distribution = pos 0;
}

abbrev pub stored_voucher : Voucher → Bytes
unfolding serialize_to
stored_voucher v = ok_bytes (serialize_to (voucher_entity royalty) v (pad 128 []))

abbrev pub stored_state : State → Bytes
unfolding serialize_to
stored_state s = ok_bytes (serialize_to (state_entity royalty) s (pad 512 []))

abbrev pub royalty_machine : Machine
royalty_machine = record {
  balances = λ k. if k == 206 then 500 else if k == 1_005 then 80 else 0;
  lamports = λ k. 5_000_000;
  contents = λ k.
      if k == 50
      then stored_state (state_holding 500)
      else if k == 207
      then stored_voucher (voucher_holding 5 50 300)
      else if k == 60
      then stored_voucher (voucher_holding 6 50 200)
      else if k == 61
      then stored_voucher (voucher_holding 5 99 150)
      else pad 200 [];
}

abbrev pub token_state : TokenState
token_state = record {
  mint = 3;
  owner = 40;
  amount = 10;
  delegate = none;
  is_native = none;
  delegated_amount = 0;
  close_authority = none;
}

abbrev pub withdraw_from : Pubkey → Voucher → WithdrawAccounts
withdraw_from voucher_key voucher = record {
  wallet = token_state;
  voucher = voucher;
  voucher_key = voucher_key;
  user_wallet = 1_005;
  voter_record = account 78 22;
  vote_weight_record = account 211 7;
  vault = token_state;
  owner_atoken = token_state;
  max_weight_record = account 215 7;
  funder = account 12 22;
}

abbrev pub deposit_by : TokenAccounts
deposit_by = record {
  wallet = token_state;
  voucher_acc = account 207 7;
  user = account 5 22;
  user_wallet = 1_005;
  vault = token_state;
  owner_atoken = token_state;
  max_weight_record = account 215 7;
  funder = account 12 22;
}

-- The accounts of a withdrawal from the voucher in some account, after the state.
abbrev pub withdraw_accs : Pubkey → List AccountInfo
withdraw_accs voucher_key =
    token_account 206 40 10
    ∷ account voucher_key 7
    ∷ account 5 22
    ∷ token_account 1_005 40 10
    ∷ account 78 22
    ∷ account 211 7
    ∷ token_account 71 40 10
    ∷ token_account 1_040 40 10
    ∷ account 215 7
    ∷ account 12 22
    ∷ account 98 22
    ∷ account 22 22
    ∷ []

-- The accounts of a deposit of the user 5, after the state.
abbrev pub deposit_accs : List AccountInfo
deposit_accs =
    token_account 206 40 10
    ∷ account 207 7
    ∷ account 5 22
    ∷ token_account 1_005 40 10
    ∷ token_account 71 40 10
    ∷ token_account 1_040 40 10
    ∷ account 215 7
    ∷ account 12 22
    ∷ account 22 22
    ∷ account 98 22
    ∷ account 26 22
    ∷ []
