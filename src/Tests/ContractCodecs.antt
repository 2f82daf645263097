-- ===== src/Tests/ContractCodecs.antt =====
-- A concrete serialization of the two versions of the state of a contract.
use human_program_library.Base.Result.{ok}
use human_program_library.Base.{
  ◌<◌, [], ◌++◌, arith, ℕ, zero, suc, ◌≡◌, refl, ap, ◌∙◌, Option, none, some, ◌∷◌, Pubkey,
}
use human_program_library.Base.Lists.{length}
use human_program_library.Common.Codec.{Bytes}
use human_program_library.Human.State.{ContractState, DropV2}
use human_program_library.Human.Program.{Program, DropV1, OldSplit, ContractStateV3}
use human_program_library.Tests.Machine.{machine_runtime, machine_memory}
use human_program_library.Tests.Codecs.{sign, magnitude, int_of, int_lem}

-- An optional key is one entry, and a date two.
abbrev key_code : Option Pubkey → ℕ
key_code none = 0
key_code (some k) = suc k

abbrev key_of : ℕ → Option Pubkey
key_of zero = none
key_of (suc k) = some k

key_lem : (k : Option Pubkey) → key_of (key_code k) ≡ k
key_lem none = refl
key_lem (some k) = refl

abbrev put_drop : Option DropV2 → Bytes → Bytes
put_drop none bs = 0 ∷ bs
put_drop (some d) bs =
    1
    ∷ d.id
    ∷ d.price
    ∷ d.amount
    ∷ sign d.created_at
    ∷ magnitude d.created_at
    ∷ sign d.start_date
    ∷ magnitude d.start_date
    ∷ sign d.end_date
    ∷ magnitude d.end_date
    ∷ bs

abbrev get_drop : {A : Type 0} → (Option DropV2 → Bytes → Option A) → Bytes → Option A
get_drop k (zero ∷ bs) = k none bs
get_drop k (suc tag ∷ id ∷ price ∷ amount ∷ s1 ∷ m1 ∷ s2 ∷ m2 ∷ s3 ∷ m3 ∷ bs) =
    k
      (some (record {
        id = id;
        price = price;
        amount = amount;
        created_at = int_of s1 m1;
        start_date = int_of s2 m2;
        end_date = int_of s3 m3;
      }))
      bs
get_drop k _ = none

abbrev put_old_drop : Option DropV1 → Bytes → Bytes
put_old_drop none bs = 0 ∷ bs
put_old_drop (some d) bs =
    1
    ∷ d.price
    ∷ sign d.start_date
    ∷ magnitude d.start_date
    ∷ sign d.end_date
    ∷ magnitude d.end_date
    ∷ bs

abbrev get_old_drop : {A : Type 0} → (Option DropV1 → Bytes → Option A) → Bytes → Option A
get_old_drop k (zero ∷ bs) = k none bs
get_old_drop k (suc tag ∷ price ∷ s2 ∷ m2 ∷ s3 ∷ m3 ∷ bs) =
    k (some (record { price = price; start_date = int_of s2 m2; end_date = int_of s3 m3 })) bs
get_old_drop k _ = none

abbrev put_split : Option OldSplit → Bytes → Bytes
put_split none bs = 0 ∷ bs
put_split (some s) bs = 1 ∷ s.percent ∷ s.split_addr ∷ bs

abbrev get_split : {A : Type 0} → (Option OldSplit → Bytes → Option A) → Bytes → Option A
get_split k (zero ∷ bs) = k none bs
get_split k (suc tag ∷ percent ∷ addr ∷ bs) =
    k (some (record { percent = percent; split_addr = addr })) bs
get_split k _ = none

drop_lem :
    {A : Type 0} (k : Option DropV2 → Bytes → Option A) (d : Option DropV2) (bs : Bytes)
    → get_drop k (put_drop d bs) ≡ k d bs
drop_lem k none bs = refl
drop_lem k (some d) bs =
    ap
      (λ t.
        k
          (some (record d {
            created_at = t;
            start_date = int_of (sign d.start_date) (magnitude d.start_date);
            end_date = int_of (sign d.end_date) (magnitude d.end_date);
          }))
          bs)
      (int_lem d.created_at)
    ∙ ap
        (λ t.
          k
            (some (record d {
              start_date = t;
              end_date = int_of (sign d.end_date) (magnitude d.end_date);
            }))
            bs)
        (int_lem d.start_date)
    ∙ ap (λ t. k (some (record d { end_date = t })) bs) (int_lem d.end_date)

old_drop_lem :
    {A : Type 0} (k : Option DropV1 → Bytes → Option A) (d : Option DropV1) (bs : Bytes)
    → get_old_drop k (put_old_drop d bs) ≡ k d bs
old_drop_lem k none bs = refl
old_drop_lem k (some d) bs =
    ap
      (λ t.
        k
          (some (record d {
            start_date = t;
            end_date = int_of (sign d.end_date) (magnitude d.end_date);
          }))
          bs)
      (int_lem d.start_date)
    ∙ ap (λ t. k (some (record d { end_date = t })) bs) (int_lem d.end_date)

split_lem :
    {A : Type 0} (k : Option OldSplit → Bytes → Option A) (s : Option OldSplit) (bs : Bytes)
    → get_split k (put_split s bs) ≡ k s bs
split_lem k none bs = refl
split_lem k (some s) bs = refl

abbrev put_contract : ContractState → Bytes → Bytes
put_contract s bs =
    s.token
    ∷ s.owner
    ∷ s.admin
    ∷ s.commission_addr
    ∷ s.treasury_addr
    ∷ s.swap_state
    ∷ s.sold
    ∷ sign s.vest.deployed_at
    ∷ magnitude s.vest.deployed_at
    ∷ s.vest.vested_periods
    ∷ key_code s.current_round
    ∷ s.completed_rounds_count
    ∷ put_drop s.drop bs

abbrev get_contract : Bytes → Option (ContractState × Bytes)
get_contract
      (token ∷ owner ∷ admin ∷ commission ∷ treasury ∷ swap ∷ sold ∷ sg ∷ n ∷ periods ∷ round
        ∷ count ∷ bs) =
    get_drop
      (λ d rest. some (
        record {
          token = token;
          owner = owner;
          admin = admin;
          commission_addr = commission;
          treasury_addr = treasury;
          swap_state = swap;
          sold = sold;
          vest = record { deployed_at = int_of sg n; vested_periods = periods };
          drop = d;
          current_round = key_of round;
          completed_rounds_count = count;
        },
        rest,
      ))
      bs
get_contract _ = none

put_drop-append : (d : Option DropV2) (rest : Bytes) → put_drop d [] ++ rest ≡ put_drop d rest
put_drop-append none rest = refl
put_drop-append (some d) rest = refl

-- The date of the deployment and the round, as they are read.
abbrev reread : ContractState → ContractState
reread s = record s {
  vest = record {
    deployed_at = int_of (sign s.vest.deployed_at) (magnitude s.vest.deployed_at);
    vested_periods = s.vest.vested_periods;
  };
  current_round = key_of (key_code s.current_round);
}

pub get_contract-put_contract :
    (s : ContractState) (rest : Bytes) → get_contract (put_contract s [] ++ rest) ≡ some (s, rest)
get_contract-put_contract s rest =
    ap (get_drop (λ d bs. some (record (reread s) { drop = d }, bs))) (put_drop-append s.drop rest)
    ∙ drop_lem (λ d bs. some (record (reread s) { drop = d }, bs)) s.drop rest
    ∙ ap
        (λ t. some (
          record s {
            vest = record { deployed_at = t; vested_periods = s.vest.vested_periods };
            current_round = key_of (key_code s.current_round);
          },
          rest,
        ))
        (int_lem s.vest.deployed_at)
    ∙ ap (λ k. some (record s { current_round = k }, rest)) (key_lem s.current_round)

abbrev put_old : ContractStateV3 → Bytes → Bytes
put_old s bs =
    s.token
    ∷ s.owner
    ∷ s.admin
    ∷ s.commission_addr
    ∷ s.sold
    ∷ sign s.vest.deployed_at
    ∷ magnitude s.vest.deployed_at
    ∷ s.vest.vested_periods
    ∷ put_old_drop s.drop (put_split s.additional_split bs)

abbrev get_old : Bytes → Option (ContractStateV3 × Bytes)
get_old (token ∷ owner ∷ admin ∷ commission ∷ sold ∷ sg ∷ n ∷ periods ∷ bs) =
    get_old_drop
      (λ d rest.
        get_split
          (λ x left. some (
            record {
              token = token;
              owner = owner;
              admin = admin;
              commission_addr = commission;
              sold = sold;
              vest = record { deployed_at = int_of sg n; vested_periods = periods };
              drop = d;
              additional_split = x;
            },
            left,
          ))
          rest)
      bs
get_old _ = none

put_old-append :
    (d : Option DropV1) (x : Option OldSplit) (rest : Bytes)
    → put_old_drop d (put_split x []) ++ rest ≡ put_old_drop d (put_split x rest)
put_old-append none none rest = refl
put_old-append none (some x) rest = refl
put_old-append (some d) none rest = refl
put_old-append (some d) (some x) rest = refl

abbrev reread_old : ContractStateV3 → Option DropV1 → Option OldSplit → ContractStateV3
reread_old s d x = record s {
  vest = record {
    deployed_at = int_of (sign s.vest.deployed_at) (magnitude s.vest.deployed_at);
    vested_periods = s.vest.vested_periods;
  };
  drop = d;
  additional_split = x;
}

pub get_old-put_old :
    (s : ContractStateV3) (rest : Bytes) → get_old (put_old s [] ++ rest) ≡ some (s, rest)
get_old-put_old s rest =
    ap (get_old_drop (λ d bs. get_split (λ x left. some (reread_old s d x, left)) bs))
      (put_old-append s.drop s.additional_split rest)
    ∙ old_drop_lem (λ d bs. get_split (λ x left. some (reread_old s d x, left)) bs) s.drop
        (put_split s.additional_split rest)
    ∙ split_lem (λ x left. some (reread_old s s.drop x, left)) s.additional_split rest
    ∙ ap
        (λ t. some (
          record s { vest = record { deployed_at = t; vested_periods = s.vest.vested_periods } },
          rest,
        ))
        (int_lem s.vest.deployed_at)

abbrev pub human : Program
human = record {
  rt = machine_runtime;
  mem = machine_memory;
  states = record {
    encode = λ s. put_contract s [];
    decode = get_contract;
    decode-encode = get_contract-put_contract;
  };
  old_states = record {
    encode = λ s. put_old s [];
    decode = get_old;
    decode-encode = get_old-put_old;
  };
  program_id = 7;
  system_program = 22;
  mint_authority = λ w k. ok none;
}

drop_small : (d : Option DropV2) → length (put_drop d []) < 11
drop_small none = omega arith
drop_small (some d) = omega arith

pub human_small : (s : ContractState) → length (human.states.encode s) < 513
human_small s = omega (arith, drop_small s.drop)
