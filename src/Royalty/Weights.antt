-- ===== src/Royalty/Weights.antt =====
-- The vote weights (royalty/src/lib.rs): the records for the governance program, and the check
-- that a user has no outstanding votes.
use human_program_library.Base.{ℕ, [], ◌∷◌, ltb, ◌!=◌, if◌then◌else◌, Pubkey}
use human_program_library.Base.Words.{checked_add, u64_limit}
use human_program_library.Base.Result.{and_then, Result, ok_or}
use human_program_library.Runtime.{system_create}
use human_program_library.Runtime.Action.{◌>>=◌, ◌>>◌, pure}
use human_program_library.Common.Errors.{ProgramError, invalid_argument, invalid_seeds}
use human_program_library.Common.Codec.{Bytes}
use human_program_library.Common.Entity.{is_empty, copy_slice}
use human_program_library.Common.EntityAccounts.{read_data, write_data, call_program}
use human_program_library.Common.Accounts.{AccountInfo, TokenState, Handler, check, need}
use human_program_library.Royalty.Defs.{overflow, unrelinquished_votes}
use human_program_library.Royalty.Program.{Program, error_of}

-- The tokens on vouchers, in the vault and with the owner.
unfoldable pub max_vote_weight : ℕ → TokenState → TokenState → Result ProgramError ℕ
max_vote_weight tokens_held vault owner_atoken =
    and_then (ok_or (checked_add u64_limit tokens_held vault.amount) (error_of overflow))
      (λ sum. ok_or (checked_add u64_limit sum owner_atoken.amount) (error_of overflow))

module _ (p : Program) where
  open p use {rt, mem}

  unfoldable pub create_or_save_account :
      Bytes → ℕ → AccountInfo → AccountInfo → Handler rt (Unit {0})
  create_or_save_account serialized data_size record_acc funder = do
    if record_acc.owner != p.program_id
        then call_program rt mem (
            system_create funder.key record_acc.key (rt.rent_minimum data_size) data_size
              p.program_id)
        else pure tt
    bytes ← read_data rt mem record_acc.key
    write_data rt mem record_acc.key (copy_slice bytes serialized)

  unfoldable pub update_voter_weight :
      (state_addr realm_addr realm_token user : Pubkey) (balance : ℕ)
      (record_acc funder : AccountInfo)
      → Handler rt (Unit {0})
  update_voter_weight state_addr realm_addr realm_token user balance record_acc funder = do
    check rt (record_acc.key != rt.find_address "VOTE_WEIGHT" (state_addr ∷ user ∷ []))
        invalid_seeds
    create_or_save_account
        (p.weights.encode (record {
          realm = realm_addr;
          governing_token_mint = realm_token;
          governing_token_owner = user;
          voter_weight = balance;
        }))
        164 record_acc funder

  unfoldable pub update_max_voter_weight :
      (state_addr realm_addr realm_token : Pubkey) (max_weight : ℕ)
      (record_acc funder : AccountInfo)
      → Handler rt (Unit {0})
  update_max_voter_weight state_addr realm_addr realm_token max_weight record_acc funder = do
    check rt (record_acc.key != rt.find_address "MAX_VOTE_WEIGHT" (state_addr ∷ [])) invalid_seeds
    create_or_save_account
        (p.max_weights.encode (record {
          realm = realm_addr;
          governing_token_mint = realm_token;
          max_voter_weight = max_weight;
        }))
        97 record_acc funder

  unfoldable pub assert_no_unrequilished_votes :
      (acc : AccountInfo) (realm_addr token_mint user : Pubkey) → Handler rt (Unit {0})
  assert_no_unrequilished_votes acc realm_addr token_mint user = do
    check rt (p.token_owner_record_address realm_addr token_mint user != acc.key) invalid_argument
    bytes ← read_data rt mem acc.key
    if is_empty bytes then pure tt else (do
      found ← λ (accs, w). need rt (p.token_owner_record w acc.key) (accs, w)
      check rt (found.realm != realm_addr) invalid_argument
      check rt (found.governing_token_mint != token_mint) invalid_argument
      check rt (found.governing_token_owner != user) invalid_argument
      check rt (ltb 0 found.unrelinquished_votes_count) (error_of unrelinquished_votes))
