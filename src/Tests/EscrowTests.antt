-- ===== src/Tests/EscrowTests.antt =====
-- The theorems of the escrow program at concrete requests.
use human_program_library.Base.{◌≡◌, refl, some, [], ◌∷◌}
use human_program_library.Base.Int.{pos}
use human_program_library.Base.Result.{ok, err}
use human_program_library.Common.Errors.{borsh_io_error, account_already_initialized}
use human_program_library.Escrow.Defs.{CreateInstructionRequest, open_status, State, Request}
use human_program_library.Escrow.Storage.{next_owned_token_wallet, next_state_account, write_state}
use human_program_library.Escrow.Create.{request_of, process_create}
use human_program_library.Escrow.Contribute.{process_contribute}
use human_program_library.Escrow.Refund.{process_refund}
use human_program_library.Escrow.Decide.{process_accept, process_cancel, process_decline}
use human_program_library.Escrow.CreateLaws.{funded_request_read_back, unfunded_request_unreadable}
use human_program_library.Escrow.Storage.{next_owned_token_wallet}
use human_program_library.Escrow.Create.{request_of}
use human_program_library.Base.{◌<◌, ◌+◌, true, arith, none}
use human_program_library.Common.Accounts.{TokenState}
use human_program_library.Escrow.Decide.{accept_request, settle_accepted}
use human_program_library.Escrow.Defs.{try_accept}
use human_program_library.Escrow.Storage.{erase_state, zeros}
use human_program_library.Escrow.AcceptLaws.{accept_funded_pays}
use human_program_library.Tests.Machine.{Machine}
use human_program_library.Tests.Codecs.{pad, state_codec-IsBorsh}
use human_program_library.Tests.EscrowData.{
  at_request, escrow, machine, token_account, state_acc, create_args, unfunded_state, world_of,
}

-- A funded request of 500 tokens, created at the time 5 in an account of 138 bytes.
abbrev before_funded : Machine
before_funded = machine 500 (pad 138 [])

abbrev after_funded : Machine
unfolding process_create write_state next_owned_token_wallet request_of
after_funded = world_of before_funded (
    process_create escrow (create_args (CreateInstructionRequest.funded 41)) (pos 5)
      (state_acc ∷ token_account 11 201 500 ∷ [], before_funded))

abbrev funded_state : State
funded_state = record {
  request_status = open_status;
  created_at = pos 5;
  wallet = 11;
  destination = 40;
  payer = 12;
  request = Request.funded 41;
}

funded_request_read_back_example :
    (next_state_account escrow (state_acc ∷ [], after_funded)
      ≡ ok ((funded_state, 10), ([], after_funded)))
    × (write_state escrow 10 (unfunded_state open_status 0) ([], after_funded)
        ≡ err account_already_initialized)
unfolding process_create write_state next_owned_token_wallet request_of
funded_request_read_back_example =
    funded_request_read_back escrow (create_args (CreateInstructionRequest.funded 41)) (pos 5) 41
      state_acc (token_account 11 201 500) [] [] [] before_funded after_funded tt
      (unfunded_state open_status 0) state_codec-IsBorsh refl refl refl refl

-- The request that was created is accepted: its 500 tokens go to the wallet 40.
abbrev funded_wallet : TokenState
funded_wallet = record {
  mint = 3;
  owner = 201;
  amount = 500;
  delegate = none;
  is_native = none;
  delegated_amount = 0;
  close_authority = none;
}

abbrev after_accept : Machine
unfolding process_create write_state next_owned_token_wallet request_of accept_request try_accept
    settle_accepted erase_state
after_accept =
    world_of after_funded
      (accept_request escrow funded_state 10 12 funded_wallet 40 ([], after_funded))

accept_funded_pays_example :
    (true ≡ true)
    × (0 < 500)
    × (after_accept.balances 40 ≡ 0 + 500)
    × (after_accept.contents 10 ≡ zeros (after_funded.contents 10))
    × (after_accept.lamports 10 ≡ 0)
unfolding process_create write_state next_owned_token_wallet request_of accept_request try_accept
    settle_accepted erase_state
accept_funded_pays_example =
    accept_funded_pays escrow funded_state 41 10 12 funded_wallet 40 [] [] after_funded after_accept
      tt refl (λ e. absurd (omega arith)) (λ e. absurd (omega arith)) (λ e. absurd (omega arith))
      refl

-- An unfunded request with the deadline 100 and the threshold 50 in such an account.
abbrev before_unfunded : Machine
before_unfunded = machine 0 (pad 138 [])

abbrev unfunded_args : CreateInstructionRequest
unfunded_args = CreateInstructionRequest.unfunded (some (pos 100)) 50

abbrev after_unfunded : Machine
unfolding process_create write_state next_owned_token_wallet request_of
after_unfunded = world_of before_unfunded (
    process_create escrow (create_args unfunded_args) (pos 5)
      (state_acc ∷ token_account 11 201 0 ∷ [], before_unfunded))

unfunded_request_unreadable_example :
    let s = at_request (after_unfunded) in
    (process_contribute escrow 5 (pos 6) s ≡ err borsh_io_error)
    × (process_refund escrow s ≡ err borsh_io_error)
    × (process_accept escrow (pos 6) s ≡ err borsh_io_error)
    × (process_cancel escrow s ≡ err borsh_io_error)
    × (process_decline escrow s ≡ err borsh_io_error)
unfolding process_create write_state next_owned_token_wallet request_of
unfunded_request_unreadable_example =
    unfunded_request_unreadable escrow (create_args unfunded_args) (pos 5) (pos 6) (some (pos 100))
      50 5 state_acc (token_account 11 201 0 ∷ []) [] [] before_unfunded after_unfunded tt
      state_codec-IsBorsh refl refl refl
