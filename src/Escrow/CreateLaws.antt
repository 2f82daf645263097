-- ===== src/Escrow/CreateLaws.antt =====
-- What `process_create` leaves, and how the other handlers find it.
use human_program_library.Base.Lists.{length}
use human_program_library.Base.Int.{ℤ}
use human_program_library.Base.Result.{err, ok}
use human_program_library.Base.{
  sym, subst, ℕ, refl, ap, ◌∙◌, Option, [], ==_refl, ◌≤◌, ◌≡◌, List, ◌∷◌, arith, Pubkey,
}
use human_program_library.Runtime.Chains.{bind_at-eq-ok}
use human_program_library.Common.Errors.{borsh_io_error, account_already_initialized}
use human_program_library.Common.Codec.{try_from_slice}
use human_program_library.Common.Entity.{copy_slice}
use human_program_library.Common.EntityLaws.{length-copy_slice}
use human_program_library.Common.Accounts.{TokenState, AccountInfo, Cursor}
use human_program_library.Escrow.Defs.{
  Request, UnfundedRequest, State, CreateInstruction, CreateInstructionRequest, open_status,
}
use human_program_library.Escrow.Program.{Program}
use human_program_library.Escrow.Storage.{
  state_size, write_state, next_owned_token_wallet, next_state_account,
}
use human_program_library.Escrow.Contribute.{process_contribute}
use human_program_library.Escrow.Refund.{process_refund}
use human_program_library.Escrow.Decide.{process_accept, process_cancel, process_decline}
use human_program_library.Escrow.Create.{process_create, request_of}
use human_program_library.Escrow.Layout.{IsBorsh, length-funded, length-unfunded}
use human_program_library.Escrow.StateLaws.{try_from_slice_exact, try_from_slice_longer}

-- The request that the arguments describe.
abbrev pub created : CreateInstruction → ℤ → Pubkey → State
unfolding request_of
created args now wallet_addr = record {
  request_status = open_status;
  created_at = now;
  wallet = wallet_addr;
  destination = args.dest;
  payer = args.payer;
  request = request_of args.rtype;
}

-- The key of the first account.
abbrev head_key : List AccountInfo → Pubkey
head_key [] = 0
head_key (acc ∷ accs) = acc.key

module _ (p : Program) where
  open p use {rt, mem}

  write_state_ok :
      (key : Pubkey) (s : State) (accs : List AccountInfo) (w : rt.World) (u : Unit {0})
      (left : List AccountInfo) (w' : rt.World)
      → write_state p key s (accs, w) ≡ ok (u, (left, w'))
      → (state_size ≤ length (mem.contents w key))
        × (mem.set_contents key (copy_slice (mem.contents w key) (p.states.encode s)) w ≡ w')
        × (accs ≡ left)
  unfolding write_state
  write_state_ok key s accs w u left w' h = ground arith

  -- The wallet is the next account, and the world stays.
  next_owned_token_wallet_facts :
      (key : Pubkey) (accs : List AccountInfo) (w : rt.World) (found : Pubkey × TokenState)
      (left : List AccountInfo) (w' : rt.World)
      → next_owned_token_wallet p key (accs, w) ≡ ok (found, (left, w'))
      → (w ≡ w') × (head_key accs ≡ found.0)
  unfolding next_owned_token_wallet
  next_owned_token_wallet_facts key [] w found left w' h = (ground arith, ground arith)
  next_owned_token_wallet_facts key (acc ∷ accs) w found left w' h = (ground arith, ground arith)

  process_create_ok :
      (args : CreateInstruction) (now : ℤ) (acc : AccountInfo) (accs : List AccountInfo)
      (w : rt.World) (y : Unit {0} × Cursor rt)
      → process_create p args now (acc ∷ accs, w) ≡ ok y
      → (left : List AccountInfo) × (write_state p acc.key
            (created args now (head_key accs))
            (left, w)
          ≡ ok y)
  unfolding process_create
  process_create_ok args now acc accs w y h =
      let ((wallet_addr, wallet), (left, w₀), found, h1) =
        bind_at-eq-ok (next_owned_token_wallet p acc.key (accs, w)) _ h in
      let (same, at) =
        next_owned_token_wallet_facts acc.key accs w (wallet_addr, wallet) left w₀ found in
      let written : write_state p acc.key (created args now wallet_addr) (left, w) ≡ ok y =
        ground arith in
      (
        left,
        subst (λ k. write_state p acc.key (created args now k) (left, w) ≡ ok y) (sym at) written,
      )

  -- The data that `process_create` leaves.
  created_data :
      (args : CreateInstruction) (now : ℤ) (acc : AccountInfo) (accs : List AccountInfo)
      (w : rt.World) (u : Unit {0}) (left : List AccountInfo) (w' : rt.World)
      → process_create p args now (acc ∷ accs, w) ≡ ok (u, (left, w'))
      → (state_size ≤ length (mem.contents w acc.key))
        × (mem.contents w' acc.key
            ≡ copy_slice
                (mem.contents w acc.key)
                (p.states.encode (created args now (head_key accs))))
  created_data args now acc accs w u left w' h =
      let s = created args now (head_key accs) in
      let (rest, written) = process_create_ok args now acc accs w (u, (left, w')) h in
      let (room, stored, _) = write_state_ok acc.key s rest w u left w' written in
      let found =
        mem.contents-set_contents acc.key acc.key
          (copy_slice (mem.contents w acc.key) (p.states.encode s)) w in
      (room, ground (arith, found, ==_refl acc.key))

  next_state_ok :
      (acc : AccountInfo) (accs : List AccountInfo) (w : rt.World) (s : State)
      → acc.owner ≡ p.program_id
      → s.request_status ≡ open_status
      → try_from_slice p.states (mem.contents w acc.key) ≡ ok s
      → next_state_account p (acc ∷ accs, w) ≡ ok ((s, acc.key), (accs, w))
  unfolding next_state_account
  next_state_ok acc accs w s owned opened h = ground arith

  next_state_err :
      (acc : AccountInfo) (accs : List AccountInfo) (w : rt.World)
      → acc.owner ≡ p.program_id
      → try_from_slice p.states (mem.contents w acc.key) ≡ err borsh_io_error
      → next_state_account p (acc ∷ accs, w) ≡ err borsh_io_error
  unfolding next_state_account
  next_state_err acc accs w owned h = ground arith

  -- With the sizes of borsh, a funded request that is created in an account of the program of exactly
  -- `STATE_SIZE` bytes is read back by the handlers as it was described: open, at the current time,
  -- with the key of the second account as its token wallet, and with the parties of the instruction;
  -- and a second request is refused there.
  pub funded_request_read_back :
      (args : CreateInstruction) (now : ℤ) (author : Pubkey) (acc wallet : AccountInfo)
      (accs left accs' : List AccountInfo) (w w' : rt.World) (u : Unit {0}) (other : State)
      → IsBorsh p.states
      → acc.owner ≡ p.program_id
      → args.rtype ≡ CreateInstructionRequest.funded author
      → length (mem.contents w acc.key) ≡ state_size
      → process_create p args now (acc ∷ wallet ∷ accs, w) ≡ ok (u, (left, w'))
      → (next_state_account p (acc ∷ accs', w')
          ≡ ok (
            (
              record {
                request_status = open_status;
                created_at = now;
                wallet = wallet.key;
                destination = args.dest;
                payer = args.payer;
                request = Request.funded author;
              },
              acc.key,
            ),
            (accs', w'),
          ))
        × (write_state p acc.key other (accs', w') ≡ err account_already_initialized)
  unfolding write_state request_of
  funded_request_read_back args now author acc wallet accs left accs' w w' u other size owned kind
        room h =
      let (_, bytes) = created_data args now acc (wallet ∷ accs) w u left w' h in
      let s = created args now wallet.key in
      let full = length-funded p.states s author size (ground arith) in
      let found : try_from_slice p.states (mem.contents w' acc.key) ≡ ok s =
        rw bytes (try_from_slice_exact p.states s (mem.contents w acc.key) (omega arith)) in
      let kept = length-copy_slice (mem.contents w acc.key) (p.states.encode s) in
      let long : length (mem.contents w' acc.key) ≡ state_size = ap length bytes ∙ kept ∙ room in
      let described : s.request ≡ Request.funded author = ap request_of kind in
      (
        subst
            (λ r.
              next_state_account p (acc ∷ accs', w')
              ≡ ok ((record s { request = r }, acc.key), (accs', w')))
            described (next_state_ok acc accs' w' s owned refl found),
        ground arith,
      )

  -- An unfunded request that is created can never be used: it is shorter than `STATE_SIZE`, the data
  -- of its account is not, and reading the account fails because bytes are left over; so every other
  -- instruction on it fails.
  pub unfunded_request_unreadable :
      (args : CreateInstruction) (now later : ℤ) (deadline : Option ℤ) (threshold : ℕ)
      (user : Pubkey) (acc : AccountInfo) (accs left accs' : List AccountInfo) (w w' : rt.World)
      (u : Unit {0})
      → IsBorsh p.states
      → acc.owner ≡ p.program_id
      → args.rtype ≡ CreateInstructionRequest.unfunded deadline threshold
      → process_create p args now (acc ∷ accs, w) ≡ ok (u, (left, w'))
      → (process_contribute p user later (acc ∷ accs', w') ≡ err borsh_io_error)
        × (process_refund p (acc ∷ accs', w') ≡ err borsh_io_error)
        × (process_accept p later (acc ∷ accs', w') ≡ err borsh_io_error)
        × (process_cancel p (acc ∷ accs', w') ≡ err borsh_io_error)
        × (process_decline p (acc ∷ accs', w') ≡ err borsh_io_error)
  unfolding process_contribute process_refund process_accept process_cancel process_decline
      request_of
  unfunded_request_unreadable args now later deadline threshold user acc accs left accs' w w' u size
        owned kind h =
      let (room, bytes) = created_data args now acc accs w u left w' h in
      let s = created args now (head_key accs) in
      let r : UnfundedRequest = record {
        collected = 0;
        deadline = deadline;
        accept_threshold = threshold;
      } in
      let short = length-unfunded p.states s r size (ground arith) in
      let unread : try_from_slice p.states (mem.contents w' acc.key) ≡ err borsh_io_error =
        rw bytes (try_from_slice_longer p.states s (mem.contents w acc.key) (omega arith)) in
      let e = next_state_err acc accs' w' owned unread in
      (rw e refl, rw e refl, rw e refl, rw e refl, rw e refl)
