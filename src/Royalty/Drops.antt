-- ===== src/Royalty/Drops.antt =====
-- Whole calls of `process_distribute`: conservation, and one payment for each voucher in a drop.
use human_program_library.Base.Int.{ℤ}
use human_program_library.Precise.{PreciseNumber}
use human_program_library.Base.Lists.{length, IsWithin, contains, IsDistinct}
use human_program_library.Base.Words.{checked_add, checked_sub, u64_limit}
use human_program_library.Base.Result.{
  Result, assert_passed, unwrap-some, fail_if_passed, ok-injective, ok, ok_or, unwrap, >>=-eq-ok,
}
use human_program_library.Base.{
  false, ◌+◌, ◌≤◌, ◌≢◌, ◌⊎◌, leb→le, ◌!=◌, sym, ap, inl, inr, Option, none, some, [], ◌∷◌, arith,
  leb, Option-cases, ◌∙◌, subst, ℕ, ◌≡◌, true, List, Pubkey,
}
use human_program_library.Royalty.Defs.{
  State, Distribution, Failure, Store, overflow, or_overflow, account_not_rent_exempt,
  royalty_error,
}
use human_program_library.Royalty.Split.{calculate_split}
use human_program_library.Royalty.Ledger.{total, pay_from-conserves}
use human_program_library.Royalty.DistributeLaws.{
  AllSpent-contains, distribute_vouchers-Sweeps, distribute_vouchers-conserves, AllSpent,
  spent_skipped,
}
use human_program_library.Royalty.Distribute.{
  Distribute, pay_from, start_distribution, ensure_started, distribute_vouchers,
  finish_distribution, process_distribute, run_distribution, fixed_settings,
  check_no_other_programs,
}

start_distribution-conserves :
    (pn : PreciseNumber) (state : State) (sk : Pubkey) (rent : ℕ) (f : Pubkey → ℕ)
    (result : State × (Pubkey → ℕ)) (ks : List Pubkey)
    → start_distribution pn state sk rent f ≡ ok result
    → IsDistinct ks
    → contains sk ks ≡ true
    → contains state.owner ks ≡ true
    → contains state.host ks ≡ true
    → total ks result.1 ≡ total ks f
unfolding start_distribution
start_distribution-conserves pn state sk rent f result ks e d hs ho hh =
    let (minimum, _, r1) = >>=-eq-ok (unwrap {E = Failure} (checked_add u64_limit rent 1)) _ e in
    let (excess, _, r2) =
      >>=-eq-ok (ok_or (checked_sub (f sk) minimum) account_not_rent_exempt) _ r1 in
    let (_, r3) = fail_if_passed _ _ _ r2 in
    let (amount, _, r4) = >>=-eq-ok (unwrap {E = Failure} (checked_sub excess 1)) _ r3 in
    let (split, _, r5) =
      >>=-eq-ok (or_overflow (calculate_split pn state.settings amount state.vouchers_count)) _
        r4 in
    let (f1, e1, r6) = >>=-eq-ok (pay_from sk state.owner split.owner_comission f) _ r5 in
    let (f2, e2, r7) = >>=-eq-ok (pay_from sk state.host split.host_comission f1) _ r6 in
    let (t, _, r8) =
      >>=-eq-ok
        (ok_or (checked_add u64_limit state.total_distributed excess) (royalty_error overflow)) _
        r7 in
    let (u, _, r9) =
      >>=-eq-ok
        (ok_or (checked_add u64_limit state.total_user_distributed split.distribute_amount)
          (royalty_error overflow))
        _ r8 in
    subst (λ (r : State × (Pubkey → ℕ)). total ks r.1 ≡ total ks f) (ok-injective {E = Failure} r9)
      (pay_from-conserves sk state.host split.host_comission f1 f2 ks e2 d hs hh
        ∙ pay_from-conserves sk state.owner split.owner_comission f f1 ks e1 d hs ho)

-- The vouchers that a distribution in progress has seen.
abbrev pub seen_of : Option Distribution → ℕ
seen_of none = 0
seen_of (some d) = d.seen_vouchers

-- What a start keeps of the state.
record Keeps (state started : State) : Type 0 where
  drop_idx : started.drop_idx ≡ state.drop_idx
  vouchers_count : started.vouchers_count ≡ state.vouchers_count
  tokens_held : started.tokens_held ≡ state.tokens_held
  seen : seen_of started.distribution ≡ seen_of state.distribution

ensure_started-Keeps :
    (pn : PreciseNumber) (state : State) (sk : Pubkey) (rent : ℕ) (f : Pubkey → ℕ)
    (result : State × (Pubkey → ℕ))
    → ensure_started pn state sk rent f ≡ ok result
    → Keeps state result.0
unfolding ensure_started start_distribution
ensure_started-Keeps pn state sk rent f result e = ground arith

ensure_started-conserves :
    (pn : PreciseNumber) (state : State) (sk : Pubkey) (rent : ℕ) (f : Pubkey → ℕ)
    (result : State × (Pubkey → ℕ)) (ks : List Pubkey)
    → ensure_started pn state sk rent f ≡ ok result
    → IsDistinct ks
    → contains sk ks ≡ true
    → contains state.owner ks ≡ true
    → contains state.host ks ≡ true
    → total ks result.1 ≡ total ks f
unfolding ensure_started
ensure_started-conserves pn state sk rent f result ks e d hs ho hh =
    elim (Option-cases state.distribution) [
      | inl fresh ↦
          let e' : start_distribution pn state sk rent f ≡ ok result = ground arith in
          start_distribution-conserves pn state sk rent f result ks e' d hs ho hh
      | inr (x, running) ↦
          let e' : ◌≡◌ {A = Result Failure (State × (Pubkey → ℕ))} (ok (state, f)) (ok result) =
            ground arith in
          ap (λ r. total ks r.1) (sym (ok-injective {E = Failure} e'))
    ]

-- How the count of the vouchers moves the drop.
abbrev pub Progresses : Distribute → State → State → Type 0
Progresses accounts state after =
    let seen = seen_of state.distribution + length accounts.vouchers in
    ((seen ≡ state.vouchers_count)
      × (after.drop_idx ≡ state.drop_idx + 1)
      × (after.distribution ≡ none))
    ⊎ ((seen ≢ state.vouchers_count)
        × (after.drop_idx ≡ state.drop_idx)
        × (seen_of after.distribution ≡ seen))

module _ (pn : PreciseNumber) (program_id : Pubkey) (accounts : Distribute) (state : State)
    (rent : ℕ) (now : ℤ) (store : Store) where
  abbrev opened : State
  opened = record state { settings = fixed_settings }

  -- A call that has succeeded, in its steps.
  record Steps (result : State × Store) : Type 0 where
    started : State
    lamports : Pubkey → ℕ
    d : Distribution
    d' : Distribution
    owner : accounts.owner ≡ state.owner
    host : accounts.host ≡ state.host
    starts :
        ensure_started pn opened accounts.state_key rent store.lamports ≡ ok (started, lamports)
    running : started.distribution ≡ some d
    swept :
        distribute_vouchers pn started accounts.state_key now accounts.vouchers d
          (record { lamports = lamports; vouchers = store.vouchers })
        ≡ ok (d', result.1)
    exempt : leb rent (result.1.lamports accounts.state_key) ≡ true
    finished : finish_distribution started d' ≡ ok result.0

  run_distribution-Steps :
      (result : State × Store)
      → accounts.owner ≡ state.owner
      → accounts.host ≡ state.host
      → run_distribution pn accounts opened rent now store ≡ ok result
      → Steps result
  unfolding run_distribution
  run_distribution-Steps result owner host e =
      let ((started, f), es, r4) =
        >>=-eq-ok (ensure_started pn opened accounts.state_key rent store.lamports) _ e in
      let (d, ed, r5) = >>=-eq-ok (unwrap {E = Failure} started.distribution) _ r4 in
      let ((d', store'), el, r6) =
        >>=-eq-ok
          (distribute_vouchers pn started accounts.state_key now accounts.vouchers d
            (record { lamports = f; vouchers = store.vouchers }))
          _ r5 in
      let (ex, r7) = assert_passed _ _ r6 in
      let (s', ef, r8) = >>=-eq-ok (finish_distribution started d') _ r7 in
      subst Steps (ok-injective {E = Failure} r8) (record {
        started = started;
        lamports = f;
        d = d;
        d' = d';
        owner = owner;
        host = host;
        starts = es;
        running = unwrap-some ed;
        swept = el;
        exempt = ex;
        finished = ef;
      })

  process_distribute-Steps :
      (result : State × Store)
      → process_distribute pn program_id accounts state rent now store ≡ ok result
      → Steps result
  unfolding process_distribute
  process_distribute-Steps result e =
      let (same_owner, r1) = fail_if_passed (accounts.owner != state.owner) _ _ e in
      let (same_host, r2) = fail_if_passed (accounts.host != state.host) _ _ r1 in
      let (_, _, r3) =
        >>=-eq-ok (check_no_other_programs accounts.programs (program_id ∷ []))
          (λ _. run_distribution pn accounts opened rent now store) r2 in
      run_distribution-Steps result (ground arith) (ground arith) r3

  -- A successful call conserves the lamports of any accounts among which the state, its owner, its
  -- host and the vouchers are, and leaves the state account its rent.
  pub distribution_conserves :
      (result : State × Store) (ks : List Pubkey)
      → process_distribute pn program_id accounts state rent now store ≡ ok result
      → IsDistinct ks
      → contains accounts.state_key ks ≡ true
      → contains state.owner ks ≡ true
      → contains state.host ks ≡ true
      → IsWithin accounts.vouchers ks
      → (total ks result.1.lamports ≡ total ks store.lamports)
        × (rent ≤ result.1.lamports accounts.state_key)
  distribution_conserves result ks e d hs ho hh w =
      let s = process_distribute-Steps result e in
      (
        distribute_vouchers-conserves pn s.started accounts.state_key now accounts.vouchers s.d
              (record { lamports = s.lamports; vouchers = store.vouchers }) (s.d', result.1) ks
              s.swept d hs w
            ∙ ensure_started-conserves pn opened accounts.state_key rent store.lamports
                (s.started, s.lamports) ks s.starts d hs ho hh,
        leb→le rent (result.1.lamports accounts.state_key) s.exempt,
      )

  finish-Progresses :
      (started : State) (d : Distribution) (after : State)
      → finish_distribution started d ≡ ok after
      → started.drop_idx ≡ state.drop_idx
      → started.vouchers_count ≡ state.vouchers_count
      → d.seen_vouchers ≡ seen_of state.distribution + length accounts.vouchers
      → Progresses accounts state after
  unfolding finish_distribution
  finish-Progresses started d after e hi hc hs = ground arith

  -- A successful call names no voucher twice and moves each of them on to the next drop; it counts
  -- them, and the drop ends exactly when as many have been counted as there are vouchers.
  pub distribution_counts :
      (result : State × Store)
      → process_distribute pn program_id accounts state rent now store ≡ ok result
      → IsDistinct accounts.vouchers
        × AllSpent (state.drop_idx + 1) accounts.vouchers result.1
        × Progresses accounts state result.0
  distribution_counts result e =
      let s = process_distribute-Steps result e in
      let k =
        ensure_started-Keeps pn opened accounts.state_key rent store.lamports
          (s.started, s.lamports) s.starts in
      let w =
        distribute_vouchers-Sweeps pn s.started accounts.state_key now accounts.vouchers s.d
          (record { lamports = s.lamports; vouchers = store.vouchers }) (s.d', result.1) s.swept in
      let running = ap seen_of s.running in
      (
        w.once,
        subst (λ (i : ℕ). AllSpent (i + 1) accounts.vouchers result.1) k.drop_idx w.spent,
        finish-Progresses s.started s.d' result.0 s.finished k.drop_idx k.vouchers_count
            (omega (arith, w.seen, running, k.seen)),
      )

-- No voucher is paid twice in a drop: when a call that succeeds keeps the index of the drop, a
-- call that succeeds right after it names none of its vouchers.
pub distribution_pays_once :
    (pn : PreciseNumber) (program_id : Pubkey) (first second : Distribute) (state : State)
    (rent : ℕ) (now later : ℤ) (store : Store) (between after : State × Store) (k : Pubkey)
    → process_distribute pn program_id first state rent now store ≡ ok between
    → between.0.drop_idx ≡ state.drop_idx
    → process_distribute pn program_id second between.0 rent later between.1 ≡ ok after
    → contains k first.vouchers ≡ true
    → contains k second.vouchers ≡ false
distribution_pays_once pn program_id first second state rent now later store between after k e1 same
      e2 h =
    let (_, spent, _) = distribution_counts pn program_id first state rent now store between e1 in
    let (v, ev, idx) = AllSpent-contains (state.drop_idx + 1) k first.vouchers between.1 spent h in
    let s = process_distribute-Steps pn program_id second between.0 rent later between.1 after e2 in
    let o : State = record between.0 { settings = fixed_settings } in
    let kept =
      ensure_started-Keeps pn o second.state_key rent between.1.lamports (s.started, s.lamports)
        s.starts in
    spent_skipped pn s.started second.state_key later second.vouchers s.d
      (record { lamports = s.lamports; vouchers = between.1.vouchers }) (s.d', after.1) k v s.swept
      ev (omega (arith, idx, same, kept.drop_idx))
