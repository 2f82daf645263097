-- ===== src/Common/Keeps.antt =====
-- Handlers that read: they leave the world as it is, and tell something about it.
use human_program_library.Base.Result.{ok}
use human_program_library.Base.{[], ◌∷◌, ◌≡◌, ◌∙◌, subst, sym, Bool, Pubkey, arith}
use human_program_library.Base.Result.{Result}
use human_program_library.Runtime.{Runtime}
use human_program_library.Runtime.Action.{bind_at}
use human_program_library.Runtime.Chains.{bind_at-eq-ok}
use human_program_library.Common.Errors.{ProgramError}
use human_program_library.Common.Accounts.{
  Cursor, Handler, check, need, next_account_info, next_expected_token_wallet, next_atoken_wallet,
  next_signer_account, next_expected_account,
}

module _ (rt : Runtime) where
  -- `Q` holds of the world and the result of every successful run, and the world is the same after it.
  pub record Keeps {A : Type 0} (m : Handler rt A) (Q : rt.World → A → Type 0) : Type 0 where
    pub runs : (at : Cursor rt) (y : A × Cursor rt) → m at ≡ ok y → (at.1 ≡ y.1.1) × Q at.1 y.0

  -- `Q` may use what the first step tells.
  pub keeps_then :
      {A B : Type 0} (m : Handler rt A) (R : rt.World → A → Type 0) {f : A → Handler rt B}
      {Q : rt.World → B → Type 0}
      → Keeps m R
      → ((a : A) → Keeps (f a) (λ w b. R w a → Q w b))
      → Keeps (λ at. bind_at (m at) f) Q
  keeps_then m R {f} {Q} first rest = record {
    runs = λ at y h.
        let (a, at', step, h') = bind_at-eq-ok (m at) f h in
        let (same, told) = first.runs at (a, at') step in
        let (same', told') = (rest a).runs at' y h' in
        (same ∙ same', subst (λ w. R w a → Q w y.0) (sym same) told' told);
  }

  pub keeps_next :
      {A B : Type 0} (m : Handler rt A) {f : A → Handler rt B} {Q : rt.World → B → Type 0}
      → Keeps m (λ w a. Unit {0})
      → ((a : A) → Keeps (f a) Q)
      → Keeps (λ at. bind_at (m at) f) Q
  keeps_next m {f} {Q} first rest =
      keeps_then m (λ w a. Unit {0}) first
        (λ a. record {
          runs = λ at y h. let (same, told) = (rest a).runs at y h in (same, λ u. told);
        })

  pub keeps_pure :
      {A : Type 0} (a : A) {Q : rt.World → A → Type 0}
      → ((w : rt.World) → Q w a)
      → Keeps (λ at. ok (a, at)) Q
  keeps_pure a {Q} holds = record {
    runs = λ at y h. (ground arith, subst (λ b. Q at.1 b) (ground arith) (holds at.1));
  }

  pub keeps_check :
      (refused : Bool) (e : ProgramError) → Keeps (check rt refused e) (λ w a. Unit {0})
  keeps_check refused e = record { runs = λ at y h. (ground arith, tt) }

  pub keeps_need : {A : Type 0} (r : Result ProgramError A) → Keeps (need rt r) (λ w a. Unit {0})
  keeps_need r = record { runs = λ at y h. (ground arith, tt) }

  pub keeps_next_account_info : Keeps (next_account_info rt) (λ w a. Unit {0})
  keeps_next_account_info = record {
    runs = λ at y h. elim at.0 [ [] ↦ (ground arith, tt) | acc ∷ accs ↦ (ground arith, tt) ];
  }

  pub keeps_next_expected_token_wallet :
      (k : Pubkey) → Keeps (next_expected_token_wallet rt k) (λ w a. Unit {0})
  unfolding next_expected_token_wallet
  keeps_next_expected_token_wallet k = record {
    runs = λ at y h. elim at.0 [ [] ↦ (ground arith, tt) | acc ∷ accs ↦ (ground arith, tt) ];
  }

  pub keeps_next_atoken_wallet :
      (user mint : Pubkey) → Keeps (next_atoken_wallet rt user mint) (λ w a. Unit {0})
  unfolding next_atoken_wallet
  keeps_next_atoken_wallet user mint = record {
    runs = λ at y h. elim at.0 [ [] ↦ (ground arith, tt) | acc ∷ accs ↦ (ground arith, tt) ];
  }

  pub keeps_next_signer_account : (k : Pubkey) → Keeps (next_signer_account rt k) (λ w a. Unit {0})
  unfolding next_signer_account
  keeps_next_signer_account k = record {
    runs = λ at y h. elim at.0 [ [] ↦ (ground arith, tt) | acc ∷ accs ↦ (ground arith, tt) ];
  }

  pub keeps_next_expected_account :
      (k : Pubkey) → Keeps (next_expected_account rt k) (λ w a. Unit {0})
  unfolding next_expected_account
  keeps_next_expected_account k = record {
    runs = λ at y h. elim at.0 [ [] ↦ (ground arith, tt) | acc ∷ accs ↦ (ground arith, tt) ];
  }
