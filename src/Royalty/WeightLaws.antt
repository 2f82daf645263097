-- ===== src/Royalty/WeightLaws.antt =====
-- What writing vote weights leaves as it is: the tokens, and the data of other accounts.
use human_program_library.Base.Result.{ok}
use human_program_library.Base.{
  false, ◌==◌, ℕ, ◌≡◌, sym, ap, ◌∙◌, inl, inr, some, List, [], ◌∷◌, arith, ◌!=◌, if◌then◌else◌,
  Pubkey, Bool-cases,
}
use human_program_library.Runtime.{system_create}
use human_program_library.Runtime.Action
use human_program_library.Runtime.Chains.{bind_at-eq-ok}
use human_program_library.Common.Errors.{invalid_seeds}
use human_program_library.Common.Codec.{Bytes}
use human_program_library.Common.Entity.{copy_slice}
use human_program_library.Common.Accounts.{AccountInfo, Cursor, check}
use human_program_library.Common.EntityAccounts.{call_program}
use human_program_library.Royalty.Program.{Program}
use human_program_library.Royalty.Weights.{
  create_or_save_account, update_voter_weight, update_max_voter_weight,
}

module _ (p : Program) where
  open p use {rt, mem}

  -- An observation of the world that neither the creation of a record account nor its data changes.
  pub IsApart : {A : Type 0} → (rt.World → A) → (acc funder : AccountInfo) → Type 0
  IsApart f acc funder =
      ((d : Bytes) (w : rt.World) → f (mem.set_contents acc.key d w) ≡ f w)
      × ((size : ℕ) (w w' : rt.World)
          → rt.invoke (system_create funder.key acc.key (rt.rent_minimum size) size p.program_id) w
            ≡ some w'
          → f w' ≡ f w)

  pub tokens-IsApart :
      (k : Pubkey) (acc funder : AccountInfo) → IsApart (λ w. rt.tokens w k) acc funder
  unfolding IsApart
  tokens-IsApart k acc funder = (
    λ d w. mem.tokens-set_contents acc.key k d w,
    λ size w w' h.
        mem.tokens-create funder.key acc.key (rt.rent_minimum size) size p.program_id w w' k h,
  )

  pub contents-IsApart :
      (k : Pubkey) (acc funder : AccountInfo)
      → (k == acc.key) ≡ false
      → IsApart (λ w. mem.contents w k) acc funder
  unfolding IsApart
  contents-IsApart k acc funder other = (
    λ d w. let there = mem.contents-set_contents acc.key k d w in ground arith,
    λ size w w' h.
        mem.contents-create funder.key acc.key (rt.rent_minimum size) size p.program_id w w' k other
          h,
  )

  -- The record account, where it is still to be created.
  created_keeps :
      {A : Type 0} (f : rt.World → A) (size : ℕ) (acc funder : AccountInfo) (at : Cursor rt)
      (accs' : List AccountInfo) (w' : rt.World) (u : Unit {0})
      → IsApart f acc funder
      → (if acc.owner != p.program_id
            then call_program rt mem
                (system_create funder.key acc.key (rt.rent_minimum size) size p.program_id)
            else Action.pure tt)
          at
        ≡ ok (u, (accs', w'))
      → f w' ≡ f at.1
  unfolding IsApart
  created_keeps f size acc funder (accs, w) accs' w' u apart h =
      elim (Bool-cases (acc.owner != p.program_id)) [
        | inl other ↦
            let sent : rt.invoke
                  (system_create funder.key acc.key (rt.rent_minimum size) size p.program_id) w
                ≡ some w' =
              ground arith in
            apart.1 size w w' sent
        | inr own ↦ let same : w' ≡ w = ground arith in ap f same
      ]

  create_or_save_account_keeps :
      {A : Type 0} (f : rt.World → A) (serialized : Bytes) (size : ℕ) (acc funder : AccountInfo)
      (at : Cursor rt) (accs' : List AccountInfo) (w' : rt.World) (u : Unit {0})
      → IsApart f acc funder
      → create_or_save_account p serialized size acc funder at ≡ ok (u, (accs', w'))
      → f w' ≡ f at.1
  unfolding create_or_save_account IsApart
  create_or_save_account_keeps f serialized size acc funder at accs' w' u apart h =
      let (_, (accs1, w1), made, h1) =
        bind_at-eq-ok
          ((if acc.owner != p.program_id
              then call_program rt mem
                  (system_create funder.key acc.key (rt.rent_minimum size) size p.program_id)
              else Action.pure tt)
            at)
          _ h in
      let d = copy_slice (mem.contents w1 acc.key) serialized in
      let done : mem.set_contents acc.key d w1 ≡ w' = ground arith in
      ap f (sym done) ∙ apart.0 d w1 ∙ created_keeps f size acc funder at accs1 w1 tt apart made

  pub update_voter_weight_keeps :
      {A : Type 0} (f : rt.World → A) (state realm mint user : Pubkey) (balance : ℕ)
      (acc funder : AccountInfo) (at : Cursor rt) (accs' : List AccountInfo) (w' : rt.World)
      (u : Unit {0})
      → IsApart f acc funder
      → update_voter_weight p state realm mint user balance acc funder at ≡ ok (u, (accs', w'))
      → f w' ≡ f at.1
  unfolding update_voter_weight
  update_voter_weight_keeps f state realm mint user balance acc funder (accs, w) accs' w' u apart
        h =
      let (_, (accs1, w1), checked, h1) =
        bind_at-eq-ok
          (check rt (acc.key != rt.find_address "VOTE_WEIGHT" (state ∷ user ∷ [])) invalid_seeds
            (accs, w))
          _ h in
      let same : w1 ≡ w = ground arith in
      create_or_save_account_keeps f _ 164 acc funder (accs1, w1) accs' w' u apart h1 ∙ ap f same

  pub update_max_voter_weight_keeps :
      {A : Type 0} (f : rt.World → A) (state realm mint : Pubkey) (weight : ℕ)
      (acc funder : AccountInfo) (at : Cursor rt) (accs' : List AccountInfo) (w' : rt.World)
      (u : Unit {0})
      → IsApart f acc funder
      → update_max_voter_weight p state realm mint weight acc funder at ≡ ok (u, (accs', w'))
      → f w' ≡ f at.1
  unfolding update_max_voter_weight
  update_max_voter_weight_keeps f state realm mint weight acc funder (accs, w) accs' w' u apart h =
      let (_, (accs1, w1), checked, h1) =
        bind_at-eq-ok
          (check rt (acc.key != rt.find_address "MAX_VOTE_WEIGHT" (state ∷ [])) invalid_seeds
            (accs, w))
          _ h in
      let same : w1 ≡ w = ground arith in
      create_or_save_account_keeps f _ 97 acc funder (accs1, w1) accs' w' u apart h1 ∙ ap f same
