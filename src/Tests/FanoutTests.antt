-- ===== src/Tests/FanoutTests.antt =====
-- The fanout program at concrete inputs.
use human_program_library.Base.Lists.{sum, IsDistinct}
use human_program_library.Base.Int.{◌-ℤ◌, checked_add_i64}
use human_program_library.Precise.Chain.{mul_div}
use human_program_library.Base.Result.{err, ok}
use human_program_library.Base.{◌≢◌, arith, ◌≡◌, refl, List, [], ◌∷◌}
use human_program_library.Precise.Reference.{reference}
use human_program_library.Fanout.Defs.{Member, Fanout}
use human_program_library.Fanout.Init.{initialize}
use human_program_library.Fanout.Pay.{Payee, Paid, distribute}
use human_program_library.Fanout.InitLaws.{IsValidMembers}
use human_program_library.Fanout.SplitLaws.{
  addresses, settled, calculate_split_lem, split_conserves,
}
use human_program_library.Fanout.Payout.{credited, seen_after, distribute_pays}
use human_program_library.Fanout.Duplicates.{distribute_duplicates}
use human_program_library.Fanout.Split.{Shares, keys, values, calculate_split}

abbrev members : List Member
members =
    record { address = 1; share = 3_333 }
    ∷ record { address = 2; share = 3_333 }
    ∷ record { address = 3; share = 3_334 }
    ∷ []

abbrev three : Fanout
three = record { distributed = 7; members = members }

three_split : calculate_split reference three 100 ≡ ok ((1, 34) ∷ (2, 33) ∷ (3, 33) ∷ [])
unfolding calculate_split mul_div ◌-ℤ◌ checked_add_i64
three_split = refl

members-IsValidMembers : IsValidMembers members
members-IsValidMembers = omega arith

members-IsDistinct : IsDistinct (addresses members)
members-IsDistinct = (refl, (refl, (refl, tt)))

calculate_split_lem_example : calculate_split reference three 100 ≡ settled 100 members
calculate_split_lem_example =
    calculate_split_lem reference three 100 members-IsValidMembers members-IsDistinct (omega arith)

abbrev hundred : Shares
hundred = (1, 34) ∷ (2, 33) ∷ (3, 33) ∷ []

split_conserves_example : (sum (values hundred) ≡ 100) × (keys hundred ≡ addresses members)
split_conserves_example =
    split_conserves reference three 100 hundred members-IsValidMembers members-IsDistinct
      (omega arith) three_split

abbrev quarters : Fanout
quarters = record {
  distributed = 0;
  members =
      record { address = 1; share = 2_500 }
      ∷ record { address = 2; share = 2_500 }
      ∷ record { address = 3; share = 2_500 }
      ∷ record { address = 4; share = 2_500 }
      ∷ [];
}

-- Two lamports among four equal members: each other member is rounded up to one lamport, more than
-- there is.
quarters_fail : calculate_split reference quarters 2 ≡ err tt
unfolding calculate_split mul_div ◌-ℤ◌ checked_add_i64
quarters_fail = refl

abbrev accounts : List Payee
accounts =
    record { key = 3; lamports = 5 }
    ∷ record { key = 1; lamports = 0 }
    ∷ record { key = 2; lamports = 9 }
    ∷ []

abbrev paid_three : Paid
paid_three = record {
  fanout_lamports = 1_000;
  distributed = 107;
  payees = credited hundred accounts;
  seen = seen_after accounts [];
}

distribute_pays_example : distribute reference three 50 1_100 1_000 accounts ≡ ok paid_three
distribute_pays_example =
    distribute_pays reference three 50 1_100 1_000 accounts hundred members-IsValidMembers
      members-IsDistinct (omega arith) (omega arith) three_split (refl, (refl, (refl, tt)))
      (refl, (refl, (refl, tt))) refl refl (omega arith) (omega arith)

three_pays : distribute reference three 50 1_100 1_000 accounts ≡ ok paid_three
unfolding distribute calculate_split mul_div ◌-ℤ◌ checked_add_i64
three_pays = refl

abbrev twice : Fanout
twice = record {
  distributed = 0;
  members = record { address = 1; share = 4_000 } ∷ record { address = 1; share = 6_000 } ∷ [];
}

-- `initialize` accepts a member that is listed twice.
twice_accepted : initialize twice.members ≡ ok twice
unfolding initialize
twice_accepted = refl

twice_repeats : ¬ IsDistinct (addresses twice.members)
twice_repeats d = cc d.0

distribute_duplicates_example : distribute reference twice 50 1_100 1_000 accounts ≢ ok paid_three
distribute_duplicates_example =
    distribute_duplicates reference twice 50 1_100 1_000 accounts paid_three twice_repeats
