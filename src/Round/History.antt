-- ===== src/Round/History.antt =====
-- Whole histories of a round: any calls, in any order, of which the failed ones change nothing.
use human_program_library.Base.Int.{ℤ}
use human_program_library.Base.Result.{Result, ok, err, panic}
use human_program_library.Base.{◌≡◌, refl, subst, arith, Option, none, some, List, [], ◌∷◌}
use human_program_library.Precise.{PreciseNumber}
use human_program_library.Runtime.{Runtime}
use human_program_library.Round.Defs.{pending, Round}
use human_program_library.Round.Events.{Event}
use human_program_library.Round.Context.{Failure}
use human_program_library.Round.Lifecycle.Context.{CreateRound, CreateRoundParams}
use human_program_library.Round.Lifecycle.{create_round}
use human_program_library.Round.Invariant.{
  HasTotals, Advances, Call, apply_call, apply_call-Advances,
}

Advances-HasTotals : (r r' : Round) → Advances r r' → HasTotals r → HasTotals r'
Advances-HasTotals r r' a h = ground (arith, h)

module _ (rt : Runtime) (pn : PreciseNumber) where
  -- The round, until its account is closed, and the world.
  abbrev pub State : Type 0
  State = Option Round × rt.World

  abbrev pub after : State → Result Failure State → State
  after s (ok s') = s'
  after s (err e) = s
  after s panic = s

  abbrev pub step : Call → Option Round → rt.World → State
  step c none w = (none, w)
  step c (some r) w = after (some r, w) (apply_call rt pn c r w)

  unfoldable pub run : List Call → State → State
  run [] s = s
  run (c ∷ cs) s = run cs (step c s.0 s.1)

  abbrev Holds : Option Round → Type 0
  Holds none = Unit {0}
  Holds (some r) = HasTotals r

  after-Holds :
      (s : State) (res : Result Failure State)
      → Holds s.0
      → ((s' : State) → res ≡ ok s' → Holds s'.0)
      → Holds (after s res).0
  after-Holds s (ok s') h k = k s' refl
  after-Holds s (err e) h k = h
  after-Holds s panic h k = h

  alive :
      (c : Call) (r : Round) (w : rt.World)
      → HasTotals r
      → (o : Option Round) (w' : rt.World) → apply_call rt pn c r w ≡ ok (o, w')
      → Holds o
  alive c r w h none w' e = tt
  alive c r w h (some r') w' e = Advances-HasTotals r r' (apply_call-Advances rt pn c r r' w w' e) h

  step-Holds : (c : Call) (s : State) → Holds s.0 → Holds (step c s.0 s.1).0
  step-Holds c (none, w) h = h
  step-Holds c (some r, w) h =
      after-Holds (some r, w) (apply_call rt pn c r w) h (λ s' e. alive c r w h s'.0 s'.1 e)

  run-Holds : (cs : List Call) (s : State) → Holds s.0 → Holds (run cs s).0
  unfolding run
  run-Holds [] s h = h
  run-Holds (c ∷ cs) s h = run-Holds cs (step c s.0 s.1) (step-Holds c s h)

-- `create_round` leaves a pending round.
created_pending :
    (rt : Runtime) (a : CreateRound) (params : CreateRoundParams) (now : ℤ) (w w' : rt.World)
    (r : Round) (events : List Event)
    → create_round rt a params now w ≡ ok (record { round = some r; events = events }, w')
    → r.status ≡ pending
unfolding create_round
created_pending rt a params now w w' r events e = ground arith

-- Whatever calls follow the creation of a round, whenever its status is accepted or reconciliation
-- it has both totals.
pub history_HasTotals :
    (rt : Runtime) (pn : PreciseNumber) (a : CreateRound) (params : CreateRoundParams) (now : ℤ)
    (w w' : rt.World) (r r' : Round) (events : List Event) (cs : List Call) (w'' : rt.World)
    → create_round rt a params now w ≡ ok (record { round = some r; events = events }, w')
    → run rt pn cs (some r, w') ≡ (some r', w'')
    → HasTotals r'
history_HasTotals rt pn a params now w w' r r' events cs w'' created e =
    let p = created_pending rt a params now w w' r events created in
    subst (λ s. Holds rt pn s.0) e (run-Holds rt pn cs (some r, w') (ground (arith, p)))
