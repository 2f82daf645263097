-- ===== src/Fanout/Init.antt =====
-- `initialize` (fanout/src/lib.rs): the checks of the members, and the new account.
use human_program_library.Base.{ℕ, ◌+◌, List, [], ◌∷◌, ◌||◌, ltb, ◌==◌, ◌!=◌}
use human_program_library.Base.Result.{Result, ok, ◌>>=◌, ◌>>◌, fail_if}
use human_program_library.Base.Lists.{length}
use human_program_library.Fanout.Defs.{
  Member, Fanout, FanoutError, invalid_member_count, invalid_shares,
}

-- The loop that adds up the shares; at most ten of them, so the `usize` does not overflow.
unfoldable pub add_shares : List Member → ℕ → Result FanoutError ℕ
add_shares [] total = ok total
add_shares (m ∷ ms) total = do
  fail_if (m.share == 0 || ltb 10_000 m.share) invalid_shares
  add_shares ms (total + m.share)

unfoldable pub initialize : List Member → Result FanoutError Fanout
unfolding add_shares
initialize members = do
  fail_if (length members == 0 || ltb 10 (length members)) invalid_member_count
  total_shares ← add_shares members 0
  fail_if (total_shares != 10_000) invalid_shares
  ok (record { distributed = 0; members = members })
