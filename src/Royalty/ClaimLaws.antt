-- ===== src/Royalty/ClaimLaws.antt =====
-- What `process_claim` pays.
use human_program_library.Base.Result.{ok}
use human_program_library.Base.{ℕ, ◌+◌, ◌≡◌, Bool, true, some, arith, Pubkey}
use human_program_library.Royalty.Defs.{Voucher, Store}
use human_program_library.Royalty.Claim.{process_claim}

-- A successful claim is signed by the user of the voucher, leaves the voucher account exactly its
-- rent and gives the user the rest; the vouchers stay as they were.
pub claim_pays :
    (state_key voucher_key user : Pubkey) (signed : Bool) (rent : ℕ) (store store' : Store)
    (v : Voucher)
    → process_claim state_key voucher_key user signed rent store ≡ ok store'
    → store.vouchers voucher_key ≡ some v
    → (v.user ≡ user)
      × (v.state ≡ state_key)
      × (signed ≡ true)
      × (store'.lamports voucher_key ≡ rent)
      × (store'.lamports user + rent ≡ store.lamports user + store.lamports voucher_key)
      × (store'.vouchers ≡ store.vouchers)
unfolding process_claim
claim_pays state_key voucher_key user signed rent store store' v e ev = ground arith
