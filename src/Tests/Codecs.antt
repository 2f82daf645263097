-- ===== src/Tests/Codecs.antt =====
-- A concrete serialization of requests and vouchers with the sizes of borsh: a number or an address
-- fills its first entry, and the others are zero.
use human_program_library.Base.Lists.{length}
use human_program_library.Base.{
  arith, ◌+◌, ℕ, zero, suc, ◌≡◌, refl, ap, Option, none, some, [], ◌∷◌, ◌++◌, ◌==◌, if◌then◌else◌,
  ◌∙◌,
}
use human_program_library.Base.Int.{ℤ, pos, negsuc}
use human_program_library.Common.Codec.{Bytes, Codec}
use human_program_library.Common.EntityLaws.{drop}
use human_program_library.Royalty.Defs.{Voucher as RoyaltyVoucher}
use human_program_library.Escrow.Defs.{
  State, Voucher, Request, RequestStatus, unitialized, open_status, declined, accepted,
}
use human_program_library.Escrow.Layout.{IsBorsh, encoded_size, request_size, option_size}

abbrev pub pad : ℕ → Bytes → Bytes
pad zero bs = bs
pad (suc n) bs = 0 ∷ pad n bs

-- One entry and the padding after it.
abbrev pub read : {A : Type 0} → ℕ → (ℕ → Bytes → Option A) → Bytes → Option A
read n k [] = none
read n k (b ∷ bs) = k b (drop n bs)

abbrev pub status_code : RequestStatus → ℕ
status_code unitialized = 0
status_code open_status = 1
status_code declined = 2
status_code accepted = 3

abbrev pub status_of : ℕ → RequestStatus
status_of n =
    if n == 0
    then unitialized
    else if n == 1
    then open_status
    else if n == 2
    then declined
    else accepted

abbrev pub sign : ℤ → ℕ
sign (pos n) = 0
sign (negsuc n) = 1

abbrev pub magnitude : ℤ → ℕ
magnitude (pos n) = n
magnitude (negsuc n) = n

abbrev pub int_of : ℕ → ℕ → ℤ
int_of s n = if s == 0 then pos n else negsuc n

abbrev pub put_int : ℤ → Bytes → Bytes
put_int t bs = sign t ∷ magnitude t ∷ pad 6 bs

abbrev pub put_deadline : Option ℤ → Bytes → Bytes
put_deadline none bs = 0 ∷ bs
put_deadline (some t) bs = 1 ∷ put_int t bs

abbrev pub put_request : Request → Bytes → Bytes
put_request (Request.funded author) bs = 0 ∷ author ∷ pad 31 bs
put_request (Request.unfunded r) bs =
    1 ∷ r.collected ∷ pad 7 (put_deadline r.deadline (r.accept_threshold ∷ pad 7 bs))

abbrev pub put_state : State → Bytes → Bytes
put_state s bs =
    status_code s.request_status
    ∷ put_int s.created_at
        (s.wallet ∷ pad 31 (s.destination ∷ pad 31 (s.payer ∷ pad 31 (put_request s.request bs))))

abbrev pub get_deadline : {A : Type 0} → (Option ℤ → Bytes → Option A) → Bytes → Option A
get_deadline k =
    read 0
      λ tag bs. if tag == 0 then k none bs else read 0 (λ s. read 6 λ n. k (some (int_of s n))) bs

abbrev pub get_request : {A : Type 0} → (Request → Bytes → Option A) → Bytes → Option A
get_request k = read 0 λ tag bs.
    if tag == 0
    then read 31 (λ author. k (Request.funded author)) bs
    else read 7
        (λ collected. get_deadline λ deadline. read 7 λ threshold. k (
          Request.unfunded
            (record { collected = collected; deadline = deadline; accept_threshold = threshold })))
        bs

abbrev pub get_state : Bytes → Option (State × Bytes)
get_state = read 0 λ status. read 0 λ s. read 6 λ n. read 31 λ wallet. read 31 λ destination.
    read 31 λ payer. get_request λ request bs. some (
      record {
        request_status = status_of status;
        created_at = int_of s n;
        wallet = wallet;
        destination = destination;
        payer = payer;
        request = request;
      },
      bs,
    )

status_lem : (s : RequestStatus) → status_of (status_code s) ≡ s
status_lem unitialized = refl
status_lem open_status = refl
status_lem declined = refl
status_lem accepted = refl

pub int_lem : (t : ℤ) → int_of (sign t) (magnitude t) ≡ t
int_lem (pos n) = refl
int_lem (negsuc n) = refl

deadline_lem :
    {A : Type 0} (k : Option ℤ → Bytes → Option A) (d : Option ℤ) (bs : Bytes)
    → get_deadline k (put_deadline d bs) ≡ k d bs
deadline_lem k none bs = refl
deadline_lem k (some t) bs = ap (λ x. k (some x) bs) (int_lem t)

request_lem :
    {A : Type 0} (k : Request → Bytes → Option A) (q : Request) (bs : Bytes)
    → get_request k (put_request q bs) ≡ k q bs
request_lem k (Request.funded author) bs = refl
request_lem k (Request.unfunded r) bs =
    deadline_lem
      (λ d. read 7 λ threshold. k (
        Request.unfunded
          (record { collected = r.collected; deadline = d; accept_threshold = threshold })))
      r.deadline (r.accept_threshold ∷ pad 7 bs)

put_deadline-append :
    (d : Option ℤ) (xs ys : Bytes) → put_deadline d xs ++ ys ≡ put_deadline d (xs ++ ys)
put_deadline-append none xs ys = refl
put_deadline-append (some t) xs ys = refl

put_request-append : (q : Request) (rest : Bytes) → put_request q [] ++ rest ≡ put_request q rest
put_request-append (Request.funded author) rest = refl
put_request-append (Request.unfunded r) rest =
    ap (λ bs. 1 ∷ r.collected ∷ pad 7 bs)
      (put_deadline-append r.deadline (r.accept_threshold ∷ pad 7 []) rest)

pub put_state-append : (s : State) (rest : Bytes) → put_state s [] ++ rest ≡ put_state s rest
put_state-append s rest =
    ap
      (λ bs.
        status_code s.request_status
        ∷ put_int s.created_at (s.wallet ∷ pad 31 (s.destination ∷ pad 31 (s.payer ∷ pad 31 bs))))
      (put_request-append s.request rest)

pub get_state-put_state : (s : State) (rest : Bytes) → get_state (put_state s rest) ≡ some (s, rest)
get_state-put_state s rest =
    request_lem
      (λ q bs. some (
        record s {
          request_status = status_of (status_code s.request_status);
          created_at = int_of (sign s.created_at) (magnitude s.created_at);
          request = q;
        },
        bs,
      ))
      s.request rest
    ∙ ap
        (λ st. some (
          record s {
            request_status = st;
            created_at = int_of (sign s.created_at) (magnitude s.created_at);
          },
          rest,
        ))
        (status_lem s.request_status)
    ∙ ap (λ t. some (record s { created_at = t }, rest)) (int_lem s.created_at)

abbrev pub state_codec : Codec State
state_codec = record {
  encode = λ s. put_state s [];
  decode = get_state;
  decode-encode = λ s rest. ap get_state (put_state-append s rest) ∙ get_state-put_state s rest;
}

deadline_length :
    (d : Option ℤ) (n : ℕ) → length (put_deadline d (n ∷ pad 7 [])) ≡ option_size d + 8
deadline_length none n = refl
deadline_length (some t) n = refl

request_length : (q : Request) → length (put_request q []) ≡ request_size q
request_length (Request.funded author) = refl
request_length (Request.unfunded r) = omega (arith, deadline_length r.deadline r.accept_threshold)

pub state_codec-IsBorsh : IsBorsh state_codec
unfolding IsBorsh encoded_size
state_codec-IsBorsh s = omega (arith, request_length s.request)

abbrev pub get_voucher : Bytes → Option (Voucher × Bytes)
get_voucher = read 31 λ state.
    read 31
      λ user. read 7 λ amount bs. some (record { state = state; user = user; amount = amount }, bs)

abbrev pub voucher_codec : Codec Voucher
voucher_codec = record {
  encode = λ v. v.state ∷ pad 31 (v.user ∷ pad 31 (v.amount ∷ pad 7 []));
  decode = get_voucher;
  decode-encode = λ v rest. refl;
}

-- A voucher of the royalty program.
abbrev pub royalty_voucher_codec : Codec RoyaltyVoucher
royalty_voucher_codec = record {
  encode = λ v.
      v.user
      ∷ pad 31 (
          v.state
          ∷ pad 31 (v.drop_idx ∷ pad 3 (v.balance ∷ pad 7 (put_int v.last_distribution []))));
  decode = read 31 λ user. read 31 λ state. read 3 λ drop_idx. read 7 λ balance. read 0 λ s.
      read 6 λ n bs. some (
        record {
          user = user;
          state = state;
          drop_idx = drop_idx;
          balance = balance;
          last_distribution = int_of s n;
        },
        bs,
      );
  decode-encode = λ v rest.
      ap (λ t. some (record v { last_distribution = t }, rest)) (int_lem v.last_distribution);
}
