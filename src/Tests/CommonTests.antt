-- ===== src/Tests/CommonTests.antt =====
-- The round trip of entities at a voucher of the royalty program.
use human_program_library.Base.{arith, ◌≡◌, refl, true, []}
use human_program_library.Base.Int.{pos}
use human_program_library.Base.Lists.{length}
use human_program_library.Base.Result.{ok, err}
use human_program_library.Common.Codec.{Bytes}
use human_program_library.Common.Errors.{account_already_initialized}
use human_program_library.Common.Entity.{
  Entity, serialize_to, deserialize_from, is_initialized, initialize_entity,
}
use human_program_library.Common.EntityLaws.{deserialize_from-serialize_to}
use human_program_library.Royalty.Defs.{Voucher}
use human_program_library.Tests.Codecs.{royalty_voucher_codec, pad}
use human_program_library.Tests.Machine.{ok_bytes}

abbrev royalty_voucher : Entity Voucher
royalty_voucher = record { size = 128; magic = 0x55; codec = royalty_voucher_codec }

abbrev voucher : Voucher
voucher = record { user = 5; state = 10; drop_idx = 3; balance = 700; last_distribution = pos 9 }

abbrev written : Bytes
unfolding serialize_to
written = ok_bytes (serialize_to royalty_voucher voucher (pad 128 []))

deserialize_from-serialize_to_example :
    (deserialize_from royalty_voucher written ≡ ok voucher)
    × (is_initialized royalty_voucher written ≡ true)
    × (length written ≡ length (pad 128 []))
    × (initialize_entity royalty_voucher voucher written ≡ err account_already_initialized)
unfolding serialize_to
deserialize_from-serialize_to_example =
    deserialize_from-serialize_to royalty_voucher voucher voucher (pad 128 []) written
      (λ e. absurd (omega arith)) refl
