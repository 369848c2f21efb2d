-- ===== src/Command/Tests.antt =====
-- The frames of the repository's fixtures, built and read back.
use delonghi_coffeelink.Prelude.{◌≡◌, refl, some, none, [], ◌∷◌}
use delonghi_coffeelink.Prelude.Result.{ok}
use delonghi_coffeelink.Prelude.Int.{negsuc}
use delonghi_coffeelink.Crc.{crc16_aug_ccitt, crc_from, crc_byte, crc_rounds, crc_round}
use delonghi_coffeelink.Bytes.{to_bytes4, signed_to_bytes4}
use delonghi_coffeelink.Command.{bytes_of, build_profile_command, build_wake_with_session_tail}

-- The frame that the official app wrote for profile 1.
profile_one :
    build_profile_command 0 1 (some 0x69e8c5ee) none
    ≡ ok (0x0d ∷ 0x06 ∷ 0xa9 ∷ 0xf0 ∷ 0x01 ∷ 0xd7 ∷ 0xc0 ∷ 0x69 ∷ 0xe8 ∷ 0xc5 ∷ 0xee ∷ [])
unfolding build_profile_command bytes_of to_bytes4 crc16_aug_ccitt crc_from crc_byte crc_rounds
    crc_round
profile_one = refl

-- The captured wake frame, with the id 0xC0FFEE11 behind the timestamp.
wake_tail :
    build_wake_with_session_tail 1 (negsuc 0x3f0011ee) none
    ≡ ok (
        0x0d ∷ 0x07 ∷ 0x84 ∷ 0x0f ∷ 0x02 ∷ 0x01 ∷ 0x55 ∷ 0x12 ∷ 0 ∷ 0 ∷ 0 ∷ 1 ∷ 0xc0 ∷ 0xff ∷ 0xee
        ∷ 0x11 ∷ [])
unfolding build_wake_with_session_tail to_bytes4 signed_to_bytes4 crc16_aug_ccitt crc_from crc_byte
    crc_rounds crc_round
wake_tail = refl
