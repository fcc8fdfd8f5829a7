-- ===== src/Crc/Tests.antt =====
-- The checksum of the bytes 1, 2, 3.
use agatha.Prelude.{ℕ, ◌-◌, ◌^◌, ◌≡◌, refl, arith, List, [], ◌∷◌, bit_xor}
use agatha.Crc.{crc_continue, crc_checksum, crc_byte}
use agatha.Crc.Table.{bitwise, crc_checksum-bitwise}

abbrev bytes : List ℕ
bytes = 1 ∷ 2 ∷ 3 ∷ []

crc_checksum-bitwise_example :
    crc_checksum bytes ≡ bit_xor (bitwise bytes (2 ^ 32 - 1)) (2 ^ 32 - 1)
crc_checksum-bitwise_example =
    crc_checksum-bitwise bytes (omega arith, (omega arith, (omega arith, tt)))

-- "123456789", the usual check value.
check_value : crc_checksum (49 ∷ 50 ∷ 51 ∷ 52 ∷ 53 ∷ 54 ∷ 55 ∷ 56 ∷ 57 ∷ []) ≡ 3421780262
unfolding crc_checksum crc_continue crc_byte
check_value = refl
