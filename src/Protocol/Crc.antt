-- ===== src/Protocol/Crc.antt =====
-- stm32/project/protocol/src/crc16.c: CRC-16/CCITT-FALSE, bit by bit.
pub mod Laws
pub mod Remainder
use hilglebone.Base.{ℕ, zero, suc, ◌*◌, ◌%◌, ◌^◌, List, [], ◌∷◌, not}
use hilglebone.Base.{bit_and, bit_xor, u16, ◌<<◌, ◌==◌, if◌then◌else◌}

-- `CRC16_INIT`
abbrev pub crc16_init : ℕ
crc16_init = 0xFFFF

-- `CRC16_POLY`, `CRC16_MSBIT_MASK`, `CRC16_BITS_IN_BYTE`
abbrev crc16_poly : ℕ
crc16_poly = 0x1021

abbrev crc16_msbit_mask : ℕ
crc16_msbit_mask = 0x8000

abbrev crc16_bits_in_byte : ℕ
crc16_bits_in_byte = 8

-- The body of the inner loop. The shift is done in `int`, and the assignment cuts to 16 bits.
pub crc_bit : ℕ → ℕ
crc_bit crc =
    if not (bit_and crc crc16_msbit_mask == 0)
    then u16 (bit_xor (crc << 1) crc16_poly)
    else u16 (crc << 1)

-- The inner loop with `n` rounds left.
crc_bits : ℕ → ℕ → ℕ
crc_bits zero crc = crc
crc_bits (suc n) crc = crc_bits n (crc_bit crc)

-- The body of the outer loop.
pub crc_byte : ℕ → ℕ → ℕ
crc_byte crc b = crc_bits crc16_bits_in_byte (u16 (bit_xor crc (b << crc16_bits_in_byte)))

-- `crc16_ccitt_update(seed, data, len)`; the list is `data[0..len)`.
unfoldable pub crc16_ccitt_update : ℕ → List ℕ → ℕ
unfolding crc_bit crc_bits crc_byte
crc16_ccitt_update seed [] = seed
crc16_ccitt_update seed (b ∷ rest) = crc16_ccitt_update (crc_byte seed b) rest
