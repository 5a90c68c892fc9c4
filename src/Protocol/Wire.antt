-- ===== src/Protocol/Wire.antt =====
-- The frame format that docs/protocol gives, independent of parser and encoder:
-- START, TYPE, LEN low, LEN high, SEQ, the payload, CRC low, CRC high.
use hilglebone.Base.{ℕ, ◌/◌, ◌%◌, List, [], ◌∷◌, ◌++◌, length}
use hilglebone.Protocol.Proto
use hilglebone.Protocol.Crc.{crc16_init, crc16_ccitt_update}

-- What the CRC covers.
abbrev pub covered : ℕ → ℕ → List ℕ → List ℕ
covered type seq payload = type ∷ length payload % 256 ∷ length payload / 256 ∷ seq ∷ payload

abbrev pub crc_of : ℕ → ℕ → List ℕ → ℕ
crc_of type seq payload = crc16_ccitt_update crc16_init (covered type seq payload)

-- The two bytes of a 16-bit word, low byte first.
abbrev pub u16_bytes : ℕ → List ℕ
u16_bytes n = n % 256 ∷ n / 256 ∷ []

abbrev pub frame_bytes : ℕ → ℕ → List ℕ → List ℕ
frame_bytes type seq payload =
    Proto.start_byte ∷ (covered type seq payload ++ u16_bytes (crc_of type seq payload))
