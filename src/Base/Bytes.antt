-- ===== src/Base/Bytes.antt =====
-- stm32/project/shared/inc/helpers.h: reading and writing words in byte buffers.
use Prim.Native.Nat.{ℕ, ◌+◌, bit_or}
use mathlib.Core.List.{List}
use hilglebone.Base.Array.{get_or, set}
use hilglebone.Base.Word.{u8, u16, ◌<<◌, ◌>>◌}

-- `read_u16_le(&data[at])`
abbrev pub read_u16_le : List ℕ → ℕ → ℕ
read_u16_le buf at = bit_or (u16 (get_or buf at 0)) (u16 (get_or buf (at + 1) 0) << 8)

-- `read_u32_le(&data[at])`
abbrev pub read_u32_le : List ℕ → ℕ → ℕ
read_u32_le buf at =
    bit_or
      (bit_or (bit_or (get_or buf at 0) (get_or buf (at + 1) 0 << 8)) (get_or buf (at + 2) 0 << 16))
      (get_or buf (at + 3) 0 << 24)

-- `write_u32_be(&out[at], value)`
abbrev pub write_u32_be : List ℕ → ℕ → ℕ → List ℕ
write_u32_be out at value =
    set
      (set (set (set out at (u8 (value >> 24))) (at + 1) (u8 (value >> 16))) (at + 2)
        (u8 (value >> 8)))
      (at + 3) (u8 value)
