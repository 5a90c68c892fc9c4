-- ===== src/Base/Endian.antt =====
-- The readers and the writer of stm32/project/shared/inc/helpers.h, as numbers in base 256.
use Prim.Native.Nat.{ℕ, ◌+◌, ◌*◌, ◌^◌, ◌<◌, bit_or}
use mathlib.Core.Path.{◌≡◌}
use mathlib.Core.List.{List, ◌∷◌}
use native.Mathlib.Omega.{arith}
use hilglebone.Base.Word.{u16}
use hilglebone.Base.Bytes.{read_u16_le, read_u32_le}
use hilglebone.Base.Bits.{bit_or_disjoint}

-- On two bytes the reader gives the number that they are the little-endian digits of.
pub read_u16_le_lem :
    (a b : ℕ) (rest : List ℕ) → a < 256 → b < 256 → read_u16_le (a ∷ b ∷ rest) 0 ≡ a + b * 2 ^ 8
read_u16_le_lem a b rest ha hb =
    let low : u16 a ≡ a = omega arith in
    let high : u16 b ≡ b = omega arith in
    let j : bit_or a (b * 2 ^ 8) ≡ b * 2 ^ 8 + a = bit_or_disjoint 8 a b (omega arith) in
    rw (low, high, j) (omega arith)

-- On four bytes the reader gives the number that they are the little-endian digits of.
pub read_u32_le_lem :
    (a b c d : ℕ) (rest : List ℕ)
    → a < 256
    → b < 256
    → c < 256
    → read_u32_le (a ∷ b ∷ c ∷ d ∷ rest) 0 ≡ a + b * 2 ^ 8 + c * 2 ^ 16 + d * 2 ^ 24
read_u32_le_lem a b c d rest ha hb hc =
    let i : bit_or a (b * 2 ^ 8) ≡ b * 2 ^ 8 + a = bit_or_disjoint 8 a b (omega arith) in
    let j : bit_or (b * 2 ^ 8 + a) (c * 2 ^ 16) ≡ c * 2 ^ 16 + (b * 2 ^ 8 + a) =
      bit_or_disjoint 16 (b * 2 ^ 8 + a) c (omega arith) in
    let k : bit_or (c * 2 ^ 16 + (b * 2 ^ 8 + a)) (d * 2 ^ 24)
        ≡ d * 2 ^ 24 + (c * 2 ^ 16 + (b * 2 ^ 8 + a)) =
      bit_or_disjoint 24 (c * 2 ^ 16 + (b * 2 ^ 8 + a)) d (omega arith) in
    rw (i, j, k) (omega arith)
