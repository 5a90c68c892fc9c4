-- ===== src/Protocol/Crc/Laws.antt =====
-- The CRC of stm32/project/protocol/src/crc16.c over data with an error.
use hilglebone.Base.{ℕ, zero, suc, ◌+◌, ◌*◌, ◌/◌, ◌%◌, ◌^◌, ◌<◌, List, [], ◌∷◌, ◌++◌, ◌≡◌}
use hilglebone.Base.{refl, ap, sym, ◌∙◌, ◌≢◌, arith, Bool, true, bit_xor, u16, ◌<<◌, ◌==◌}
use hilglebone.Base.{if◌then◌else◌, Bool-cases, inl, inr, false, ◌≤◌, ==_iff, AllBytes}
use hilglebone.Base.Bits.{bit_xor-injective, bit_xor-injective_right, bit_xor-lt}
use hilglebone.Protocol.Crc.{crc_bit, crc_bits, crc_byte, crc16_ccitt_update}

-- The CRC over two buffers.
pub crc16_ccitt_update-append :
    (seed : ℕ) (xs ys : List ℕ)
    → crc16_ccitt_update seed (xs ++ ys) ≡ crc16_ccitt_update (crc16_ccitt_update seed xs) ys
unfolding crc16_ccitt_update
crc16_ccitt_update-append seed [] ys = refl
crc16_ccitt_update-append seed (x ∷ xs) ys = crc16_ccitt_update-append (crc_byte seed x) xs ys

pub crc_bit-lt : (c : ℕ) → crc_bit c < 2 ^ 16
unfolding crc_bit
crc_bit-lt c = ground arith

crc_bits-lt : (n c : ℕ) → c < 2 ^ 16 → crc_bits n c < 2 ^ 16
unfolding crc_bits
crc_bits-lt zero c h = h
crc_bits-lt (suc n) c h = crc_bits-lt n (crc_bit c) (crc_bit-lt c)

pub crc_byte-lt : (c b : ℕ) → crc_byte c b < 2 ^ 16
unfolding crc_byte
crc_byte-lt c b = crc_bits-lt 8 (u16 (bit_xor c (b << 8))) (omega arith)

pub crc16_ccitt_update-lt :
    (seed : ℕ) (xs : List ℕ) → seed < 2 ^ 16 → crc16_ccitt_update seed xs < 2 ^ 16
unfolding crc16_ccitt_update
crc16_ccitt_update-lt seed [] h = h
crc16_ccitt_update-lt seed (x ∷ xs) h =
    crc16_ccitt_update-lt (crc_byte seed x) xs (crc_byte-lt seed x)

-- One round is undone by looking at the lowest bit, which the polynomial sets.
crc_unbit : ℕ → ℕ
crc_unbit d = if d % 2 == 1 then bit_xor d 0x1021 / 2 + 0x8000 else d / 2

-- Does `test` pass at the `n` numbers from `from` on?
unfoldable pub passes : (ℕ → Bool) → ℕ → ℕ → Bool
passes test from zero = true
passes test from (suc n) =
    let later = passes test (suc from) n in if test from then later else false

pub passes_at :
    (test : ℕ → Bool) (x n from : ℕ)
    → passes test from n ≡ true
    → from ≤ x
    → x < from + n
    → test x ≡ true
unfolding passes
passes_at test x zero from ok lo hi = absurd (omega arith)
passes_at test x (suc n) from ok lo hi = elim (Bool-cases (from == x)) [
  | inl here ↦ ap test (sym ((==_iff from x).0 here)) ∙ ground arith
  | inr there ↦ passes_at test x n (suc from) (ground arith) (ground arith) (omega arith)
]

-- All 65536 values, as 256 blocks of 256.
crc_unbit_table :
    passes (λ hi. passes (λ lo. crc_unbit (crc_bit (hi * 256 + lo)) == hi * 256 + lo) 0 256) 0 256
    ≡ true
unfolding passes crc_bit crc_unbit
crc_unbit_table = refl

crc_unbit-crc_bit : (c : ℕ) → c < 2 ^ 16 → crc_unbit (crc_bit c) ≡ c
crc_unbit-crc_bit c h =
    let block =
      passes_at (λ hi. passes (λ lo. crc_unbit (crc_bit (hi * 256 + lo)) == hi * 256 + lo) 0 256)
        (c / 256) 256 0 crc_unbit_table (omega arith) (omega arith) in
    let entry =
      passes_at (λ lo. crc_unbit (crc_bit (c / 256 * 256 + lo)) == c / 256 * 256 + lo) (c % 256) 256
        0 block (omega arith) (omega arith) in
    let e : c / 256 * 256 + c % 256 ≡ c = omega arith in
    (==_iff (crc_unbit (crc_bit c)) c).0 (rw e at entry)

crc_bit-injective : (c d : ℕ) → c < 2 ^ 16 → d < 2 ^ 16 → crc_bit c ≡ crc_bit d → c ≡ d
crc_bit-injective c d p q e = sym (crc_unbit-crc_bit c p) ∙ ap crc_unbit e ∙ crc_unbit-crc_bit d q

crc_bits-injective : (n c d : ℕ) → c < 2 ^ 16 → d < 2 ^ 16 → crc_bits n c ≡ crc_bits n d → c ≡ d
unfolding crc_bits
crc_bits-injective zero c d p q e = e
crc_bits-injective (suc n) c d p q e =
    crc_bit-injective c d p q
      (crc_bits-injective n (crc_bit c) (crc_bit d) (crc_bit-lt c) (crc_bit-lt d) e)

-- A byte is mixed in without a carry out of 16 bits.
pub crc_byte_mix : (c b : ℕ) → c < 2 ^ 16 → b < 256 → u16 (bit_xor c (b << 8)) ≡ bit_xor c (b << 8)
crc_byte_mix c b p q = let fits = bit_xor-lt 16 c (b << 8) p (omega arith) in omega arith

-- Two different states stay different when the same byte is absorbed.
crc_byte-injective :
    (c d b : ℕ) → c < 2 ^ 16 → d < 2 ^ 16 → b < 256 → crc_byte c b ≡ crc_byte d b → c ≡ d
unfolding crc_byte
crc_byte-injective c d b p q h e = bit_xor-injective c d (b << 8) (
    sym (crc_byte_mix c b p h)
    ∙ crc_bits-injective 8 (u16 (bit_xor c (b << 8))) (u16 (bit_xor d (b << 8))) (omega arith)
        (omega arith) e
    ∙ crc_byte_mix d b q h)

-- Two different bytes take the same state to different states.
crc_byte-injective_byte :
    (c a b : ℕ) → c < 2 ^ 16 → a < 256 → b < 256 → crc_byte c a ≡ crc_byte c b → a ≡ b
unfolding crc_byte
crc_byte-injective_byte c a b p ha hb e =
    let mixed : bit_xor c (a << 8) ≡ bit_xor c (b << 8) =
      sym (crc_byte_mix c a p ha)
      ∙ crc_bits-injective 8 (u16 (bit_xor c (a << 8))) (u16 (bit_xor c (b << 8))) (omega arith)
          (omega arith) e
      ∙ crc_byte_mix c b p hb in
    let shifted : a << 8 ≡ b << 8 = bit_xor-injective_right c (a << 8) (b << 8) mixed in omega arith

-- Different seeds give different results over the same data.
pub crc16_ccitt_update-injective :
    (c d : ℕ) (xs : List ℕ)
    → c < 2 ^ 16
    → d < 2 ^ 16
    → AllBytes xs
    → crc16_ccitt_update c xs ≡ crc16_ccitt_update d xs
    → c ≡ d
unfolding crc16_ccitt_update
crc16_ccitt_update-injective c d [] p q h e = e
crc16_ccitt_update-injective c d (x ∷ xs) p q h e = crc_byte-injective c d x p q h.0 (
    crc16_ccitt_update-injective (crc_byte c x) (crc_byte d x) xs (crc_byte-lt c x)
      (crc_byte-lt d x) h.1 e)

-- A change of one byte anywhere in the data changes the CRC, so `crc16_ccitt_update` detects
-- every error that is confined to one byte.
pub crc16_ccitt_update-detects_byte :
    (seed : ℕ) (pre post : List ℕ) (a b : ℕ)
    → seed < 2 ^ 16
    → a < 256
    → b < 256
    → AllBytes post
    → a ≢ b
    → crc16_ccitt_update seed (pre ++ (a ∷ post)) ≢ crc16_ccitt_update seed (pre ++ (b ∷ post))
unfolding crc16_ccitt_update
crc16_ccitt_update-detects_byte seed pre post a b p ha hb hs ne e = ne (
    crc_byte-injective_byte mid a b (crc16_ccitt_update-lt seed pre p) ha hb (
      crc16_ccitt_update-injective (crc_byte mid a) (crc_byte mid b) post (crc_byte-lt mid a)
        (crc_byte-lt mid b) hs
        (sym (crc16_ccitt_update-append seed pre (a ∷ post))
          ∙ e
          ∙ crc16_ccitt_update-append seed pre (b ∷ post))))
  where
    mid : ℕ
    mid = crc16_ccitt_update seed pre
