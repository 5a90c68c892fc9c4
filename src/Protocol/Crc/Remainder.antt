-- ===== src/Protocol/Crc/Remainder.antt =====
-- The CRC of stm32/project/protocol/src/crc16.c and polynomials over two elements. A number
-- stands for the polynomial whose coefficients are its binary digits: the sum is `bit_xor`, and a
-- shift multiplies by a power of x.
use mathlib.Core.Path.{subst}
use native.Mathlib.Nat.{pow-suc}
use hilglebone.Base.{ℕ, zero, suc, ◌+◌, ◌*◌, ◌/◌, ◌%◌, ◌^◌, ◌<◌, List, [], ◌∷◌, ◌≡◌}
use hilglebone.Base.{
  refl, ap, sym, ◌∙◌, arith, Bool, true, bit_xor, ◌<<◌, ◌==◌, ◌||◌, ==_iff, AllBytes, length, inl,
  inr, Bool-cases,
}
use hilglebone.Base.Bits.{
  bit_xor-lt, bit_xor_assoc, bit_xor_self, zero-bit_xor, bit_xor_middle, bit_xor_shift,
  bit_xor_comm,
}
use hilglebone.Protocol.Crc.{crc_bit, crc_bits, crc_byte, crc16_ccitt_update}
use hilglebone.Protocol.Crc.Laws.{
  passes, passes_at, crc_bit-lt, crc_byte-lt, crc_byte_mix, crc16_ccitt_update-lt,
}

-- x^16 + x^12 + x^5 + 1
abbrev pub generator : ℕ
generator = 2 ^ 16 + 2 ^ 12 + 2 ^ 5 + 1

-- The multiples of the generator.
pub data IsMultiple : ℕ → Type 0 where
  nothing : IsMultiple 0
  once : IsMultiple generator
  shift : (n k : ℕ) → IsMultiple n → IsMultiple (n << k)
  sum : (a b : ℕ) → IsMultiple a → IsMultiple b → IsMultiple (bit_xor a b)

-- The message, its first byte foremost.
unfoldable pub message : List ℕ → ℕ
message [] = 0
message (b ∷ rest) = bit_xor (b << (8 * length rest)) (message rest)

-- What is divided: the message with sixteen zeros behind it, and the seed on top of its first digits.
abbrev pub dividend : ℕ → List ℕ → ℕ
dividend seed xs = bit_xor (seed << (8 * length xs)) (message xs << 16)

-- The remainder of the division by the generator.
pub record IsRemainder (n r : ℕ) : Type 0 where
  pub below : r < 2 ^ 16
  pub difference : IsMultiple (bit_xor n r)

-- Equal up to a multiple of the generator.
Congruent : ℕ → ℕ → Type 0
Congruent a b = IsMultiple (bit_xor a b)

Congruent-trans : (a b c : ℕ) → Congruent a b → Congruent b c → Congruent a c
unfolding Congruent
Congruent-trans a b c p q = subst IsMultiple (bit_xor_middle a b c) (IsMultiple.sum _ _ p q)

Congruent-shift : (a b k : ℕ) → Congruent a b → Congruent (a << k) (b << k)
unfolding Congruent
Congruent-shift a b k p = subst IsMultiple (sym (bit_xor_shift k a b)) (IsMultiple.shift _ k p)

Congruent-add : (a b z : ℕ) → Congruent a b → Congruent (bit_xor a z) (bit_xor b z)
unfolding Congruent
Congruent-add a b z p =
    let flipped : bit_xor (bit_xor a z) (bit_xor z b) ≡ bit_xor a b = bit_xor_middle a z b in
    subst IsMultiple (sym (ap (λ t. bit_xor (bit_xor a z) t) (bit_xor_comm b z) ∙ flipped)) p

-- One round is a multiplication by x, up to the generator: all 65536 values, in blocks of 256.
off_by : ℕ → Bool
unfolding crc_bit
off_by c = let d = bit_xor (c << 1) (crc_bit c) in d == 0 || d == generator

off_by_table : passes (λ hi. passes (λ lo. off_by (hi * 256 + lo)) 0 256) 0 256 ≡ true
unfolding passes crc_bit off_by
off_by_table = refl

crc_bit-Congruent : (c : ℕ) → c < 2 ^ 16 → Congruent (c << 1) (crc_bit c)
unfolding Congruent off_by
crc_bit-Congruent c h =
    let block =
      passes_at (λ hi. passes (λ lo. off_by (hi * 256 + lo)) 0 256) (c / 256) 256 0 off_by_table
        (omega arith) (omega arith) in
    let entry =
      passes_at (λ lo. off_by (c / 256 * 256 + lo)) (c % 256) 256 0 block (omega arith)
        (omega arith) in
    let e : c / 256 * 256 + c % 256 ≡ c = omega arith in
    let fact : off_by c ≡ true = subst (λ t. off_by t ≡ true) e entry in
    let d = bit_xor (c << 1) (crc_bit c) in
    elim (Bool-cases (d == 0)) [
      | inl none_left ↦ subst IsMultiple (sym ((==_iff d 0).0 none_left)) IsMultiple.nothing
      | inr other ↦
          let same : (d == generator) ≡ true = rw other at fact in
          subst IsMultiple (sym ((==_iff d generator).0 same)) IsMultiple.once
    ]

shift_shift : (a j k : ℕ) → a << j << k ≡ a << (j + k)
shift_shift a j zero = let e : j + 0 ≡ j = omega arith in rw e (omega arith)
shift_shift a j (suc k) =
    let e : j + suc k ≡ suc (j + k) = omega arith in
    let outer : a << j << suc k ≡ (a << j << k) * 2 =
      omega (arith, ap (λ (t : ℕ). (a << j) * t) (pow-suc 2 k)) in
    let inner : a << suc (j + k) ≡ (a << (j + k)) * 2 =
      omega (arith, ap (λ (t : ℕ). a * t) (pow-suc 2 (j + k))) in
    outer ∙ ap (λ (t : ℕ). t * 2) (shift_shift a j k) ∙ sym inner ∙ rw e refl

crc_bits-Congruent : (n c : ℕ) → c < 2 ^ 16 → Congruent (c << n) (crc_bits n c)
unfolding crc_bits
crc_bits-Congruent zero c h =
    let one : c << 0 ≡ c = omega arith in
    let none_left : bit_xor (c << 0) c ≡ 0 = rw one (bit_xor_self c) in
    unfold Congruent in subst IsMultiple (sym none_left) IsMultiple.nothing
crc_bits-Congruent (suc n) c h =
    let e : 1 + n ≡ suc n = omega arith in
    let first : Congruent (c << (1 + n)) (crc_bit c << n) =
      subst (λ t. Congruent t (crc_bit c << n)) (shift_shift c 1 n)
        (Congruent-shift (c << 1) (crc_bit c) n (crc_bit-Congruent c h)) in
    Congruent-trans (c << suc n) (crc_bit c << n) (crc_bits n (crc_bit c))
      (subst (λ t. Congruent (c << t) (crc_bit c << n)) e first)
      (crc_bits-Congruent n (crc_bit c) (crc_bit-lt c))

crc_byte-Congruent :
    (c b : ℕ) → c < 2 ^ 16 → b < 256 → Congruent (bit_xor (c << 8) (b << 16)) (crc_byte c b)
unfolding crc_byte
crc_byte-Congruent c b h k =
    let spread : bit_xor c (b << 8) << 8 ≡ bit_xor (c << 8) (b << 16) =
      sym (bit_xor_shift 8 c (b << 8)) ∙ ap (λ t. bit_xor (c << 8) t) (shift_shift b 8 8) in
    let mixed : bit_xor c (b << 8) < 2 ^ 16 = bit_xor-lt 16 c (b << 8) h (omega arith) in
    subst (λ t. Congruent t (crc_byte c b)) spread
      (subst (λ t. Congruent (bit_xor c (b << 8) << 8) (crc_bits 8 t)) (sym (crc_byte_mix c b h k))
        (crc_bits-Congruent 8 (bit_xor c (b << 8)) mixed))

-- The first byte of the message, pulled out of the dividend.
dividend_first :
    (seed b : ℕ) (rest : List ℕ)
    → dividend seed (b ∷ rest)
      ≡ bit_xor (bit_xor (seed << 8) (b << 16) << (8 * length rest)) (message rest << 16)
unfolding message
dividend_first seed b rest =
    let n = 8 * length rest in
    let seed_part : seed << (8 * length (b ∷ rest)) ≡ seed << 8 << n =
      let e : 8 * length (b ∷ rest) ≡ 8 + n = omega arith in rw e (sym (shift_shift seed 8 n)) in
    let byte_part : b << n << 16 ≡ b << 16 << n =
      let e : n + 16 ≡ 16 + n = omega arith in
      shift_shift b n 16 ∙ rw e (sym (shift_shift b 16 n)) in
    let split : bit_xor (b << n) (message rest) << 16
        ≡ bit_xor (b << 16 << n) (message rest << 16) =
      sym (bit_xor_shift 16 (b << n) (message rest))
      ∙ ap (λ t. bit_xor t (message rest << 16)) byte_part in
    ap (λ t. bit_xor t (bit_xor (b << n) (message rest) << 16)) seed_part
    ∙ ap (λ t. bit_xor (seed << 8 << n) t) split
    ∙ sym (bit_xor_assoc (seed << 8 << n) (b << 16 << n) (message rest << 16))
    ∙ ap (λ t. bit_xor t (message rest << 16)) (bit_xor_shift n (seed << 8) (b << 16))

update-Congruent :
    (seed : ℕ) (xs : List ℕ)
    → seed < 2 ^ 16
    → AllBytes xs
    → Congruent (dividend seed xs) (crc16_ccitt_update seed xs)
unfolding crc16_ccitt_update message
update-Congruent seed [] h bytes =
    let one : seed << 0 ≡ seed = omega arith in
    let none_left : bit_xor (dividend seed []) seed ≡ 0 =
      ap (λ t. bit_xor t seed) (bit_xor_comm (seed << 0) 0 ∙ zero-bit_xor (seed << 0) ∙ one)
      ∙ bit_xor_self seed in
    unfold Congruent in subst IsMultiple (sym none_left) IsMultiple.nothing
update-Congruent seed (b ∷ rest) h bytes =
    let n = 8 * length rest in
    let mid = crc_byte seed b in
    let byte : Congruent (bit_xor (seed << 8) (b << 16)) mid =
      crc_byte-Congruent seed b h bytes.0 in
    let ahead : Congruent (dividend seed (b ∷ rest)) (dividend mid rest) =
      subst (λ t. Congruent t (dividend mid rest)) (sym (dividend_first seed b rest))
        (Congruent-add (bit_xor (seed << 8) (b << 16) << n) (mid << n) (message rest << 16)
          (Congruent-shift _ mid n byte)) in
    Congruent-trans (dividend seed (b ∷ rest)) (dividend mid rest) (crc16_ccitt_update mid rest)
      ahead (update-Congruent mid rest (crc_byte-lt seed b) bytes.1)

-- From a 16-bit seed, and over bytes, the CRC is the remainder of a division by the polynomial
-- x^16 + x^12 + x^5 + 1 over two elements: it is below 2^16 and differs by a multiple of the polynomial
-- from the message with sixteen zero digits behind it and the seed added to its foremost digits.
pub crc16_ccitt_update-IsRemainder :
    (seed : ℕ) (xs : List ℕ)
    → seed < 2 ^ 16
    → AllBytes xs
    → IsRemainder (dividend seed xs) (crc16_ccitt_update seed xs)
unfolding Congruent
crc16_ccitt_update-IsRemainder seed xs h bytes = record {
  below = crc16_ccitt_update-lt seed xs h;
  difference = update-Congruent seed xs h bytes;
}
