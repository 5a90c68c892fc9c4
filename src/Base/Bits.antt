-- ===== src/Base/Bits.antt =====
-- Laws of `&`, `|` and `^` at variables, from the digit recursion they stand for.
use Prim.Native.Nat.{digits, bitwise, bit_and-bitwise, bit_or-bitwise, bit_xor-bitwise, differ, max}
use Prim.Native.Nat.{ℕ, zero, suc, ◌+◌, ◌-◌, ◌*◌, ◌/◌, ◌%◌, ◌^◌, ◌≤◌, ◌<◌, min}
use Prim.Native.Nat.{bit_and, bit_or, bit_xor}
use mathlib.Core.Path.{◌≡◌, refl, ap, sym, ◌∙◌}
use mathlib.Core.Logic.{inl, inr}
use hilglebone.Base.Tests.{leb, leb→le, Bool-cases}
use native.Mathlib.Omega.{arith}
use native.Mathlib.Nat.{le_refl, pow-suc, one-le-pow, div-add-mod, mod-lt}

-- The digit recursion counts down a bound on the digits; a larger bound changes nothing.
module _ (pad : ℕ → ℕ) (op : ℕ → ℕ → ℕ) where
  one_more : (n x y : ℕ) → x ≤ n → digits pad op (suc n) x y ≡ digits pad op n x y
  one_more zero zero y h = refl
  one_more zero (suc x) y h = elim h [ ]
  one_more (suc n) zero y h = refl
  one_more (suc n) (suc x) y h = omega (arith, one_more n (suc x / 2) (y / 2) (omega arith))

  settled : (n x y : ℕ) → x ≤ n → digits pad op n x y ≡ bitwise pad op x y
  settled zero zero y h = refl
  settled zero (suc x) y h = elim h [ ]
  settled (suc n) x y h = elim (Bool-cases (leb x n)) [
    | inl below ↦ one_more n x y (leb→le x n below) ∙ settled n x y (leb→le x n below)
    | inr top ↦ let same : suc n ≡ x = ground arith in ap (λ (k : ℕ). digits pad op k x y) same
  ]

  halved :
      (x y : ℕ)
      → bitwise pad op (suc x) y ≡ op (suc x % 2) (y % 2) + 2 * bitwise pad op (suc x / 2) (y / 2)
  halved x y = omega (arith, settled x (suc x / 2) (y / 2) (omega arith))

-- One digit of each operation.
bit_and_halve : (a b : ℕ) → bit_and a b ≡ bit_and (a / 2) (b / 2) * 2 + min (a % 2) (b % 2)
bit_and_halve zero b = simp bit_and-bitwise (omega arith)
bit_and_halve (suc a) b = simp bit_and-bitwise (omega (arith, halved (λ d. 0) min a b))

bit_or_halve : (a b : ℕ) → bit_or a b ≡ bit_or (a / 2) (b / 2) * 2 + max (a % 2) (b % 2)
bit_or_halve zero b = simp bit_or-bitwise (omega arith)
bit_or_halve (suc a) b = simp bit_or-bitwise (omega (arith, halved (λ d. d) max a b))

differ-zero : (x : ℕ) → x < 2 → differ x 0 ≡ x
differ-zero zero h = refl
differ-zero (suc x) h = refl

differ_bits : (x y : ℕ) → x < 2 → y < 2 → differ x y ≡ (x + y) % 2
differ_bits zero y p q = omega arith
differ_bits (suc zero) zero p q = refl
differ_bits (suc zero) (suc zero) p q = refl
differ_bits (suc zero) (suc (suc y)) p q = absurd (omega arith)
differ_bits (suc (suc x)) y p q = absurd (omega arith)

-- A digit of `^` is the sum of the digits, modulo 2.
pub bit_xor_halve : (a b : ℕ) → bit_xor a b ≡ bit_xor (a / 2) (b / 2) * 2 + (a % 2 + b % 2) % 2
bit_xor_halve zero b = simp bit_xor-bitwise (omega arith)
bit_xor_halve (suc a) b =
    rw (← differ_bits (suc a % 2) (b % 2) (omega arith) (omega arith))
      (simp bit_xor-bitwise (omega (arith, halved (λ d. d) differ a b)))

-- `a ^ b ^ b` is `a`: a number below `n` is `n` halvings from 0.
bit_xor_undo_below : (n a b : ℕ) → a < n → b < n → bit_xor (bit_xor a b) b ≡ a
bit_xor_undo_below zero a b p q = absurd (omega arith)
bit_xor_undo_below (suc zero) a b p q =
    let za : a ≡ 0 = omega arith in let zb : b ≡ 0 = omega arith in rw (za, zb) refl
bit_xor_undo_below (suc (suc n)) a b p q =
    let low : bit_xor a b / 2 ≡ bit_xor (a / 2) (b / 2) = omega (arith, bit_xor_halve a b) in
    let ih = bit_xor_undo_below (suc n) (a / 2) (b / 2) (omega arith) (omega arith) in
    omega
      (arith, bit_xor_halve (bit_xor a b) b, ap (λ t. bit_xor t (b / 2)) low, ih, bit_xor_halve a b)

bit_xor_undo : (a b : ℕ) → bit_xor (bit_xor a b) b ≡ a
bit_xor_undo a b = bit_xor_undo_below (suc (a + b)) a b (omega arith) (omega arith)

bit_xor_comm_below : (n a b : ℕ) → a < n → b < n → bit_xor a b ≡ bit_xor b a
bit_xor_comm_below zero a b p q = absurd (omega arith)
bit_xor_comm_below (suc zero) a b p q =
    let za : a ≡ 0 = omega arith in let zb : b ≡ 0 = omega arith in rw (za, zb) refl
bit_xor_comm_below (suc (suc n)) a b p q = omega (
  arith,
  bit_xor_halve a b,
  bit_xor_halve b a,
  bit_xor_comm_below (suc n) (a / 2) (b / 2) (omega arith) (omega arith),
)

pub bit_xor_comm : (a b : ℕ) → bit_xor a b ≡ bit_xor b a
bit_xor_comm a b = bit_xor_comm_below (suc (a + b)) a b (omega arith) (omega arith)

bit_xor_assoc_below :
    (n a b c : ℕ) → a < n → b < n → c < n → bit_xor (bit_xor a b) c ≡ bit_xor a (bit_xor b c)
bit_xor_assoc_below zero a b c p q r = absurd (omega arith)
bit_xor_assoc_below (suc zero) a b c p q r =
    let za : a ≡ 0 = omega arith in
    let zb : b ≡ 0 = omega arith in let zc : c ≡ 0 = omega arith in rw (za, zb, zc) refl
bit_xor_assoc_below (suc (suc n)) a b c p q r =
    let left : bit_xor a b / 2 ≡ bit_xor (a / 2) (b / 2) = omega (arith, bit_xor_halve a b) in
    let right : bit_xor b c / 2 ≡ bit_xor (b / 2) (c / 2) = omega (arith, bit_xor_halve b c) in
    let ih =
      bit_xor_assoc_below (suc n) (a / 2) (b / 2) (c / 2) (omega arith) (omega arith)
        (omega arith) in
    omega (
      arith,
      bit_xor_halve (bit_xor a b) c,
      bit_xor_halve a (bit_xor b c),
      bit_xor_halve a b,
      bit_xor_halve b c,
      ap (λ t. bit_xor t (c / 2)) left,
      ap (λ t. bit_xor (a / 2) t) right,
      ih,
    )

pub bit_xor_assoc : (a b c : ℕ) → bit_xor (bit_xor a b) c ≡ bit_xor a (bit_xor b c)
bit_xor_assoc a b c =
    bit_xor_assoc_below (suc (a + b + c)) a b c (omega arith) (omega arith) (omega arith)

pub zero-bit_xor : (b : ℕ) → bit_xor 0 b ≡ b
zero-bit_xor b = bit_xor-bitwise 0 b

pub bit_xor_self : (a : ℕ) → bit_xor a a ≡ 0
bit_xor_self a = ap (λ t. bit_xor t a) (sym (zero-bit_xor a)) ∙ bit_xor_undo 0 a

-- A term in the middle that both sides have goes away.
pub bit_xor_middle : (a b c : ℕ) → bit_xor (bit_xor a b) (bit_xor b c) ≡ bit_xor a c
bit_xor_middle a b c =
    sym (bit_xor_assoc (bit_xor a b) b c) ∙ ap (λ t. bit_xor t c) (bit_xor_undo a b)

bit_xor_double : (a b : ℕ) → bit_xor (a * 2) (b * 2) ≡ bit_xor a b * 2
bit_xor_double a b =
    let half : (x : ℕ) → x * 2 / 2 ≡ x = λ x. omega arith in
    let low : (x : ℕ) → x * 2 % 2 ≡ 0 = λ x. omega arith in
    bit_xor_halve (a * 2) (b * 2) ∙ rw (half a, half b, low a, low b) (omega arith)

-- A shift to the left goes to both sides.
pub bit_xor_shift : (k a b : ℕ) → bit_xor (a * 2 ^ k) (b * 2 ^ k) ≡ bit_xor a b * 2 ^ k
bit_xor_shift zero a b =
    let one : (x : ℕ) → x * 2 ^ 0 ≡ x = λ x. omega arith in
    rw (one a, one b, one (bit_xor a b)) refl
bit_xor_shift (suc k) a b =
    let more : (x : ℕ) → x * 2 ^ suc k ≡ x * 2 ^ k * 2 =
      λ x. omega (arith, ap (λ (t : ℕ). x * t) (pow-suc 2 k)) in
    rw (more a, more b, more (bit_xor a b))
      (bit_xor_double (a * 2 ^ k) (b * 2 ^ k) ∙ ap (λ (t : ℕ). t * 2) (bit_xor_shift k a b))

pub bit_xor-injective : (a b c : ℕ) → bit_xor a c ≡ bit_xor b c → a ≡ b
bit_xor-injective a b c e = sym (bit_xor_undo a c) ∙ ap (λ t. bit_xor t c) e ∙ bit_xor_undo b c

pub bit_xor-injective_right : (c a b : ℕ) → bit_xor c a ≡ bit_xor c b → a ≡ b
bit_xor-injective_right c a b e = bit_xor-injective a b c (bit_xor_comm a c ∙ e ∙ bit_xor_comm c b)

pub bit_xor-lt : (k a b : ℕ) → a < 2 ^ k → b < 2 ^ k → bit_xor a b < 2 ^ k
bit_xor-lt zero a b p q =
    let za : a ≡ 0 = omega arith in let zb : b ≡ 0 = omega arith in rw (za, zb) (omega arith)
bit_xor-lt (suc k) a b p q = omega (
  arith,
  bit_xor_halve a b,
  pow-suc 2 k,
  bit_xor-lt k (a / 2) (b / 2) (omega (arith, pow-suc 2 k)) (omega (arith, pow-suc 2 k)),
)

bit_or_nothing : (n a : ℕ) → a ≤ n → bit_or a 0 ≡ a
bit_or_nothing n zero h = refl
bit_or_nothing zero (suc a) h = absurd (omega arith)
bit_or_nothing (suc n) (suc a) h =
    omega (arith, bit_or_halve (suc a) 0, bit_or_nothing n (suc a / 2) (omega arith))

shifted-suc : (q k : ℕ) → q * 2 ^ suc k ≡ 2 * (q * 2 ^ k)
shifted-suc q k = omega (arith, ap (λ (t : ℕ). q * t) (pow-suc 2 k))

pub zero-bit_or : (b : ℕ) → bit_or 0 b ≡ b
zero-bit_or b = bit_or-bitwise 0 b

-- `r | (q << k)` is a sum when `r` has at most `k` bits.
pub bit_or_disjoint : (k r q : ℕ) → r < 2 ^ k → bit_or r (q * 2 ^ k) ≡ q * 2 ^ k + r
bit_or_disjoint zero r q h =
    let zr : r ≡ 0 = omega arith in rw zr (omega (arith, zero-bit_or (q * 2 ^ 0)))
bit_or_disjoint (suc k) r q h = ground (
  arith,
  bit_or_halve r (q * 2 ^ suc k),
  shifted-suc q k,
  pow-suc 2 k,
  bit_or_disjoint k (r / 2) q (omega (arith, pow-suc 2 k)),
)

bit_and_nothing : (n a : ℕ) → a ≤ n → bit_and a 0 ≡ 0
bit_and_nothing n zero h = refl
bit_and_nothing zero (suc a) h = absurd (omega arith)
bit_and_nothing (suc n) (suc a) h =
    omega (arith, bit_and_halve (suc a) 0, bit_and_nothing n (suc a / 2) (omega arith))

bit_and_ones : (k q r : ℕ) → r < 2 ^ k → bit_and (q * 2 ^ k + r) (2 ^ k - 1) ≡ r
bit_and_ones zero q r h = omega (arith, bit_and_nothing (q * 2 ^ 0 + r) (q * 2 ^ 0 + r) (le_refl _))
bit_and_ones (suc k) q r h = ground (
  arith,
  bit_and_halve (q * 2 ^ suc k + r) (2 ^ suc k - 1),
  shifted-suc q k,
  pow-suc 2 k,
  one-le-pow k 2 (omega arith),
  bit_and_ones k q (r / 2) (omega (arith, pow-suc 2 k)),
)

-- A mask of `k` ones keeps the remainder by `2 ^ k`.
pub bit_and_mask : (k a : ℕ) → bit_and a (2 ^ k - 1) ≡ a % 2 ^ k
bit_and_mask k a = ground (
  arith,
  one-le-pow k 2 (omega arith),
  bit_and_ones k (a / 2 ^ k) (a % 2 ^ k),
  div-add-mod (2 ^ k) a,
  div-add-mod a (2 ^ k),
  mod-lt a {m = 2 ^ k} (one-le-pow k 2 (omega arith)),
)
