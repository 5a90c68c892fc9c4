-- ===== src/Protocol/Encoder/Frame.antt =====
-- `build_frame` writes the wire format.
use mathlib.Core.Path.{ap₂}
use mathlib.Core.List.{append-nil, append_assoc}
use hilglebone.Base.{
  ℕ, zero, suc, ◌+◌, ◌-◌, ◌/◌, ◌%◌, ◌^◌, ◌≤◌, ◌<◌, List, [], ◌∷◌, ◌++◌, ◌≡◌, refl,
}
use hilglebone.Base.{ap, sym, ◌∙◌, arith, bit_and, u8, ◌>>◌, length, get_or, set, take, drop}
use hilglebone.Base.{length-set, take-set_self, take-length}
use hilglebone.Base.Bits.{bit_and_mask}
use hilglebone.Protocol.Proto
use hilglebone.Protocol.Crc.{crc16_init, crc16_ccitt_update}
use hilglebone.Protocol.Crc.Laws.{crc16_ccitt_update-lt}
use hilglebone.Protocol.Wire.{frame_bytes, covered, crc_of}
use hilglebone.Protocol.Encoder.{copy_payload, build_frame}

length-copy_payload :
    (out payload : List ℕ) (i n : ℕ) → length (copy_payload out payload i n) ≡ length out
unfolding copy_payload
length-copy_payload out payload i zero = refl
length-copy_payload out payload i (suc n) =
    length-copy_payload (set out (5 + i) (get_or payload i 0)) payload (suc i) n
    ∙ length-set out (5 + i) (get_or payload i 0)

-- The payload from index `i` on begins with its element there.
drop-get_or :
    (xs : List ℕ) (i n : ℕ)
    → i < length xs
    → take (suc n) (drop i xs) ≡ get_or xs i 0 ∷ take n (drop (suc i) xs)
drop-get_or [] i n h = absurd (omega arith)
drop-get_or (x ∷ xs) zero n h = refl
drop-get_or (x ∷ xs) (suc i) n h = drop-get_or xs i n (omega arith)

take-copy_payload :
    (out payload : List ℕ) (i n k : ℕ)
    → i + n ≤ length payload
    → 5 + i + n ≤ length out
    → k ≡ 5 + i + n
    → take k (copy_payload out payload i n) ≡ take (5 + i) out ++ take n (drop i payload)
unfolding copy_payload
take-copy_payload out payload i zero k p q e =
    let e' : k ≡ 5 + i = omega arith in rw e' (sym (append-nil (take (5 + i) out)))
take-copy_payload out payload i (suc n) k p q e =
    let x = get_or payload i 0 in
    let next : 5 + suc i ≡ suc (5 + i) = omega arith in
    take-copy_payload (set out (5 + i) x) payload (suc i) n k (omega arith)
      (omega (arith, length-set out (5 + i) x)) (omega arith)
    ∙ ap (λ (m : ℕ). take m (set out (5 + i) x) ++ take n (drop (suc i) payload)) next
    ∙ ap (λ ys. ys ++ take n (drop (suc i) payload)) (take-set_self out (5 + i) x (omega arith))
    ∙ append_assoc (take (5 + i) out) (x ∷ []) (take n (drop (suc i) payload))
    ∙ ap (λ ys. take (5 + i) out ++ ys) (sym (drop-get_or payload i n (omega arith)))

-- The five header stores.
take-header :
    (out : List ℕ) (a b c d e : ℕ)
    → 5 ≤ length out
    → take 5 (set (set (set (set (set out 0 a) 1 b) 2 c) 3 d) 4 e) ≡ a ∷ b ∷ c ∷ d ∷ e ∷ []
take-header [] a b c d e h = absurd (omega arith)
take-header (_ ∷ []) a b c d e h = absurd (omega arith)
take-header (_ ∷ _ ∷ []) a b c d e h = absurd (omega arith)
take-header (_ ∷ _ ∷ _ ∷ []) a b c d e h = absurd (omega arith)
take-header (_ ∷ _ ∷ _ ∷ _ ∷ []) a b c d e h = absurd (omega arith)
take-header (_ ∷ _ ∷ _ ∷ _ ∷ _ ∷ rest) a b c d e h = refl

-- A slice behind the first byte.
take-drop_one :
    (xs : List ℕ) (n y : ℕ) (ys : List ℕ) → take (suc n) xs ≡ y ∷ ys → take n (drop 1 xs) ≡ ys
take-drop_one [] n y ys e = cc
take-drop_one (x ∷ xs) n y ys e = cc

-- Two stores behind the first `k` bytes.
take-set_two :
    (xs : List ℕ) (k a b : ℕ)
    → k + 2 ≤ length xs
    → take (suc (suc k)) (set (set xs k a) (suc k) b) ≡ take k xs ++ (a ∷ b ∷ [])
take-set_two xs k a b h =
    take-set_self (set xs k a) (suc k) b (omega (arith, length-set xs k a))
    ∙ ap (λ ys. ys ++ (b ∷ [])) (take-set_self xs k a (omega arith))
    ∙ append_assoc (take k xs) (a ∷ []) (b ∷ [])

module _ (out payload : List ℕ) (type seq n : ℕ) (len : n ≡ length payload) (small : n < 2 ^ 16)
    (fits : Proto.frame_overhead + n ≤ length out) where
  header_out : List ℕ
  header_out =
      set
        (set (set (set (set out 0 Proto.start_byte) 1 type) 2 (u8 (bit_and n 0xFF))) 3
          (u8 (n >> 8)))
        4 seq

  length-header_out : length header_out ≡ length out
  unfolding header_out
  length-header_out =
      length-set (set (set (set (set out 0 170) 1 type) 2 (u8 (bit_and n 0xFF))) 3 (u8 (n >> 8))) 4
        seq
      ∙ length-set (set (set (set out 0 170) 1 type) 2 (u8 (bit_and n 0xFF))) 3 (u8 (n >> 8))
      ∙ length-set (set (set out 0 170) 1 type) 2 (u8 (bit_and n 0xFF))
      ∙ length-set (set out 0 170) 1 type
      ∙ length-set out 0 170

  filled : List ℕ
  filled = copy_payload header_out payload 0 n

  length-filled : length filled ≡ length out
  unfolding filled
  length-filled = length-copy_payload header_out payload 0 n ∙ length-header_out

  filled_lem : take (5 + n) filled ≡ Proto.start_byte ∷ covered type seq payload
  unfolding filled header_out
  filled_lem =
      take-copy_payload header_out payload 0 n (5 + n) (omega arith)
        (omega (arith, length-header_out)) (omega arith)
      ∙ ap (λ ys. ys ++ take n payload)
          (take-header out Proto.start_byte type (u8 (bit_and n 0xFF)) (u8 (n >> 8)) seq
            (omega arith))
      ∙ ap₂ (λ lo hi. Proto.start_byte ∷ type ∷ lo ∷ hi ∷ seq ∷ take n payload)
          (omega (arith, bit_and_mask 8 n)) (omega arith)
      ∙ ap (λ ys. Proto.start_byte ∷ type ∷ length payload % 256 ∷ length payload / 256 ∷ seq ∷ ys)
          (ap (λ (k : ℕ). take k payload) len ∙ take-length payload)

  crc_lem :
      crc16_ccitt_update crc16_init (take (Proto.header_size - 1 + n) (drop 1 filled))
      ≡ crc_of type seq payload
  crc_lem = ap (crc16_ccitt_update crc16_init) (
      take-drop_one filled (4 + n) Proto.start_byte (covered type seq payload)
        (let e : suc (4 + n) ≡ 5 + n = omega arith in ap (λ (k : ℕ). take k filled) e ∙ filled_lem))

  -- The two stores of the CRC end the frame.
  trailer_lem :
      (c k : ℕ)
      → c ≡ crc_of type seq payload
      → k ≡ Proto.frame_overhead + n
      → take k (set (set filled (5 + n) (u8 (bit_and c 0xFF))) (suc (5 + n)) (u8 (c >> 8)))
        ≡ frame_bytes type seq payload
  trailer_lem c k e f =
      let sz : k ≡ suc (suc (5 + n)) = omega arith in
      let whole = crc_of type seq payload in
      let word = crc16_ccitt_update-lt crc16_init (covered type seq payload) (omega arith) in
      let low : u8 (bit_and c 0xFF) ≡ whole % 256 = omega (arith, bit_and_mask 8 c, e) in
      let high : u8 (c >> 8) ≡ whole / 256 = omega (arith, e, word) in
      ap
        (λ (m : ℕ).
          take m (set (set filled (5 + n) (u8 (bit_and c 0xFF))) (suc (5 + n)) (u8 (c >> 8))))
        sz
      ∙ take-set_two filled (5 + n) (u8 (bit_and c 0xFF)) (u8 (c >> 8))
          (omega (arith, length-filled))
      ∙ ap (λ ys. ys ++ (u8 (bit_and c 0xFF) ∷ u8 (c >> 8) ∷ [])) filled_lem
      ∙ ap₂ (λ lo hi. Proto.start_byte ∷ (covered type seq payload ++ (lo ∷ hi ∷ []))) low high

  -- `build_frame` fills the buffer with exactly the documented frame: START, TYPE, LEN, SEQ, the
  -- payload and the CRC of what lies between, and returns its size. The buffer must hold that
  -- many bytes, and `payload_len` be the payload's length.
  pub build_frame_lem :
      let (frame, size) = build_frame out type seq payload n in
      (size ≡ Proto.frame_overhead + n) × (take size frame ≡ frame_bytes type seq payload)
  unfolding build_frame filled header_out
  build_frame_lem = (
    refl,
    trailer_lem (crc16_ccitt_update crc16_init (take (Proto.header_size - 1 + n) (drop 1 filled)))
        (Proto.frame_overhead + n) crc_lem refl,
  )
