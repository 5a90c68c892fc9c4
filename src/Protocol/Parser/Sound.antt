-- ===== src/Protocol/Parser/Sound.antt =====
-- What the parser accepts: each frame that it delivers stood in its input, well formed and with
-- the CRC of its own bytes, and the frames of one input neither overlap nor change order.
use mathlib.Core.Path.{subst, ap₂}
use mathlib.Core.List.{append_assoc}
use hilglebone.Base.{ℕ, suc, ◌+◌, ◌/◌, ◌%◌, ◌<◌, List, [], ◌∷◌, ◌++◌, ◌≡◌, refl}
use hilglebone.Base.{ap, sym, ◌∙◌, arith, Bool, true, false, ◌⊎◌, inl, inr, bit_or, u16, ◌<<◌, ◌==◌}
use hilglebone.Base.{ltb, leb, if◌then◌else◌, length, take, set, Bool-cases, ==_iff, AllBytes}
use hilglebone.Base.{length-take}
use hilglebone.Protocol.Proto
use hilglebone.Protocol.Crc.{crc16_init, crc16_ccitt_update}
use hilglebone.Protocol.Wire.{frame_bytes, covered, u16_bytes}
use hilglebone.Protocol.Parser.{
  ParserState, Parser, ParsedFrame, feed, feed_in, feed_wait_start, feed_type, feed_len_lo,
  feed_len_hi, feed_seq, feed_payload, feed_crc_lo, feed_crc_hi, feed_all, reset, crc_eat,
}
use hilglebone.Protocol.Parser.Inv.{
  IsGood, IsValid, pending, digest, u16_join, payload_room, payload_written, feed-IsValid,
}

-- The payload that a delivered frame stands for.
abbrev pub payload_of : ParsedFrame → List ℕ
payload_of f = take f.len f.payload

-- The bytes that encode a delivered frame.
abbrev pub bytes_of : ParsedFrame → List ℕ
bytes_of f = frame_bytes f.type f.seq (payload_of f)

-- One byte either completes a frame, whose bytes are those consumed since START, or is appended
-- to the consumed bytes, or makes the parser drop them.
abbrev Outcome : Bool → List ℕ → Parser → Type 0
Outcome true consumed q = (consumed ≡ bytes_of q.frame) × (pending q.state q ≡ [])
Outcome false consumed q = (pending q.state q ≡ consumed) ⊎ (pending q.state q ≡ [])

abbrev Advances : List ℕ → ℕ → Parser × Bool → Type 0
Advances before b r = Outcome r.1 (before ++ (b ∷ [])) r.0

start-Advances :
    (p : Parser) (b : ℕ) → IsGood ParserState.wait_start p → Advances [] b (feed_wait_start p b)
unfolding feed_wait_start
start-Advances p b v = elim (Bool-cases (b == Proto.start_byte)) [
  | inl e ↦ rw e (inl (ap (λ (t : ℕ). t ∷ []) (sym ((==_iff b Proto.start_byte).0 e))))
  | inr e ↦ rw e (inr (subst (λ s. pending s p ≡ []) (sym v.at) refl))
]

len_hi-Advances :
    (p : Parser) (b : ℕ)
    → b < 256
    → IsGood ParserState.read_len_hi p
    → Advances (pending ParserState.read_len_hi p) b (feed_len_hi p b)
unfolding feed_len_hi crc_eat reset
len_hi-Advances p b hb v =
    let e = u16_join p.expected_len b v.ranges hb in
    elim (Bool-cases (ltb Proto.max_payload (u16 (bit_or p.expected_len (b << 8))))) [
      | inl long ↦ rw long (inr refl)
      | inr short ↦ rw short (
          inl (
            ap₂ (λ lo hi. Proto.start_byte ∷ p.frame.type ∷ lo ∷ hi ∷ []) (omega arith)
              (omega arith)))
    ]

seq-Advances :
    (p : Parser) (b : ℕ)
    → IsGood ParserState.read_seq p
    → Advances (pending ParserState.read_seq p) b (feed_seq p b)
unfolding feed_seq crc_eat
seq-Advances p b v = elim (Bool-cases (p.expected_len == 0)) [
  | inl e ↦ rw e (
      inl (
        ap (λ (n : ℕ). pending ParserState.read_seq p ++ (b ∷ take n p.frame.payload))
          ((==_iff p.expected_len 0).0 e)))
  | inr e ↦ rw e (inl refl)
]

payload-Advances :
    (p : Parser) (b : ℕ)
    → IsGood ParserState.read_payload p
    → Advances (pending ParserState.read_payload p) b (feed_payload p b)
unfolding feed_payload crc_eat
payload-Advances p b v = elim (Bool-cases (leb p.expected_len (u16 (p.payload_idx + 1)))) [
  | inl last ↦
      rw ((payload_room p v).0, last) (inl (longer p.expected_len (ground (arith, v.ranges))))
  | inr more ↦
      rw ((payload_room p v).0, more)
        (inl (longer (u16 (p.payload_idx + 1)) ((payload_room p v).1)))
]
  where
    head : List ℕ
    head =
        Proto.start_byte
        ∷ p.frame.type
        ∷ p.expected_len % 256
        ∷ p.expected_len / 256
        ∷ p.frame.seq
        ∷ []

    longer :
        (n : ℕ)
        → n ≡ suc p.payload_idx
        → head ++ take n (set p.frame.payload p.payload_idx b)
          ≡ head ++ (take p.payload_idx p.frame.payload ++ (b ∷ []))
    longer n e =
        ap (λ xs. head ++ xs)
          (ap (λ (k : ℕ). take k (set p.frame.payload p.payload_idx b)) e
            ∙ sym (payload_written p b v))

-- The received CRC is that of the consumed bytes, so they are the encoding of the frame.
crc_hi-Advances :
    (p : Parser) (b : ℕ)
    → b < 256
    → IsGood ParserState.read_crc_hi p
    → Advances (pending ParserState.read_crc_hi p) b (feed_crc_hi p b)
unfolding feed_crc_hi reset
crc_hi-Advances p b hb v = elim (Bool-cases (u16 (bit_or p.crc_recv (b << 8)) == p.crc_running)) [
  | inl match ↦
      rw match (encoded ((==_iff (u16 (bit_or p.crc_recv (b << 8))) p.crc_running).0 match), refl)
  | inr differs ↦ rw differs (inr refl)
]
  where
    body : List ℕ
    body = digest ParserState.read_crc_hi p

    size : length (payload_of p.frame) ≡ p.expected_len
    size =
        length-take p.frame.len p.frame.payload (omega (arith, v.ranges, v.payload_size))
        ∙ v.ranges.1

    whole : covered p.frame.type p.frame.seq (payload_of p.frame) ≡ body
    whole = λ i.
        p.frame.type
        ∷ size i % 256
        ∷ size i / 256
        ∷ p.frame.seq
        ∷ take (v.ranges.1 i) p.frame.payload

    trailer :
        u16 (bit_or p.crc_recv (b << 8)) ≡ p.crc_running
        → p.crc_recv ∷ b ∷ [] ≡ u16_bytes (crc16_ccitt_update crc16_init body)
    trailer e =
        let joined = u16_join p.crc_recv b v.ranges.2 hb in
        ap₂ (λ lo hi. lo ∷ hi ∷ []) (omega (arith, e, joined, v.tracks, v.ranges.2))
          (omega (arith, e, joined, v.tracks, v.ranges.2))

    encoded :
        u16 (bit_or p.crc_recv (b << 8)) ≡ p.crc_running
        → pending ParserState.read_crc_hi p ++ (b ∷ []) ≡ bytes_of p.frame
    encoded e =
        ap (λ xs. Proto.start_byte ∷ xs)
          (append_assoc body (p.crc_recv ∷ []) (b ∷ []) ∙ ap (λ xs. body ++ xs) (trailer e))
        ∙ sym (
            ap (λ xs. Proto.start_byte ∷ (xs ++ u16_bytes (crc16_ccitt_update crc16_init xs)))
              whole)

feed_in-Advances :
    (s : ParserState) (p : Parser) (b : ℕ)
    → b < 256
    → IsGood s p
    → Advances (pending s p) b (feed_in s p b)
unfolding feed_in feed_type feed_len_lo feed_crc_lo crc_eat
feed_in-Advances ParserState.wait_start p b hb v = start-Advances p b v
feed_in-Advances ParserState.read_type p b hb v = inl refl
feed_in-Advances ParserState.read_len_lo p b hb v = inl refl
feed_in-Advances ParserState.read_len_hi p b hb v = len_hi-Advances p b hb v
feed_in-Advances ParserState.read_seq p b hb v = seq-Advances p b v
feed_in-Advances ParserState.read_payload p b hb v = payload-Advances p b v
feed_in-Advances ParserState.read_crc_lo p b hb v = inl refl
feed_in-Advances ParserState.read_crc_hi p b hb v = crc_hi-Advances p b hb v

feed-Advances :
    (p : Parser) (b : ℕ) → b < 256 → IsValid p → Advances (pending p.state p) b (feed p b)
unfolding feed
feed-Advances p b hb v = feed_in-Advances p.state p b hb v

-- `input` is the encodings of `frames` in their order, each behind bytes that are skipped, and a
-- rest.
pub data Carries : List ℕ → List ParsedFrame → Type 0 where
  rest : (input : List ℕ) → Carries input []
  next :
      (skipped tail : List ℕ) (f : ParsedFrame) {input : List ℕ} {frames : List ParsedFrame}
      → input ≡ skipped ++ (bytes_of f ++ tail)
      → Carries tail frames
      → Carries input (f ∷ frames)

Carries-skip :
    (junk : List ℕ) {input : List ℕ} {frames : List ParsedFrame}
    → Carries input frames
    → Carries (junk ++ input) frames
Carries-skip junk (rest input) = rest (junk ++ input)
Carries-skip junk (next skipped tail f e c) =
    next (junk ++ skipped) tail f
      (ap (λ xs. junk ++ xs) e ∙ sym (append_assoc junk skipped (bytes_of f ++ tail))) c

module _ (before bs : List ℕ) (b : ℕ) (frames : List ParsedFrame) where
  Carries-step :
      (done : Bool) (q : Parser)
      → Outcome done (before ++ (b ∷ [])) q
      → Carries (pending q.state q ++ bs) frames
      → Carries (before ++ (b ∷ bs)) (if done then q.frame ∷ frames else frames)
  Carries-step true q (e, clear) c =
      next [] bs q.frame (sym (append_assoc before (b ∷ []) bs) ∙ ap (λ xs. xs ++ bs) e)
        (subst (λ xs. Carries (xs ++ bs) frames) clear c)
  Carries-step false q (inl e) c =
      subst (λ xs. Carries xs frames) (ap (λ xs. xs ++ bs) e ∙ append_assoc before (b ∷ []) bs) c
  Carries-step false q (inr clear) c =
      subst (λ xs. Carries xs frames) (append_assoc before (b ∷ []) bs)
        (Carries-skip (before ++ (b ∷ [])) (subst (λ xs. Carries (xs ++ bs) frames) clear c))

-- Whatever bytes arrive, the frames that the parser delivers stand in the input one behind the
-- other, in the order of delivery, each encoded with its own CRC; the bytes already consumed
-- count as input.
pub feed_all-Carries :
    (p : Parser) (bs : List ℕ)
    → AllBytes bs
    → IsValid p
    → Carries (pending p.state p ++ bs) (feed_all p bs).1
unfolding feed_all
feed_all-Carries p [] h v = rest (pending p.state p ++ [])
feed_all-Carries p (b ∷ bs) h v =
    Carries-step (pending p.state p) bs b (feed_all (feed p b).0 bs).1 (feed p b).1 (feed p b).0
      (feed-Advances p b h.0 v) (feed_all-Carries (feed p b).0 bs h.1 (feed-IsValid p b h.0 v))
