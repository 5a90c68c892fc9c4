-- ===== src/Protocol/Parser/Inv.antt =====
-- What holds of the parser between two bytes: which bytes of the current frame it has consumed,
-- the ranges of its counters, and that the running CRC is that of the consumed bytes.
use hilglebone.Base.{ℕ, suc, ◌+◌, ◌*◌, ◌/◌, ◌%◌, ◌≤◌, ◌<◌, List, [], ◌∷◌, ◌++◌, ◌≡◌, refl}
use hilglebone.Base.{ap, sym, ◌∙◌, arith, false, inl, inr, bit_or, u16, ◌<<◌, ◌==◌}
use hilglebone.Base.{ltb, leb, length, take, set, length-set, take-set_self, Bool-cases, ==_iff}
use mathlib.Core.Path.{subst, ap₂}
use hilglebone.Base.Bits.{bit_or_disjoint}
use hilglebone.Protocol.Proto
use hilglebone.Protocol.Crc.{crc16_init, crc16_ccitt_update}
use hilglebone.Protocol.Crc.Laws.{crc16_ccitt_update-append}
use hilglebone.Protocol.Parser.{
  ParserState, Parser, feed, feed_in, feed_wait_start, feed_type, feed_len_lo, feed_len_hi,
  feed_seq, feed_payload, feed_crc_lo, feed_crc_hi, reset, crc_eat,
}

-- The bytes of the current frame that went into the CRC.
abbrev pub digest : ParserState → Parser → List ℕ
digest ParserState.wait_start p = []
digest ParserState.read_type p = []
digest ParserState.read_len_lo p = p.frame.type ∷ []
digest ParserState.read_len_hi p = p.frame.type ∷ p.expected_len ∷ []
digest ParserState.read_seq p = p.frame.type ∷ p.expected_len % 256 ∷ p.expected_len / 256 ∷ []
digest ParserState.read_payload p =
    p.frame.type
    ∷ p.expected_len % 256
    ∷ p.expected_len / 256
    ∷ p.frame.seq
    ∷ take p.payload_idx p.frame.payload
digest ParserState.read_crc_lo p =
    p.frame.type
    ∷ p.expected_len % 256
    ∷ p.expected_len / 256
    ∷ p.frame.seq
    ∷ take p.expected_len p.frame.payload
digest ParserState.read_crc_hi p =
    p.frame.type
    ∷ p.expected_len % 256
    ∷ p.expected_len / 256
    ∷ p.frame.seq
    ∷ take p.expected_len p.frame.payload

-- All bytes of the current frame that the parser has consumed.
abbrev pub pending : ParserState → Parser → List ℕ
pending ParserState.wait_start p = []
pending ParserState.read_crc_hi p =
    Proto.start_byte ∷ (digest ParserState.read_crc_hi p ++ (p.crc_recv ∷ []))
pending s p = Proto.start_byte ∷ digest s p

abbrev pub Ranges : ParserState → Parser → Type 0
Ranges ParserState.wait_start p = Unit {0}
Ranges ParserState.read_type p = Unit {0}
Ranges ParserState.read_len_lo p = Unit {0}
Ranges ParserState.read_len_hi p = p.expected_len < 256
Ranges ParserState.read_seq p =
    (p.expected_len ≤ Proto.max_payload) × (p.frame.len ≡ p.expected_len)
Ranges ParserState.read_payload p =
    (p.expected_len ≤ Proto.max_payload)
    × (p.frame.len ≡ p.expected_len)
    × (p.payload_idx < p.expected_len)
Ranges ParserState.read_crc_lo p =
    (p.expected_len ≤ Proto.max_payload) × (p.frame.len ≡ p.expected_len)
Ranges ParserState.read_crc_hi p =
    (p.expected_len ≤ Proto.max_payload) × (p.frame.len ≡ p.expected_len) × (p.crc_recv < 256)

abbrev pub CrcTracks : ParserState → Parser → Type 0
CrcTracks ParserState.wait_start p = Unit {0}
CrcTracks s p = p.crc_running ≡ crc16_ccitt_update crc16_init (digest s p)

-- The invariant, at the state `s` of the parser.
pub record IsGood (s : ParserState) (p : Parser) : Type 0 where
  pub at : p.state ≡ s
  pub payload_size : length p.frame.payload ≡ Proto.max_payload
  pub ranges : Ranges s p
  pub tracks : CrcTracks s p

abbrev pub IsValid : Parser → Type 0
IsValid p = IsGood p.state p

-- The running CRC after one more byte is the CRC of the longer data.
absorb :
    (c b : ℕ) (xs : List ℕ) {ys : List ℕ}
    → c ≡ crc16_ccitt_update crc16_init xs
    → xs ++ (b ∷ []) ≡ ys
    → crc16_ccitt_update c (b ∷ []) ≡ crc16_ccitt_update crc16_init ys
absorb c b xs e f =
    rw e (sym (crc16_ccitt_update-append crc16_init xs (b ∷ [])))
    ∙ ap (λ zs. crc16_ccitt_update crc16_init zs) f

start-IsValid :
    (p : Parser) (b : ℕ) → IsGood ParserState.wait_start p → IsValid (feed_wait_start p b).0
unfolding feed_wait_start crc16_ccitt_update
start-IsValid p b v = elim (Bool-cases (b == Proto.start_byte)) [
  | inl e ↦ rw e (record { at = refl; payload_size = v.payload_size; ranges = tt; tracks = refl })
  | inr e ↦ rw e (subst (λ s. IsGood s p) (sym v.at) v)
]

type-IsValid : (p : Parser) (b : ℕ) → IsGood ParserState.read_type p → IsValid (feed_type p b).0
unfolding feed_type crc_eat
type-IsValid p b v = record {
  at = refl;
  payload_size = v.payload_size;
  ranges = tt;
  tracks = absorb p.crc_running b [] v.tracks refl;
}

len_lo-IsValid :
    (p : Parser) (b : ℕ) → b < 256 → IsGood ParserState.read_len_lo p → IsValid (feed_len_lo p b).0
unfolding feed_len_lo crc_eat
len_lo-IsValid p b hb v = record {
  at = refl;
  payload_size = v.payload_size;
  ranges = hb;
  tracks = absorb p.crc_running b (p.frame.type ∷ []) v.tracks refl;
}

-- `lo | (hi << 8)` of two bytes.
pub u16_join : (lo hi : ℕ) → lo < 256 → hi < 256 → u16 (bit_or lo (hi << 8)) ≡ hi * 256 + lo
u16_join lo hi p q = omega (arith, bit_or_disjoint 8 lo hi p)

pub reset-IsValid : (p : Parser) → length p.frame.payload ≡ Proto.max_payload → IsValid (reset p)
unfolding reset
reset-IsValid p h = record { at = refl; payload_size = h; ranges = tt; tracks = tt }

len_hi-IsValid :
    (p : Parser) (b : ℕ) → b < 256 → IsGood ParserState.read_len_hi p → IsValid (feed_len_hi p b).0
unfolding feed_len_hi crc_eat
len_hi-IsValid p b hb v =
    let e = u16_join p.expected_len b v.ranges hb in
    elim (Bool-cases (ltb Proto.max_payload (u16 (bit_or p.expected_len (b << 8))))) [
      | inl long ↦ rw long (reset-IsValid _ v.payload_size)
      | inr short ↦ rw short (record {
        at = refl;
        payload_size = v.payload_size;
        ranges = (ground arith, refl);
        tracks =
            absorb p.crc_running b (p.frame.type ∷ p.expected_len ∷ []) v.tracks
              (ap₂ (λ lo hi. p.frame.type ∷ lo ∷ hi ∷ []) (omega arith) (omega arith));
      })
    ]

seq-IsValid : (p : Parser) (b : ℕ) → IsGood ParserState.read_seq p → IsValid (feed_seq p b).0
unfolding feed_seq crc_eat
seq-IsValid p b v = elim (Bool-cases (p.expected_len == 0)) [
  | inl e ↦ rw e (record {
    at = refl;
    payload_size = v.payload_size;
    ranges = v.ranges;
    tracks = absorb p.crc_running b len_bytes v.tracks (
        ap (λ (n : ℕ). len_bytes ++ (b ∷ take n p.frame.payload))
          (sym ((==_iff p.expected_len 0).0 e)));
  })
  | inr e ↦ rw e (record {
    at = refl;
    payload_size = v.payload_size;
    ranges = ground arith;
    tracks = absorb p.crc_running b len_bytes v.tracks refl;
  })
]
  where
    len_bytes : List ℕ
    len_bytes = p.frame.type ∷ p.expected_len % 256 ∷ p.expected_len / 256 ∷ []

-- The byte is written inside the payload array, and right behind the bytes written before.
pub payload_written :
    (p : Parser) (b : ℕ)
    → IsGood ParserState.read_payload p
    → take p.payload_idx p.frame.payload ++ (b ∷ [])
      ≡ take (suc p.payload_idx) (set p.frame.payload p.payload_idx b)
payload_written p b v =
    sym (take-set_self p.frame.payload p.payload_idx b (omega (arith, v.payload_size, v.ranges)))

payload_tracks :
    (p : Parser) (b n : ℕ)
    → IsGood ParserState.read_payload p
    → n ≡ suc p.payload_idx
    → crc16_ccitt_update p.crc_running (b ∷ [])
      ≡ crc16_ccitt_update crc16_init (
          p.frame.type
          ∷ p.expected_len % 256
          ∷ p.expected_len / 256
          ∷ p.frame.seq
          ∷ take n (set p.frame.payload p.payload_idx b))
payload_tracks p b n v e = absorb p.crc_running b (digest ParserState.read_payload p) v.tracks (
    ap (λ xs. head ++ xs)
      (payload_written p b v
        ∙ ap (λ (k : ℕ). take k (set p.frame.payload p.payload_idx b)) (sym e)))
  where
    head : List ℕ
    head = p.frame.type ∷ p.expected_len % 256 ∷ p.expected_len / 256 ∷ p.frame.seq ∷ []

-- The counter does not wrap, and the guard on it never fires.
pub payload_room :
    (p : Parser)
    → IsGood ParserState.read_payload p
    → (leb Proto.max_payload p.payload_idx ≡ false) × (u16 (p.payload_idx + 1) ≡ suc p.payload_idx)
payload_room p v = (ground (arith, v.ranges), omega (arith, v.ranges))

payload-IsValid :
    (p : Parser) (b : ℕ) → IsGood ParserState.read_payload p → IsValid (feed_payload p b).0
unfolding feed_payload crc_eat
payload-IsValid p b v = elim (Bool-cases (leb p.expected_len (u16 (p.payload_idx + 1)))) [
  | inl last ↦
      rw ((payload_room p v).0, last)
        (record {
          at = refl;
          payload_size = length-set p.frame.payload p.payload_idx b ∙ v.payload_size;
          ranges = (v.ranges.0, v.ranges.1);
          tracks = payload_tracks p b p.expected_len v (ground (arith, v.ranges));
        })
  | inr more ↦
      rw ((payload_room p v).0, more)
        (record {
          at = refl;
          payload_size = length-set p.frame.payload p.payload_idx b ∙ v.payload_size;
          ranges = (v.ranges.0, v.ranges.1, ground arith);
          tracks = payload_tracks p b (u16 (p.payload_idx + 1)) v ((payload_room p v).1);
        })
]

crc_lo-IsValid :
    (p : Parser) (b : ℕ) → b < 256 → IsGood ParserState.read_crc_lo p → IsValid (feed_crc_lo p b).0
unfolding feed_crc_lo
crc_lo-IsValid p b hb v = record {
  at = refl;
  payload_size = v.payload_size;
  ranges = (v.ranges.0, v.ranges.1, hb);
  tracks = v.tracks;
}

crc_hi-IsValid :
    (p : Parser) (b : ℕ) → IsGood ParserState.read_crc_hi p → IsValid (feed_crc_hi p b).0
unfolding feed_crc_hi
crc_hi-IsValid p b v = reset-IsValid _ v.payload_size

feed_in-IsValid :
    (s : ParserState) (p : Parser) (b : ℕ) → b < 256 → IsGood s p → IsValid (feed_in s p b).0
unfolding feed_in
feed_in-IsValid ParserState.wait_start p b hb v = start-IsValid p b v
feed_in-IsValid ParserState.read_type p b hb v = type-IsValid p b v
feed_in-IsValid ParserState.read_len_lo p b hb v = len_lo-IsValid p b hb v
feed_in-IsValid ParserState.read_len_hi p b hb v = len_hi-IsValid p b hb v
feed_in-IsValid ParserState.read_seq p b hb v = seq-IsValid p b v
feed_in-IsValid ParserState.read_payload p b hb v = payload-IsValid p b v
feed_in-IsValid ParserState.read_crc_lo p b hb v = crc_lo-IsValid p b hb v
feed_in-IsValid ParserState.read_crc_hi p b hb v = crc_hi-IsValid p b v

-- `protocol_parser_feed` keeps the invariant, whatever byte arrives.
pub feed-IsValid : (p : Parser) (b : ℕ) → b < 256 → IsValid p → IsValid (feed p b).0
unfolding feed
feed-IsValid p b hb v = feed_in-IsValid p.state p b hb v
