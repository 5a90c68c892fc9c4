-- ===== src/Protocol/Parser/Complete.antt =====
-- What the parser does not miss: a well-formed frame behind noise without START bytes is delivered
-- whole, and the parser is then ready for the next one.
use mathlib.Core.List.{append-nil, append_assoc}
use hilglebone.Base.{ℕ, suc, ◌+◌, ◌/◌, ◌%◌, ◌^◌, ◌≤◌, ◌<◌, List, [], ◌∷◌, ◌++◌, ◌≡◌, refl}
use hilglebone.Base.{ap, sym, ◌∙◌, arith, true, false, bit_or, u16, ◌<<◌}
use hilglebone.Base.{◌==◌, ltb, leb, if◌then◌else◌, length, take, set}
use hilglebone.Base.{take-set_self, length-set, ne→==}
use hilglebone.Protocol.Proto
use hilglebone.Protocol.Crc.{crc16_init, crc16_ccitt_update}
use hilglebone.Protocol.Crc.Laws.{crc16_ccitt_update-append, crc16_ccitt_update-lt}
use hilglebone.Protocol.Wire.{frame_bytes, crc_of, u16_bytes}
use hilglebone.Protocol.Parser.{ParserState, Parser, ParsedFrame, feed, feed_all, reset}
use hilglebone.Protocol.Parser.Inv.{u16_join}
use hilglebone.Protocol.Parser.Sound.{payload_of}

-- The parser between two frames, with what earlier frames left in its other fields.
abbrev pub idle : ℕ → ℕ → ℕ → ℕ → ParsedFrame → Parser
idle i e c r f = record {
  state = ParserState.wait_start;
  payload_idx = i;
  expected_len = e;
  crc_running = c;
  crc_recv = r;
  frame = f;
}

abbrev in_payload : ℕ → ℕ → ℕ → ℕ → ParsedFrame → Parser
in_payload i e c r f = record (idle i e c r f) { state = ParserState.read_payload }

abbrev at_crc : ℕ → ℕ → ℕ → ℕ → ParsedFrame → Parser
at_crc i e c r f = record (idle i e c r f) { state = ParserState.read_crc_lo }

-- The payload array after the loop has stored `xs` from index `i` on.
store : List ℕ → ℕ → List ℕ → List ℕ
store buf i [] = buf
store buf i (x ∷ xs) = store (set buf i x) (suc i) xs

length-store : (buf : List ℕ) (i : ℕ) (xs : List ℕ) → length (store buf i xs) ≡ length buf
unfolding store
length-store buf i [] = refl
length-store buf i (x ∷ xs) = length-store (set buf i x) (suc i) xs ∙ length-set buf i x

take-store :
    (buf : List ℕ) (i n : ℕ) (xs : List ℕ)
    → n ≡ i + length xs
    → n ≤ length buf
    → take n (store buf i xs) ≡ take i buf ++ xs
unfolding store
take-store buf i n [] e h = let e' : n ≡ i = omega arith in rw e' (sym (append-nil (take i buf)))
take-store buf i n (x ∷ xs) e h =
    take-store (set buf i x) (suc i) n xs (omega arith) (rw length-set h)
    ∙ ap (λ ys. ys ++ xs) (take-set_self buf i x (omega arith))
    ∙ append_assoc (take i buf) (x ∷ []) xs

-- The four header bytes behind START, for a length that the parser accepts.
header_lem :
    (i e c r : ℕ) (f : ParsedFrame) (type seq n : ℕ) (more : List ℕ)
    → n ≤ Proto.max_payload
    → feed_all (idle i e c r f) (Proto.start_byte ∷ type ∷ n % 256 ∷ n / 256 ∷ seq ∷ more)
      ≡ feed_all
          (record {
            state = if n == 0 then ParserState.read_crc_lo else ParserState.read_payload;
            payload_idx = 0;
            expected_len = n;
            crc_running = crc16_ccitt_update crc16_init (type ∷ n % 256 ∷ n / 256 ∷ seq ∷ []);
            crc_recv = r;
            frame = record { type = type; len = n; seq = seq; payload = f.payload };
          })
          more
unfolding feed_all feed crc16_ccitt_update
header_lem i e c r f type seq n more h = rw (len, short) refl
  where
    len : u16 (bit_or (n % 256) ((n / 256) << 8)) ≡ n
    len = u16_join (n % 256) (n / 256) (omega arith) (omega arith) ∙ omega arith

    short : ltb Proto.max_payload n ≡ false
    short = ground arith

-- The payload bytes that are left are stored, and the last one ends the payload.
payload_lem :
    (i e c r : ℕ) (f : ParsedFrame) (x : ℕ) (xs more : List ℕ)
    → e ≡ i + length (x ∷ xs)
    → e ≤ Proto.max_payload
    → feed_all (in_payload i e c r f) ((x ∷ xs) ++ more)
      ≡ feed_all
          (at_crc e e
            (crc16_ccitt_update c (x ∷ xs))
            r
            (record f { payload = store f.payload i (x ∷ xs) }))
          more
unfolding feed_all feed crc16_ccitt_update store
payload_lem i e c r f x [] more h m = rw (room, step, last) refl
  where
    room : leb Proto.max_payload i ≡ false
    room = ground arith

    step : u16 (i + 1) ≡ e
    step = omega arith

    last : leb e e ≡ true
    last = ground arith
payload_lem i e c r f x (y ∷ ys) more h m =
    rw (room, step, going)
      (payload_lem (suc i) e (crc16_ccitt_update c (x ∷ [])) r
        (record f { payload = set f.payload i x }) y ys more (omega arith) m)
  where
    room : leb Proto.max_payload i ≡ false
    room = ground arith

    step : u16 (i + 1) ≡ suc i
    step = omega arith

    going : leb e (suc i) ≡ false
    going = ground arith

-- The two CRC bytes.
crc_lem :
    (i e c r : ℕ) (f : ParsedFrame) (more : List ℕ)
    → c < 2 ^ 16
    → feed_all (at_crc i e c r f) (u16_bytes c ++ more)
      ≡ (let (q, frames) = feed_all (idle 0 0 crc16_init 0 f) more in (q, f ∷ frames))
unfolding feed_all feed reset
crc_lem i e c r f more h = rw (joined, same) refl
  where
    joined : u16 (bit_or (c % 256) ((c / 256) << 8)) ≡ c
    joined = u16_join (c % 256) (c / 256) (omega arith) (omega arith) ∙ omega arith

    same : (c == c) ≡ true
    same = ground arith

-- The frame that the parser delivers for an encoded message.
pub delivered : ParsedFrame → ℕ → ℕ → List ℕ → ParsedFrame
delivered f type seq payload = record {
  type = type;
  len = length payload;
  seq = seq;
  payload = store f.payload 0 payload;
}

body_lem :
    (f : ParsedFrame) (type seq r c : ℕ) (payload more : List ℕ)
    → length payload ≤ Proto.max_payload
    → c < 2 ^ 16
    → feed_all
        (record {
          state = if length payload == 0 then ParserState.read_crc_lo else ParserState.read_payload;
          payload_idx = 0;
          expected_len = length payload;
          crc_running = c;
          crc_recv = r;
          frame = record { type = type; len = length payload; seq = seq; payload = f.payload };
        })
        (payload ++ (u16_bytes (crc16_ccitt_update c payload) ++ more))
      ≡ (let (q, frames) = feed_all (idle 0 0 crc16_init 0 (delivered f type seq payload)) more in
          (q, delivered f type seq payload ∷ frames))
unfolding delivered
body_lem f type seq r c [] more h hc =
    unfold crc16_ccitt_update store in
    crc_lem 0 0 c r (record { type = type; len = 0; seq = seq; payload = f.payload }) more hc
body_lem f type seq r c (x ∷ xs) more h hc = rw (ne→== (length (x ∷ xs)) 0 (omega arith)) (
    payload_lem 0 (length (x ∷ xs)) c r g x xs (u16_bytes (crc16_ccitt_update c (x ∷ xs)) ++ more)
      (omega arith) h
    ∙ crc_lem (length (x ∷ xs)) (length (x ∷ xs)) (crc16_ccitt_update c (x ∷ xs)) r
        (record g { payload = store f.payload 0 (x ∷ xs) }) more
        (crc16_ccitt_update-lt c (x ∷ xs) hc))
  where
    g : ParsedFrame
    g = record { type = type; len = length (x ∷ xs); seq = seq; payload = f.payload }

-- A whole frame, from an idle parser.
pub frame_lem :
    (i e c r : ℕ) (f : ParsedFrame) (type seq : ℕ) (payload more : List ℕ)
    → length payload ≤ Proto.max_payload
    → feed_all (idle i e c r f) (frame_bytes type seq payload ++ more) ≡ (
        let (q, frames) = feed_all (idle 0 0 crc16_init 0 (delivered f type seq payload)) more in
        (q, delivered f type seq payload ∷ frames))
frame_lem i e c r f type seq payload more h =
    ap
      (λ xs.
        feed_all (idle i e c r f)
          (Proto.start_byte ∷ type ∷ length payload % 256 ∷ length payload / 256 ∷ seq ∷ xs))
      (append_assoc payload (u16_bytes (crc_of type seq payload)) more)
    ∙ header_lem i e c r f type seq (length payload)
        (payload ++ (u16_bytes (crc_of type seq payload) ++ more)) h
    ∙ ap (λ xs. feed_all start (payload ++ (u16_bytes xs ++ more)))
        (crc16_ccitt_update-append crc16_init header payload)
    ∙ body_lem f type seq r (crc16_ccitt_update crc16_init header) payload more h
        (crc16_ccitt_update-lt crc16_init header (omega arith))
  where
    header : List ℕ
    header = type ∷ length payload % 256 ∷ length payload / 256 ∷ seq ∷ []

    start : Parser
    start = record {
      state = if length payload == 0 then ParserState.read_crc_lo else ParserState.read_payload;
      payload_idx = 0;
      expected_len = length payload;
      crc_running = crc16_ccitt_update crc16_init header;
      crc_recv = r;
      frame = record { type = type; len = length payload; seq = seq; payload = f.payload };
    }

-- The delivered frame carries the message's payload.
pub payload_of-delivered :
    (f : ParsedFrame) (type seq : ℕ) (payload : List ℕ)
    → length payload ≤ length f.payload
    → payload_of (delivered f type seq payload) ≡ payload
unfolding delivered
payload_of-delivered f type seq payload h =
    take-store f.payload 0 (length payload) payload (omega arith) h

pub length-delivered :
    (f : ParsedFrame) (type seq : ℕ) (payload : List ℕ)
    → length (delivered f type seq payload).payload ≡ length f.payload
unfolding delivered
length-delivered f type seq payload = length-store f.payload 0 payload

pub delivered_header :
    (f : ParsedFrame) (type seq : ℕ) (payload : List ℕ)
    → ((delivered f type seq payload).type ≡ type) × ((delivered f type seq payload).seq ≡ seq)
unfolding delivered
delivered_header f type seq payload = (refl, refl)
