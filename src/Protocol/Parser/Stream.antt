-- ===== src/Protocol/Parser/Stream.antt =====
-- A stream of frames with noise between them comes out of the parser as its messages.
use mathlib.Core.Path.{ap₂}
use mathlib.Core.List.{append-nil}
use hilglebone.Base.{ℕ, ◌≤◌, List, [], ◌∷◌, ◌++◌, ◌≡◌, refl}
use hilglebone.Base.{ap, ◌∙◌, ◌≢◌}
use hilglebone.Base.{length}
use hilglebone.Base.{ne→==}
use hilglebone.Protocol.Proto
use hilglebone.Protocol.Crc.{crc16_init}
use hilglebone.Protocol.Wire.{frame_bytes}
use hilglebone.Protocol.Parser.{ParserState, Parser, ParsedFrame, feed, feed_all}
use hilglebone.Protocol.Parser.Sound.{payload_of}
use hilglebone.Protocol.Parser.Complete.{
  idle, delivered, frame_lem, payload_of-delivered, length-delivered, delivered_header,
}

-- Bytes between frames: none of them is START.
abbrev pub AllNoise : List ℕ → Type 0
AllNoise [] = Unit {0}
AllNoise (x ∷ xs) = (x ≢ Proto.start_byte) × AllNoise xs

noise_lem :
    (i e c r : ℕ) (f : ParsedFrame) (xs more : List ℕ)
    → AllNoise xs
    → feed_all (idle i e c r f) (xs ++ more) ≡ feed_all (idle i e c r f) more
unfolding feed_all feed
noise_lem i e c r f [] more h = refl
noise_lem i e c r f (x ∷ xs) more h =
    rw (ne→== x Proto.start_byte h.0) (noise_lem i e c r f xs more h.1)

-- A message, and the messages of delivered frames.
pub record Message : Type 0 where
  pub type : ℕ
  pub seq : ℕ
  pub payload : List ℕ

abbrev pub message_of : ParsedFrame → Message
message_of f = record { type = f.type; seq = f.seq; payload = payload_of f }

abbrev pub messages_of : List ParsedFrame → List Message
messages_of [] = []
messages_of (f ∷ fs) = message_of f ∷ messages_of fs

-- A stream: noise, a message, noise, a message, …; the payloads fit a frame.
abbrev pub IsStream : List (List ℕ × Message) → Type 0
IsStream [] = Unit {0}
IsStream ((noise, m) ∷ rest) =
    AllNoise noise × (length m.payload ≤ Proto.max_payload) × IsStream rest

abbrev pub sent : List (List ℕ × Message) → List Message
sent [] = []
sent ((noise, m) ∷ rest) = m ∷ sent rest

-- The bytes of a stream, with noise behind the last frame.
abbrev pub stream_bytes : List (List ℕ × Message) → List ℕ → List ℕ
stream_bytes [] tail = tail
stream_bytes ((noise, m) ∷ rest) tail =
    noise ++ (frame_bytes m.type m.seq m.payload ++ stream_bytes rest tail)

message_of-delivered :
    (f : ParsedFrame) (m : Message)
    → length m.payload ≤ length f.payload
    → message_of (delivered f m.type m.seq m.payload) ≡ m
message_of-delivered f m h = λ i. record {
  type = (delivered_header f m.type m.seq m.payload).0 i;
  seq = (delivered_header f m.type m.seq m.payload).1 i;
  payload = payload_of-delivered f m.type m.seq m.payload h i;
}

idle_stream :
    (i e c r : ℕ) (f : ParsedFrame) (segments : List (List ℕ × Message)) (tail : List ℕ)
    → length f.payload ≡ Proto.max_payload
    → IsStream segments
    → AllNoise tail
    → messages_of (feed_all (idle i e c r f) (stream_bytes segments tail)).1 ≡ sent segments
idle_stream i e c r f [] tail h s t =
    rw (← append-nil tail) (rw (noise_lem i e c r f tail [] t) (unfold feed_all in refl))
idle_stream i e c r f ((noise, m) ∷ rest) tail h s t =
    rw
      (noise_lem i e c r f noise (frame_bytes m.type m.seq m.payload ++ stream_bytes rest tail) s.0)
      (rw (frame_lem i e c r f m.type m.seq m.payload (stream_bytes rest tail) s.1) (
        ap₂ ◌∷◌ (message_of-delivered f m (rw h s.1)) (
          idle_stream 0 0 crc16_init 0 (delivered f m.type m.seq m.payload) rest tail
            (length-delivered f m.type m.seq m.payload ∙ h) s.2 t)))

-- From any parser between two frames, a stream of well-formed frames with noise between them
-- gives exactly its messages, in order and unchanged.
pub feed_all-stream :
    (p : Parser) (segments : List (List ℕ × Message)) (tail : List ℕ)
    → p.state ≡ ParserState.wait_start
    → length p.frame.payload ≡ Proto.max_payload
    → IsStream segments
    → AllNoise tail
    → messages_of (feed_all p (stream_bytes segments tail)).1 ≡ sent segments
feed_all-stream p segments tail w h s t =
    ap (λ st. messages_of (feed_all (record p { state = st }) (stream_bytes segments tail)).1) w
    ∙ idle_stream p.payload_idx p.expected_len p.crc_running p.crc_recv p.frame segments tail h s t
