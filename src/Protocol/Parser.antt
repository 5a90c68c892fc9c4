-- ===== src/Protocol/Parser.antt =====
-- stm32/project/protocol/src/protocol_parser.c: the byte-at-a-time frame parser, and the loop of
-- `task_protocol` (stm32/project/app/src/app_init.c) that feeds it.
pub mod Inv
pub mod Sound
pub mod Complete
pub mod Stream
use hilglebone.Base.{ℕ, ◌+◌, ◌*◌, ◌%◌, ◌^◌, List, [], ◌∷◌, Bool, true, false, bit_or, u16, ◌<<◌}
use hilglebone.Base.{ltb, leb, ◌==◌, if◌then◌else◌, set, replicate}
use hilglebone.Protocol.Proto
use hilglebone.Protocol.Crc.{crc16_init, crc16_ccitt_update}

-- `protocol_parser_state_t`
pub data ParserState : Type 0 where
  wait_start read_type read_len_lo read_len_hi read_seq : ParserState
  read_payload read_crc_lo read_crc_hi : ParserState

-- `parsed_frame_t`; the payload array has 256 bytes, of which `len` belong to the frame.
pub record ParsedFrame : Type 0 where
  pub type : ℕ
  pub len : ℕ
  pub seq : ℕ
  pub payload : List ℕ

-- `protocol_parser_t`
pub record Parser : Type 0 where
  pub state : ParserState
  pub payload_idx : ℕ
  pub expected_len : ℕ
  pub crc_running : ℕ
  pub crc_recv : ℕ
  pub frame : ParsedFrame

-- The parser of `task_protocol`: `static`, so all zero.
abbrev pub zeroed : Parser
zeroed = record {
  state = ParserState.wait_start;
  payload_idx = 0;
  expected_len = 0;
  crc_running = 0;
  crc_recv = 0;
  frame = record { type = 0; len = 0; seq = 0; payload = replicate Proto.max_payload 0 };
}

crc_eat : Parser → ℕ → Parser
crc_eat p b = record p { crc_running = crc16_ccitt_update p.crc_running (b ∷ []) }

unfoldable pub reset : Parser → Parser
reset p = record p {
  state = ParserState.wait_start;
  payload_idx = 0;
  expected_len = 0;
  crc_running = crc16_init;
  crc_recv = 0;
}

-- The cases of the switch of `protocol_parser_feed`.
feed_wait_start : Parser → ℕ → Parser × Bool
feed_wait_start p byte =
    if byte == Proto.start_byte
    then (record p { crc_running = crc16_init; state = ParserState.read_type }, false)
    else (p, false)

feed_type : Parser → ℕ → Parser × Bool
feed_type p byte =
    let p' = crc_eat (record p { frame = record (p.frame) { type = byte } }) byte in
    (record p' { state = ParserState.read_len_lo }, false)

feed_len_lo : Parser → ℕ → Parser × Bool
feed_len_lo p byte =
    let p' = crc_eat (record p { expected_len = byte }) byte in
    (record p' { state = ParserState.read_len_hi }, false)

feed_len_hi : Parser → ℕ → Parser × Bool
feed_len_hi p byte =
    let p' = crc_eat (record p { expected_len = u16 (bit_or p.expected_len (byte << 8)) }) byte in
    if ltb Proto.max_payload p'.expected_len then (reset p', false) else (
      record p' {
        frame = record (p'.frame) { len = p'.expected_len };
        state = ParserState.read_seq;
      },
      false,
    )

feed_seq : Parser → ℕ → Parser × Bool
feed_seq p byte =
    let p' = crc_eat (record p { frame = record (p.frame) { seq = byte } }) byte in
    (
      record p' {
        payload_idx = 0;
        state = if p'.expected_len == 0 then ParserState.read_crc_lo else ParserState.read_payload;
      },
      false,
    )

-- The write comes before the increment of `payload_idx++`.
feed_payload : Parser → ℕ → Parser × Bool
feed_payload p byte =
    if leb Proto.max_payload p.payload_idx
    then (reset p, false)
    else let p' =
        crc_eat
          (record p {
            frame = record (p.frame) { payload = set p.frame.payload p.payload_idx byte };
            payload_idx = u16 (p.payload_idx + 1);
          })
          byte in
      (
        record p' {
          state =
              if leb p'.expected_len p'.payload_idx
              then ParserState.read_crc_lo
              else ParserState.read_payload;
        },
        false,
      )

feed_crc_lo : Parser → ℕ → Parser × Bool
feed_crc_lo p byte = (record p { crc_recv = byte; state = ParserState.read_crc_hi }, false)

feed_crc_hi : Parser → ℕ → Parser × Bool
feed_crc_hi p byte =
    let p' = record p { crc_recv = u16 (bit_or p.crc_recv (byte << 8)) } in
    let ok = p'.crc_recv == p'.crc_running in (reset p', ok)

-- The switch. The code after it is for a value outside the enumeration.
feed_in : ParserState → Parser → ℕ → Parser × Bool
feed_in ParserState.wait_start = feed_wait_start
feed_in ParserState.read_type = feed_type
feed_in ParserState.read_len_lo = feed_len_lo
feed_in ParserState.read_len_hi = feed_len_hi
feed_in ParserState.read_seq = feed_seq
feed_in ParserState.read_payload = feed_payload
feed_in ParserState.read_crc_lo = feed_crc_lo
feed_in ParserState.read_crc_hi = feed_crc_hi

-- `protocol_parser_feed`
unfoldable pub feed : Parser → ℕ → Parser × Bool
unfolding crc_eat reset feed_in feed_wait_start feed_type feed_len_lo feed_len_hi feed_seq
    feed_payload feed_crc_lo feed_crc_hi
feed p byte = feed_in p.state p byte

-- The `while` loop of `task_protocol` over the bytes that it pops: the frames that it hands to
-- `dispatcher_handle`, in order, and the parser that is left.
unfoldable pub feed_all : Parser → List ℕ → Parser × List ParsedFrame
feed_all p [] = (p, [])
feed_all p (b ∷ bs) =
    let (p', done) = feed p b in
    let (q, frames) = feed_all p' bs in (q, if done then p'.frame ∷ frames else frames)
