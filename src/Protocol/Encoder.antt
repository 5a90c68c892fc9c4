-- ===== src/Protocol/Encoder.antt =====
-- stm32/project/protocol/src/protocol_encoder.c: frames are built in a buffer on the stack and
-- pushed into the UART's TX ring.
pub mod Frame
pub mod Send
use hilglebone.Base.{ℕ, zero, suc, ◌+◌, ◌-◌, ◌/◌, ◌%◌, ◌^◌, List, [], ◌∷◌, bit_and, u8, ◌>>◌, ◌==◌}
use hilglebone.Base.{if◌then◌else◌, get_or, set, take, drop, replicate}
use hilglebone.Base.ErrCode.{ErrCode, code, is_success}
use hilglebone.Protocol.Proto
use hilglebone.Protocol.Crc.{crc16_init, crc16_ccitt_update}
use hilglebone.Uart.{Uart, tx_push}

-- `for (i = 0; i < payload_len; ++i) out[PROTO_OFFSET_PAYLOAD + i] = payload[i];` at index `i`,
-- with `n` rounds left.
copy_payload : List ℕ → List ℕ → ℕ → ℕ → List ℕ
copy_payload out payload i zero = out
copy_payload out payload i (suc n) =
    copy_payload (set out (Proto.header_size + i) (get_or payload i 0)) payload (suc i) n

-- `build_frame`: the buffer and the number of bytes written.
unfoldable pub build_frame : List ℕ → ℕ → ℕ → List ℕ → ℕ → List ℕ × ℕ
unfolding copy_payload
build_frame out type seq payload payload_len =
    let out₁ = set out 0 Proto.start_byte in
    let out₂ = set out₁ 1 type in
    let out₃ = set out₂ 2 (u8 (bit_and payload_len 0xFF)) in
    let out₄ = set out₃ 3 (u8 (payload_len >> 8)) in
    let out₅ = set out₄ 4 seq in
    let filled = copy_payload out₅ payload 0 payload_len in
    let crc =
      crc16_ccitt_update crc16_init (take (Proto.header_size - 1 + payload_len) (drop 1 filled)) in
    let crc_off = Proto.header_size + payload_len in
    let low = set filled crc_off (u8 (bit_and crc 0xFF)) in
    let high = set low (suc crc_off) (u8 (crc >> 8)) in (high, Proto.frame_overhead + payload_len)

-- `push_frame`
unfoldable pub push_frame : Uart → List ℕ → ℕ → ErrCode × Uart
push_frame u frame len =
    let (err, pushed, u') = tx_push u (take len frame) in
    if is_success err
    then (if pushed == len then ErrCode.success else ErrCode.out_of_resources, u')
    else (err, u')

-- `protocol_send_ack`. The buffers on the stack are not initialised; `build_frame` writes every
-- byte that is sent.
unfoldable pub send_ack : Uart → ℕ → ErrCode → ℕ → ℕ → ErrCode × Uart
unfolding build_frame push_frame
send_ack u cmd_type error_code sensor_id seq =
    let payload : List ℕ = cmd_type ∷ u8 (code error_code) ∷ sensor_id ∷ [] in
    let (frame, n) = build_frame (replicate 10 0) Proto.type_rsp_ack seq payload 3 in
    push_frame u frame n

-- `protocol_send_error`
unfoldable pub send_error : Uart → ℕ → ErrCode → ℕ → ErrCode × Uart
unfolding build_frame push_frame
send_error u sensor_id error_code seq =
    let payload : List ℕ = sensor_id ∷ u8 (code error_code) ∷ [] in
    let (frame, n) = build_frame (replicate 9 0) Proto.type_rsp_error seq payload 2 in
    push_frame u frame n
