-- ===== src/Tests/Wire.antt =====
-- Runs and instances for stm32/project/protocol and stm32/project/drivers/uart.
use hilglebone.Base.{ℕ, List, [], ◌∷◌, ◌++◌, ◌≡◌, ◌≢◌, refl, arith, true, false}
use hilglebone.Base.{take, ltb, if◌then◌else◌, replicate}
use hilglebone.Base.ErrCode.{ErrCode}
use hilglebone.Protocol.Proto
use hilglebone.Protocol.Crc.{crc16_init, crc16_ccitt_update}
use hilglebone.Protocol.Crc.Laws.{crc16_ccitt_update-detects_byte}
use hilglebone.Protocol.Crc.Remainder.{IsRemainder, dividend, crc16_ccitt_update-IsRemainder}
use hilglebone.Protocol.Wire.{frame_bytes}
use hilglebone.Protocol.Parser.{zeroed, feed, feed_all}
use hilglebone.Protocol.Parser.Inv.{IsValid, feed-IsValid}
use hilglebone.Protocol.Parser.Sound.{Carries, feed_all-Carries}
use hilglebone.Protocol.Parser.Stream.{Message, messages_of, stream_bytes, feed_all-stream}
use hilglebone.Protocol.Encoder.{build_frame, send_ack, send_error}
use hilglebone.Protocol.Encoder.Frame.{build_frame_lem}
use hilglebone.Protocol.Encoder.Send.{
  Sends, ack_bytes, error_bytes, send_ack-Sends, send_error-Sends,
}
use hilglebone.Uart.{initial, tx_push}
use hilglebone.Uart.Fifo.{IsUart, tx_push_lem}
use hilglebone.Uart.Trace.{Event, irq, pop, push, run, Balanced, run-fifo}
use hilglebone.Ring.Laws.{contents}

-- "123456789"
abbrev digits : List ℕ
digits = 0x31 ∷ 0x32 ∷ 0x33 ∷ 0x34 ∷ 0x35 ∷ 0x36 ∷ 0x37 ∷ 0x38 ∷ 0x39 ∷ []

-- The check value of CRC-16/CCITT-FALSE.
crc_check_value : crc16_ccitt_update crc16_init digits ≡ 0x29B1
unfolding crc16_ccitt_update
crc_check_value = refl

-- CMD_SYNC with sequence number 7.
abbrev sync : Message
sync = record { type = Proto.type_cmd_sync; seq = 7; payload = [] }

-- CMD_STOP_SENSOR of sensor 3.
abbrev stop : Message
stop = record { type = Proto.type_cmd_stop_sensor; seq = 8; payload = 3 ∷ [] }

abbrev segments : List (List ℕ × Message)
segments = (0x00 ∷ 0x55 ∷ [], sync) ∷ ([], stop) ∷ []

zeroed-IsValid : IsValid zeroed
zeroed-IsValid = record { at = refl; payload_size = refl; ranges = tt; tracks = tt }

initial-IsUart : IsUart initial
initial-IsUart = record {
  rx_ring = record { storage = refl; head_in = omega arith; tail_in = omega arith };
  tx_ring = record { storage = refl; head_in = omega arith; tail_in = omega arith };
}

crc16_ccitt_update-IsRemainder_example :
    IsRemainder
      (dividend crc16_init (0x31 ∷ 0x32 ∷ []))
      (crc16_ccitt_update crc16_init (0x31 ∷ 0x32 ∷ []))
crc16_ccitt_update-IsRemainder_example =
    crc16_ccitt_update-IsRemainder crc16_init (0x31 ∷ 0x32 ∷ []) (omega arith)
      (omega arith, (omega arith, tt))

crc16_ccitt_update-detects_byte_example :
    crc16_ccitt_update crc16_init ((1 ∷ []) ++ (0x10 ∷ 2 ∷ []))
    ≢ crc16_ccitt_update crc16_init ((1 ∷ []) ++ (0x90 ∷ 2 ∷ []))
crc16_ccitt_update-detects_byte_example =
    crc16_ccitt_update-detects_byte crc16_init (1 ∷ []) (2 ∷ []) 0x10 0x90 (omega arith)
      (omega arith) (omega arith) (omega arith) (omega arith)

feed-IsValid_example : IsValid (feed zeroed 0xAA).0
feed-IsValid_example = feed-IsValid zeroed 0xAA (omega arith) zeroed-IsValid

feed_all-Carries_example :
    Carries
      (0xAA ∷ 5 ∷ 0 ∷ 0 ∷ 7 ∷ 0x9C ∷ 0x4F ∷ [])
      (feed_all zeroed (0xAA ∷ 5 ∷ 0 ∷ 0 ∷ 7 ∷ 0x9C ∷ 0x4F ∷ [])).1
feed_all-Carries_example =
    feed_all-Carries zeroed (0xAA ∷ 5 ∷ 0 ∷ 0 ∷ 7 ∷ 0x9C ∷ 0x4F ∷ []) (omega arith) zeroed-IsValid

feed_all-stream_example :
    messages_of (feed_all zeroed (stream_bytes segments (0x01 ∷ []))).1 ≡ sync ∷ stop ∷ []
feed_all-stream_example =
    feed_all-stream zeroed segments (0x01 ∷ []) refl refl (omega arith) (omega arith)

build_frame_lem_example :
    let (frame, size) = build_frame (replicate 9 0) Proto.type_cmd_stop_sensor 8 (3 ∷ 4 ∷ []) 2 in
    (size ≡ 9) × (take size frame ≡ frame_bytes Proto.type_cmd_stop_sensor 8 (3 ∷ 4 ∷ []))
build_frame_lem_example =
    build_frame_lem (replicate 9 0) (3 ∷ 4 ∷ []) Proto.type_cmd_stop_sensor 8 2 refl (omega arith)
      (omega arith)

send_ack-Sends_example :
    Sends initial (ack_bytes 5 ErrCode.success 0 7) (send_ack initial 5 ErrCode.success 0 7)
send_ack-Sends_example = send_ack-Sends initial 5 ErrCode.success 0 7 initial-IsUart

send_error-Sends_example :
    Sends initial (error_bytes 3 ErrCode.timeout 7) (send_error initial 3 ErrCode.timeout 7)
send_error-Sends_example = send_error-Sends initial 3 ErrCode.timeout 7 initial-IsUart

tx_push_lem_example :
    let (status, pushed, u') = tx_push initial (1 ∷ 2 ∷ []) in
    (status ≡ ErrCode.success)
    × (pushed ≡ 2)
    × (contents u'.tx ≡ 1 ∷ 2 ∷ [])
    × IsUart u'
    × (u'.rx ≡ initial.rx)
    × (u'.txeie ≡ (if ltb 0 pushed then true else false))
tx_push_lem_example = tx_push_lem initial (1 ∷ 2 ∷ []) initial-IsUart

-- A byte arrives, the task echoes it, and the interrupt sends it.
abbrev echo : List Event
echo =
    irq (record { rxne = true; ore = false; txe = false; dr = 0x41 })
    ∷ pop
    ∷ push (0x41 ∷ [])
    ∷ irq (record { rxne = false; ore = false; txe = true; dr = 0 })
    ∷ []

run-fifo_example :
    let (u', m) = run initial echo in
    IsUart u'
    × Balanced initial.rx m.stored m.popped u'.rx
    × Balanced initial.tx m.accepted m.transmitted u'.tx
run-fifo_example = run-fifo initial echo initial-IsUart
