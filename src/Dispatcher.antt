-- ===== src/Dispatcher.antt =====
-- stm32/project/command/src/dispatcher.c: the commands of the host. The backends, the sensor manager
-- and the UART are reached through a record of operations on one state, which the handlers are given.
pub mod Laws
pub mod Outcome
pub mod Commands
pub mod Answers
pub mod Stream
pub mod Firmware
pub mod Lawful
use mathlib.Core.Option
use hilglebone.Base.{
  ℕ, ◌-◌, ◌%◌, ◌^◌, List, Option, none, some, u16, ltb, ◌==◌, if◌then◌else◌, get_or, drop,
}
use hilglebone.Base.ErrCode.{ErrCode, is_success}
use hilglebone.Manager
use hilglebone.Manager.{Manager, id_none}
use hilglebone.Protocol.Encoder.{send_ack}
use hilglebone.Protocol.Parser.{ParsedFrame}
use hilglebone.Protocol.Proto
use hilglebone.Uart.{Uart}

-- `CMD_SETUP_HEADER_SIZE`, `CMD_SET_OUTPUT_HEADER_SIZE`, `CMD_STOP_PAYLOAD_SIZE`
abbrev pub header_size : ℕ
header_size = 1

-- `PROTO_ID_I2C`, `_SPI`, `_DIGITAL_OUT`, `_DAC`, `_PWM`
abbrev pub id_i2c : ℕ
id_i2c = 0x01

abbrev pub id_spi : ℕ
id_spi = 0x02

abbrev pub id_digital_out : ℕ
id_digital_out = 0x03

abbrev pub id_dac : ℕ
id_dac = 0x05

abbrev pub id_pwm : ℕ
id_pwm = 0x06

-- The calls into one backend; a setup gives the status, `*out_sensor_id` and the new state.
pub record Backend (W : Type 0) : Type 0 where
  pub init : W → W
  pub setup : W → List ℕ → ℕ → ErrCode × ℕ × W
  pub set_output : W → ℕ → List ℕ → ℕ → ErrCode × W
  pub stop : W → ℕ → ErrCode × W

-- The five backends over one state, the sensor manager and the UART in it, and `hw_timer_init`.
pub record Board (W : Type 0) : Type 0 where
  pub i2c : Backend W
  pub digital_out : Backend W
  pub pwm : Backend W
  pub dac : Backend W
  pub spi : Backend W
  pub timer_init : W → W
  pub manager : W → Manager
  pub with_manager : W → Manager → W
  pub uart : W → Uart
  pub with_uart : W → Uart → W

module _ {W : Type 0} (board : Board W) where
  -- `(void)protocol_send_ack(cmd_type, err, sensor_id, seq)`
  unfoldable pub reply : W → ℕ → ErrCode → ℕ → ℕ → W
  reply w cmd_type err sensor_id seq =
      board.with_uart w (send_ack (board.uart w) cmd_type err sensor_id seq).1

  -- The backend that the switches pick for a protocol id.
  unfoldable pub backend_of : ℕ → Option (Backend W)
  backend_of protocol_id =
      if protocol_id == id_i2c
      then some (board.i2c)
      else (if protocol_id == id_digital_out
          then some (board.digital_out)
          else (if protocol_id == id_pwm
              then some (board.pwm)
              else (if protocol_id == id_dac
                  then some (board.dac)
                  else (if protocol_id == id_spi then some (board.spi) else none))))

  -- `handle_sync`
  unfoldable pub handle_sync : W → ParsedFrame → W
  unfolding reply
  handle_sync w f = reply w Proto.type_cmd_sync ErrCode.success id_none f.seq

  -- `handle_setup`
  unfoldable pub handle_setup : W → ParsedFrame → W
  unfolding reply backend_of
  handle_setup w f =
      let cmd = Proto.type_cmd_setup_sensor in
      if ltb f.len header_size
      then reply w cmd ErrCode.malformed_payload id_none f.seq
      else (elim (backend_of (get_or f.payload 0 0)) [
        | none ↦ reply w cmd ErrCode.unsupported id_none f.seq
        | some b ↦
            let (err, id, w') =
              b.setup w (drop header_size f.payload) (u16 (f.len - header_size)) in
            reply w' cmd err (if is_success err then id else id_none) f.seq
      ])

  -- The switch of `handle_set_output` for the slot at `i`.
  unfoldable pub output_at : W → ℕ → List ℕ → ℕ → ErrCode × W
  unfolding backend_of
  output_at w i values values_len =
      let slot = Manager.slot_at (board.manager w) i in
      elim (backend_of slot.protocol_id) [
        | none ↦ (ErrCode.invalid_parameter, w)
        | some b ↦ b.set_output w slot.internal_id values values_len
      ]

  -- `handle_set_output`
  unfoldable pub handle_set_output : W → ParsedFrame → W
  unfolding reply output_at
  handle_set_output w f =
      let cmd = Proto.type_cmd_set_output in
      let sensor_id = get_or f.payload 0 0 in
      if ltb f.len header_size
      then reply w cmd ErrCode.malformed_payload id_none f.seq
      else (elim (Manager.lookup (board.manager w) sensor_id) [
        | none ↦ reply w cmd ErrCode.invalid_sensor_id sensor_id f.seq
        | some i ↦
            let (err, w') =
              output_at w i (drop header_size f.payload) (u16 (f.len - header_size)) in
            reply w' cmd err sensor_id f.seq
      ])

  -- The switch of `handle_stop` for the slot at `i`, and the release of the id.
  unfoldable pub stop_at : W → ℕ → ℕ → ErrCode × W
  unfolding backend_of
  stop_at w i sensor_id =
      let slot = Manager.slot_at (board.manager w) i in
      elim (backend_of slot.protocol_id) [
        | none ↦ (ErrCode.invalid_parameter, w)
        | some b ↦
            let (err, w') = b.stop w slot.internal_id in
            (
              err,
              if is_success err
                  then board.with_manager w' (Manager.release (board.manager w') sensor_id)
                  else w',
            )
      ]

  -- `handle_stop`
  unfoldable pub handle_stop : W → ParsedFrame → W
  unfolding reply stop_at
  handle_stop w f =
      let cmd = Proto.type_cmd_stop_sensor in
      let sensor_id = get_or f.payload 0 0 in
      if ltb f.len header_size
      then reply w cmd ErrCode.malformed_payload id_none f.seq
      else (elim (Manager.lookup (board.manager w) sensor_id) [
        | none ↦ reply w cmd ErrCode.invalid_sensor_id sensor_id f.seq
        | some i ↦ let (err, w') = stop_at w i sensor_id in reply w' cmd err sensor_id f.seq
      ])

  -- `dispatcher_init`
  unfoldable pub init : W → W
  init w =
      let w₁ = board.timer_init (board.with_manager w Manager.init) in
      let w₂ = board.pwm.init (board.digital_out.init (board.i2c.init w₁)) in
      board.spi.init (board.dac.init w₂)

  -- `dispatcher_handle`
  unfoldable pub handle : W → ParsedFrame → W
  unfolding reply handle_sync handle_setup handle_set_output handle_stop
  handle w f =
      if f.type == Proto.type_cmd_sync
      then handle_sync w f
      else (if f.type == Proto.type_cmd_setup_sensor
          then handle_setup w f
          else (if f.type == Proto.type_cmd_set_output
              then handle_set_output w f
              else (if f.type == Proto.type_cmd_stop_sensor
                  then handle_stop w f
                  else (if f.type == Proto.type_cmd_scenario
                      then reply w f.type ErrCode.not_implemented id_none f.seq
                      else reply w f.type ErrCode.unknown_cmd id_none f.seq))))
