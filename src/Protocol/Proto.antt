-- ===== src/Protocol/Proto.antt =====
-- stm32/project/protocol/inc/protocol.h: the numbers of the wire protocol.
use Prim.Native.Nat.{ℕ, ◌+◌}

abbrev pub start_byte : ℕ
start_byte = 0xAA

abbrev pub header_size : ℕ
header_size = 5

abbrev pub crc_size : ℕ
crc_size = 2

abbrev pub frame_overhead : ℕ
frame_overhead = header_size + crc_size

abbrev pub max_payload : ℕ
max_payload = 256

abbrev pub type_cmd_setup_sensor : ℕ
type_cmd_setup_sensor = 0x01

abbrev pub type_cmd_set_output : ℕ
type_cmd_set_output = 0x02

abbrev pub type_cmd_stop_sensor : ℕ
type_cmd_stop_sensor = 0x03

abbrev pub type_cmd_scenario : ℕ
type_cmd_scenario = 0x04

abbrev pub type_cmd_sync : ℕ
type_cmd_sync = 0x05

abbrev pub type_rsp_ack : ℕ
type_rsp_ack = 0x10

abbrev pub type_rsp_error : ℕ
type_rsp_error = 0x11
