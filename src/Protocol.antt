-- ===== src/Protocol.antt =====
-- stm32/project/protocol: the wire protocol. `Proto` has the constants, `Crc`, `Parser` and
-- `Encoder` a C file each, `Wire` the frame format as the protocol documents it, and `Stream`
-- what the encoder and the parser do together.
pub mod Proto
pub mod Crc
pub mod Wire
pub mod Parser
pub mod Encoder
