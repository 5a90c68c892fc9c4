-- ===== src/SpiSlave.antt =====
-- stm32/project/drivers/spi_slave/src/spi_slave.c: a peripheral that answers an external master from
-- a buffer of its own. A write to DR is a value that the operation returns.
pub mod Stream
use mathlib.Core.Option
use hilglebone.Base.{ℕ, ◌+◌, ◌%◌, ◌^◌, List, Bool, true, false, not, ◌&&◌, ◌||◌}
use hilglebone.Base.{
  Option, none, some, u8, ltb, leb, ◌==◌, if◌then◌else◌, get_or, set, copy, replicate,
}
use hilglebone.Base.ErrCode.{ErrCode, is_success}
use hilglebone.Spi
use hilglebone.Spi.{
  Regs, Role, regs_reset, periph_count, mode_max, cpol_of, cpha_of, rcc_enable, rcc_disable,
  nvic_enable, nvic_disable, clear_control,
}

-- `SPI_SLAVE_TX_BUF_MAX`
abbrev pub tx_buf_max : ℕ
tx_buf_max = 64

-- `spi_slave_state_t`
pub record Slave : Type 0 where
  pub initialized : Bool
  pub tx_buf : List ℕ
  pub tx_len : ℕ
  pub tx_idx : ℕ

abbrev pub slave_reset : Slave
slave_reset = record {
  initialized = false;
  tx_buf = replicate tx_buf_max 0;
  tx_len = 0;
  tx_idx = 0;
}

-- The claims and the registers, and the states of this driver.
pub record Bus : Type 0 where
  pub slots : List Spi.Slot
  pub regs : List Regs
  pub slaves : List Slave

abbrev pub slave_at : Bus → ℕ → Slave
slave_at b periph = get_or b.slaves periph slave_reset

abbrev pub regs_at : Bus → ℕ → Regs
regs_at b periph = get_or b.regs periph regs_reset

-- The index behind the one that was sent.
unfoldable pub next_idx : ℕ → ℕ → ℕ
next_idx idx len = if leb len (u8 (idx + 1)) then 0 else u8 (idx + 1)

-- `spi_slave_isr`, when SR has TXE: the state, and the byte written to DR.
unfoldable pub isr : Slave → Regs → Bool → Slave × Option ℕ
unfolding next_idx
isr s r txe =
    if not (txe && r.txeie)
    then (s, none)
    else (if ltb s.tx_idx s.tx_len
        then (record s { tx_idx = next_idx s.tx_idx s.tx_len }, some (get_or s.tx_buf s.tx_idx 0))
        else (s, some 0))

-- The registers that `spi_slave_init` leaves.
abbrev pub configured : Regs → ℕ → Regs
configured r mode = record (nvic_enable (clear_control (rcc_enable r))) {
  cpol = cpol_of mode;
  cpha = cpha_of mode;
  spe = true;
  rxneie = true;
}

-- `spi_slave_init`: the status, the state and the byte written to DR.
unfoldable pub init : Bus → ℕ → ℕ → ErrCode × Bus × Option ℕ
init b periph mode =
    let (err, slots) = Spi.claim b.slots periph Role.slave in
    let r = configured (regs_at b periph) mode in
    let s = record (slave_at b periph) { tx_idx = 0; initialized = true } in
    if leb periph_count periph || ltb mode_max mode
    then (ErrCode.invalid_parameter, b, none)
    else (if not (is_success err) then (err, record b { slots = slots }, none) else (
      ErrCode.success,
      record { slots = slots; regs = set b.regs periph r; slaves = set b.slaves periph s },
      some 0,
    ))

-- `spi_slave_deinit`
unfoldable pub deinit : Bus → ℕ → ErrCode × Bus
deinit b periph =
    let r = rcc_disable (clear_control (nvic_disable (regs_at b periph))) in
    let s = record (slave_at b periph) { initialized = false; tx_len = 0; tx_idx = 0 } in
    if leb periph_count periph then (ErrCode.invalid_parameter, b) else (
      ErrCode.success,
      record {
        slots = (Spi.release b.slots periph).1;
        regs = set b.regs periph r;
        slaves = set b.slaves periph s;
      },
    )

-- The state with a new buffer, its first byte preloaded.
unfoldable pub loaded : Slave → List ℕ → ℕ → Slave
loaded s buf len = record s {
  tx_buf = copy s.tx_buf 0 buf 0 len;
  tx_len = len;
  tx_idx = if ltb 1 len then 1 else 0;
}

-- `spi_slave_set_tx`: the status, the state and the byte written to DR.
unfoldable pub set_tx : Bus → ℕ → List ℕ → ℕ → ErrCode × Bus × Option ℕ
unfolding loaded
set_tx b periph buf len =
    let s = loaded (slave_at b periph) buf len in
    if leb periph_count periph || (len == 0 || ltb tx_buf_max len)
    then (ErrCode.invalid_parameter, b, none)
    else (if not (slave_at b periph).initialized then (ErrCode.invalid_parameter, b, none) else (
      ErrCode.success,
      record b {
        regs = set b.regs periph (record (regs_at b periph) { txeie = true });
        slaves = set b.slaves periph s;
      },
      some (get_or s.tx_buf 0 0),
    ))
