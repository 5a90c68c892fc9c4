-- ===== src/SpiMaster.antt =====
-- stm32/project/drivers/spi_master/src/spi_master.c: the clock divider, and a transfer that the
-- interrupt feeds. `tx_buf` points to memory of the caller, so the interrupt is given what stands
-- there when it runs. The callback and its context are the caller's; the interrupt returns whether
-- it calls them.
pub mod Clock
pub mod Progress
pub mod Transfer
use mathlib.Core.Option
use hilglebone.Base.{
  ℕ, zero, suc, ◌+◌, ◌-◌, ◌/◌, ◌%◌, ◌^◌, List, Bool, true, false, not, ◌&&◌, ◌||◌,
}
use hilglebone.Base.{Option, none, some, u8, ◌>>◌, ltb, leb, ◌==◌, if◌then◌else◌, get_or, set}
use hilglebone.Base.ErrCode.{ErrCode, is_success}
use hilglebone.Spi
use hilglebone.Spi.{
  Regs, Role, regs_reset, periph_count, mode_max, cpol_of, cpha_of, rcc_enable, rcc_disable,
  nvic_enable, nvic_disable, clear_control,
}

-- `SPI_BR_MAX`, and `APB2_CLOCK_HZ`, `APB1_CLOCK_HZ` of stm32_clk.h
abbrev pub br_max : ℕ
br_max = 7

abbrev pub apb_clk_hz : ℕ → ℕ
apb_clk_hz zero = 84_000_000
apb_clk_hz _ = 42_000_000

-- `spi_master_state_t`
pub record Master : Type 0 where
  pub initialized : Bool
  pub busy : Bool
  pub tx_len : ℕ
  pub tx_idx : ℕ
  pub rx_count : ℕ

abbrev pub master_reset : Master
master_reset = record { initialized = false; busy = false; tx_len = 0; tx_idx = 0; rx_count = 0 }

-- What the two drivers share: the claims, the registers and the states of this driver.
pub record Bus : Type 0 where
  pub slots : List Spi.Slot
  pub regs : List Regs
  pub masters : List Master

abbrev pub master_at : Bus → ℕ → Master
master_at b periph = get_or b.masters periph master_reset

abbrev pub regs_at : Bus → ℕ → Regs
regs_at b periph = get_or b.regs periph regs_reset

-- The loop of `compute_br` at `br`, with `n` rounds left.
unfoldable pub br_from : ℕ → ℕ → ℕ → ℕ → ℕ
br_from zero br clk target = br_max
br_from (suc n) br clk target =
    let later = br_from n (br + 1) clk target in if leb (clk >> (br + 1)) target then br else later

-- `compute_br`
unfoldable pub compute_br : ℕ → ℕ → ℕ
unfolding br_from
compute_br clk target = br_from (br_max + 1) 0 clk target

-- What the interrupt finds in SR.
pub record Event : Type 0 where
  pub rxne : Bool
  pub txe : Bool

-- What `spi_master_isr` leaves: its state, the registers, the byte written to DR, and whether the
-- callback was called.
pub record Served : Type 0 where
  pub master : Master
  pub regs : Regs
  pub sent : Option ℕ
  pub called : Bool

-- The part of `spi_master_isr` for TXE.
unfoldable pub feed : Master → Regs → List ℕ → Bool → Served
feed s r buf txe =
    let idle : Served = record { master = s; regs = r; sent = none; called = false } in
    if not (txe && r.txeie)
    then idle
    else (if ltb s.tx_idx s.tx_len
        then record idle {
          master = record s { tx_idx = u8 (s.tx_idx + 1) };
          sent = some (get_or buf s.tx_idx 0);
        }
        else record idle { regs = record r { txeie = false } })

-- `spi_master_isr`
unfoldable pub isr : Master → Regs → List ℕ → Event → Served
unfolding feed
isr s r buf e =
    let s' = record s { rx_count = u8 (s.rx_count + 1) } in
    if e.rxne && ltb 0 s.tx_idx
    then (if leb s.tx_len s'.rx_count
        then record {
          master = record s' { busy = false };
          regs = record r { txeie = false; rxneie = false };
          sent = none;
          called = true;
        }
        else feed s' r buf e.txe)
    else feed s r buf e.txe

-- The registers that `spi_master_init` leaves.
unfoldable pub configured : Regs → ℕ → ℕ → ℕ → Regs
unfolding compute_br
configured r clk clock_hz mode = nvic_enable (record (clear_control (rcc_enable r)) {
  mstr = true;
  br = compute_br clk clock_hz;
  cpol = cpol_of mode;
  cpha = cpha_of mode;
  spe = true;
})

-- `spi_master_init`
unfoldable pub init : Bus → ℕ → ℕ → ℕ → ErrCode × Bus
unfolding configured
init b periph clock_hz mode =
    let (err, slots) = Spi.claim b.slots periph Role.master in
    let r = configured (regs_at b periph) (apb_clk_hz periph) clock_hz mode in
    let s = record (master_at b periph) { initialized = true; busy = false } in
    if leb periph_count periph || (clock_hz == 0 || ltb mode_max mode)
    then (ErrCode.invalid_parameter, b)
    else (if not (is_success err) then (err, record b { slots = slots }) else (
      ErrCode.success,
      record { slots = slots; regs = set b.regs periph r; masters = set b.masters periph s },
    ))

-- `spi_master_deinit`
unfoldable pub deinit : Bus → ℕ → ErrCode × Bus
deinit b periph =
    let r = rcc_disable (clear_control (nvic_disable (regs_at b periph))) in
    let s = record (master_at b periph) { initialized = false; busy = false } in
    if leb periph_count periph then (ErrCode.invalid_parameter, b) else (
      ErrCode.success,
      record {
        slots = (Spi.release b.slots periph).1;
        regs = set b.regs periph r;
        masters = set b.masters periph s;
      },
    )

-- The state and the registers of a started transfer.
unfoldable pub started : Master → ℕ → Master
started s len = record s { tx_len = len; tx_idx = 0; rx_count = 0; busy = true }

-- `spi_master_write`
unfoldable pub write : Bus → ℕ → ℕ → ErrCode × Bus
unfolding started
write b periph len =
    let s = master_at b periph in
    if leb periph_count periph
    then (ErrCode.invalid_parameter, b)
    else (if not s.initialized
        then (ErrCode.invalid_parameter, b)
        else (if s.busy then (ErrCode.peripheral_busy, b) else (
          ErrCode.success,
          record b {
            masters = set b.masters periph (started s len);
            regs = set b.regs periph (record (regs_at b periph) { txeie = true; rxneie = true });
          },
        )))
