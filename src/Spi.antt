-- ===== src/Spi.antt =====
-- stm32/project/drivers/spi/src/spi.c: which driver owns each of the two SPI peripherals, and the
-- registers of a peripheral that the drivers write. `isr_fn` and its context are named by the role:
-- the handler of that driver, called on its state for the same peripheral.
use hilglebone.Base.{
  ℕ, List, Bool, true, false, Option, none, some, leb, if◌then◌else◌, get_or, set,
}
use hilglebone.Base.{not, bit_and, ◌==◌}
use hilglebone.Base.ErrCode.{ErrCode}

-- `SPI_PERIPH_COUNT`, `SPI_MODE_MAX`
abbrev pub periph_count : ℕ
periph_count = 2

abbrev pub mode_max : ℕ
mode_max = 3

-- `spi_role_t`
pub data Role : Type 0 where
  master slave : Role

-- `spi_slot_t`
pub record Slot : Type 0 where
  pub in_use : Bool
  pub role : Role
  pub isr : Option Role

-- The fields of CR1 and CR2, the clock gate and the interrupt enable of a peripheral.
pub record Regs : Type 0 where
  pub clock_on : Bool
  pub irq_on : Bool
  pub mstr : Bool
  pub br : ℕ
  pub cpol : Bool
  pub cpha : Bool
  pub spe : Bool
  pub txeie : Bool
  pub rxneie : Bool

abbrev pub regs_reset : Regs
regs_reset = record {
  clock_on = false;
  irq_on = false;
  mstr = false;
  br = 0;
  cpol = false;
  cpha = false;
  spe = false;
  txeie = false;
  rxneie = false;
}

-- The bits SPI_MODE_CPOL_BIT and SPI_MODE_CPHA_BIT of the mode.
abbrev pub cpol_of : ℕ → Bool
cpol_of mode = not (bit_and mode 0x2 == 0)

abbrev pub cpha_of : ℕ → Bool
cpha_of mode = not (bit_and mode 0x1 == 0)

abbrev pub slot_reset : Slot
slot_reset = record { in_use = false; role = Role.master; isr = none }

abbrev pub slot_at : List Slot → ℕ → Slot
slot_at slots periph = get_or slots periph slot_reset

-- `spi_claim`, with a handler.
unfoldable pub claim : List Slot → ℕ → Role → ErrCode × List Slot
claim slots periph role =
    if leb periph_count periph
    then (ErrCode.invalid_parameter, slots)
    else (if (slot_at slots periph).in_use then (ErrCode.peripheral_busy, slots) else (
      ErrCode.success,
      set slots periph (record { in_use = true; role = role; isr = some role }),
    ))

-- `spi_release`
unfoldable pub release : List Slot → ℕ → ErrCode × List Slot
release slots periph = if leb periph_count periph then (ErrCode.invalid_parameter, slots) else (
  ErrCode.success,
  set slots periph (record (slot_at slots periph) { in_use = false; isr = none }),
)

-- `SPI1_IRQHandler`, `SPI2_IRQHandler`: the driver whose handler runs, if one does.
unfoldable pub irq_target : List Slot → ℕ → Option Role
irq_target slots periph = (slot_at slots periph).isr

-- `spi_rcc_enable`, `spi_rcc_disable`, `spi_nvic_enable`, `spi_nvic_disable`
abbrev pub rcc_enable : Regs → Regs
rcc_enable r = record r { clock_on = true }

abbrev pub rcc_disable : Regs → Regs
rcc_disable r = record r { clock_on = false }

abbrev pub nvic_enable : Regs → Regs
nvic_enable r = record r { irq_on = true }

abbrev pub nvic_disable : Regs → Regs
nvic_disable r = record r { irq_on = false }

-- `spi->CR1 = 0U; spi->CR2 = 0U;`
abbrev pub clear_control : Regs → Regs
clear_control r = record r {
  mstr = false;
  br = 0;
  cpol = false;
  cpha = false;
  spe = false;
  txeie = false;
  rxneie = false;
}
