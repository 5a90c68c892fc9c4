-- ===== src/I2cSlave/Control.antt =====
-- i2c_slave_init and i2c_slave_deinit: the checks of the configuration, the registers and the state.
use hilglebone.Base.{ℕ, ◌+◌, ◌*◌, ◌/◌, List, [], Bool, true, false, not, ◌&&◌, ◌||◌}
use hilglebone.Base.{u32, ◌<<◌, ltb, leb, ◌==◌, if◌then◌else◌, get_or, set}
use hilglebone.Base.ErrCode.{ErrCode}
use hilglebone.I2cSlave.{Slave, Phase, reg_16, auto_inc_both}

-- `I2C_PERIPH_COUNT`, `I2C_SLAVE_ADDR_7BIT`, `_10BIT`, `I2C_FAST_MAX_HZ`, `I2C_STD_MAX_HZ`
abbrev pub periph_count : ℕ
periph_count = 3

abbrev pub addr_7bit : ℕ
addr_7bit = 0

abbrev pub addr_10bit : ℕ
addr_10bit = 1

abbrev pub fast_max_hz : ℕ
fast_max_hz = 400_000

abbrev pub std_max_hz : ℕ
std_max_hz = 100_000

-- `APB1_CLOCK_HZ` of stm32_clk.h, and `I2C_CR2_FREQ_VAL`
abbrev pub apb1_clock_hz : ℕ
apb1_clock_hz = 42_000_000

abbrev pub cr2_freq_val : ℕ
cr2_freq_val = apb1_clock_hz / 1_000_000

-- `i2c_slave_cfg_t`. The array that `regmap` points to; the pointers are not NULL.
pub record Config : Type 0 where
  pub regmap : List ℕ
  pub regmap_len : ℕ
  pub reg_addr_width : ℕ
  pub auto_inc_mode : ℕ
  pub auto_inc_wrap : Bool
  pub writes_allowed : Bool
  pub general_call : Bool
  pub clock_stretch : Bool

-- What `i2c_slave_init` is asked for besides the register map.
pub record Address : Type 0 where
  pub clock_hz : ℕ
  pub addr_mode : ℕ
  pub primary_addr : ℕ
  pub secondary_addr : ℕ

-- The clock gate, the two interrupt enables, and the fields of CR1, CR2, CCR, TRISE, OAR1 and OAR2
-- that the driver writes. `own` is what it puts below the mode bit of OAR1, `second` the same for
-- OAR2.
pub record Regs : Type 0 where
  pub clock_on : Bool
  pub irqs_on : Bool
  pub enabled : Bool
  pub ack : Bool
  pub nostretch : Bool
  pub general_call : Bool
  pub freq : ℕ
  pub it_enabled : Bool
  pub fast_mode : Bool
  pub ccr : ℕ
  pub trise : ℕ
  pub add_mode : Bool
  pub own : ℕ
  pub dual : Bool
  pub second : ℕ

abbrev pub regs_reset : Regs
regs_reset = record {
  clock_on = false;
  irqs_on = false;
  enabled = false;
  ack = false;
  nostretch = false;
  general_call = false;
  freq = 0;
  it_enabled = false;
  fast_mode = false;
  ccr = 0;
  trise = 0;
  add_mode = false;
  own = 0;
  dual = false;
  second = 0;
}

abbrev pub slave_reset : Slave
slave_reset = record {
  initialized = false;
  regmap = [];
  regmap_len = 0;
  reg_addr_width = 0;
  auto_inc_mode = 0;
  auto_inc_wrap = false;
  writes_allowed = false;
  phase = Phase.idle;
  reg_ptr = 0;
  reg_addr_acc = 0;
  reg_addr_cnt = 0;
}

-- The static variables of the driver and its registers.
pub record Driver : Type 0 where
  pub slaves : List Slave
  pub regs : List Regs

abbrev pub slave_at : Driver → ℕ → Slave
slave_at d periph = get_or d.slaves periph slave_reset

abbrev pub regs_at : Driver → ℕ → Regs
regs_at d periph = get_or d.regs periph regs_reset

-- `compute_ccr`: whether it sets `I2C_CCR_FS`, and the divider.
unfoldable pub compute_ccr : ℕ → Bool × ℕ
compute_ccr clock_hz =
    if leb clock_hz std_max_hz
    then (false, apb1_clock_hz / u32 (2 * clock_hz))
    else (true, apb1_clock_hz / u32 (3 * clock_hz))

-- `compute_trise`
unfoldable pub compute_trise : ℕ → ℕ
compute_trise clock_hz =
    if leb clock_hz std_max_hz then cr2_freq_val + 1 else cr2_freq_val * 3 / 10 + 1

-- The part of `cfg_valid` for the addresses.
unfoldable pub addresses_valid : Address → Bool
addresses_valid a =
    if a.addr_mode == addr_7bit
    then not (ltb 0x7F a.primary_addr)
      && not (not (a.secondary_addr == 0) && ltb 0x7F a.secondary_addr)
    else not (a.primary_addr == 0 || ltb 0x3FF a.primary_addr) && a.secondary_addr == 0

-- `cfg_valid`
unfoldable pub cfg_valid : ℕ → Address → Config → Bool
unfolding addresses_valid
cfg_valid periph a c =
    not (leb periph_count periph)
    && (not (c.regmap_len == 0)
        && (not (ltb addr_10bit a.addr_mode)
            && (not (a.clock_hz == 0 || ltb fast_max_hz a.clock_hz)
                && (addresses_valid a
                    && (not (ltb reg_16 c.reg_addr_width)
                        && not (ltb auto_inc_both c.auto_inc_mode))))))

-- The registers that `i2c_slave_init` leaves.
unfoldable pub configured : Regs → Address → Config → Regs
unfolding compute_ccr compute_trise
configured r a c =
    let seven = a.addr_mode == addr_7bit in
    let dual = not (a.secondary_addr == 0) && seven in
    let (fast_mode, ccr) = compute_ccr a.clock_hz in
    record {
      clock_on = true;
      irqs_on = true;
      enabled = true;
      ack = true;
      nostretch = not c.clock_stretch;
      general_call = c.general_call;
      freq = cr2_freq_val;
      it_enabled = true;
      fast_mode = fast_mode;
      ccr = ccr;
      trise = compute_trise a.clock_hz;
      add_mode = not seven;
      own = if seven then a.primary_addr << 1 else a.primary_addr;
      dual = dual;
      second = if dual then a.secondary_addr << 1 else 0;
    }

-- The state that `i2c_slave_init` leaves.
unfoldable pub prepared : Config → Slave
prepared c = record {
  initialized = true;
  regmap = c.regmap;
  regmap_len = c.regmap_len;
  reg_addr_width = c.reg_addr_width;
  auto_inc_mode = c.auto_inc_mode;
  auto_inc_wrap = c.auto_inc_wrap;
  writes_allowed = c.writes_allowed;
  phase = Phase.idle;
  reg_ptr = 0;
  reg_addr_acc = 0;
  reg_addr_cnt = 0;
}

-- `i2c_slave_init`
unfoldable pub init : Driver → ℕ → Address → Config → ErrCode × Driver
unfolding configured prepared cfg_valid
init d periph a c =
    if not (cfg_valid periph a c)
    then (ErrCode.invalid_parameter, d)
    else (if (slave_at d periph).initialized then (ErrCode.peripheral_busy, d) else (
      ErrCode.success,
      record {
        slaves = set d.slaves periph (prepared c);
        regs = set d.regs periph (configured (regs_at d periph) a c);
      },
    ))

-- The state and the registers that `i2c_slave_deinit` leaves.
unfoldable pub cleared : Slave → Slave
cleared s = record s { initialized = false; regmap = []; regmap_len = 0; phase = Phase.idle }

unfoldable pub disabled : Regs → Regs
disabled r = record r {
  clock_on = false;
  irqs_on = false;
  enabled = false;
  ack = false;
  nostretch = false;
  general_call = false;
  freq = 0;
  it_enabled = false;
}

-- `i2c_slave_deinit`
unfoldable pub deinit : Driver → ℕ → ErrCode × Driver
unfolding cleared disabled
deinit d periph = if leb periph_count periph then (ErrCode.invalid_parameter, d) else (
  ErrCode.success,
  record {
    slaves = set d.slaves periph (cleared (slave_at d periph));
    regs = set d.regs periph (disabled (regs_at d periph));
  },
)
