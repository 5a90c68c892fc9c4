-- ===== src/I2cSlave.antt =====
-- stm32/project/drivers/i2c_slave/src/i2c_slave.c: the register map that a peripheral in slave mode
-- serves from its interrupts. One call of the event interrupt reads SR1, and SR2 and DR where it
-- uses them; what it finds there is an `Event`.
pub mod Access
pub mod Transmit
pub mod Transaction
pub mod Control
use mathlib.Core.Option
use hilglebone.Base.{
  ℕ, ◌+◌, ◌%◌, ◌^◌, List, Bool, true, false, not, ◌||◌, Option, none, some, bit_or, u8,
}
use hilglebone.Base.{u16, ◌<<◌, ltb, leb, ◌==◌, if◌then◌else◌, get_or, set}

-- `I2C_SLAVE_REG_NONE`, `_16`, and `I2C_SLAVE_AUTO_INC_READ`, `_WRITE`, `_BOTH`
abbrev pub reg_none : ℕ
reg_none = 0

abbrev pub reg_16 : ℕ
reg_16 = 2

abbrev pub auto_inc_read : ℕ
auto_inc_read = 1

abbrev pub auto_inc_write : ℕ
auto_inc_write = 2

abbrev pub auto_inc_both : ℕ
auto_inc_both = 3

-- `i2c_phase_t`
pub data Phase : Type 0 where
  idle rx_reg_addr rx_data tx : Phase

-- `i2c_slave_state_t`. The register map is the array that `regmap` points to.
pub record Slave : Type 0 where
  pub initialized : Bool
  pub regmap : List ℕ
  pub regmap_len : ℕ
  pub reg_addr_width : ℕ
  pub auto_inc_mode : ℕ
  pub auto_inc_wrap : Bool
  pub writes_allowed : Bool
  pub phase : Phase
  pub reg_ptr : ℕ
  pub reg_addr_acc : ℕ
  pub reg_addr_cnt : ℕ

-- The flags ADDR, RXNE, TXE, BTF and STOPF of SR1, TRA of SR2, and DR.
pub record Event : Type 0 where
  pub addr : Bool
  pub tra : Bool
  pub rxne : Bool
  pub txe : Bool
  pub btf : Bool
  pub stopf : Bool
  pub dr : ℕ

-- The increment of `regmap_read` and `regmap_write`, the same in both.
unfoldable pub next_ptr : Slave → ℕ
next_ptr s =
    if ltb (s.reg_ptr + 1) s.regmap_len
    then u16 (s.reg_ptr + 1)
    else (if s.auto_inc_wrap then 0 else s.reg_ptr)

-- `regmap_read`
unfoldable pub regmap_read : Slave → ℕ × Slave
unfolding next_ptr
regmap_read s = if leb s.regmap_len s.reg_ptr then (0, s) else (
  get_or s.regmap s.reg_ptr 0,
  if s.auto_inc_mode == auto_inc_read || s.auto_inc_mode == auto_inc_both
      then record s { reg_ptr = next_ptr s }
      else s,
)

-- `regmap_write`
unfoldable pub regmap_write : Slave → ℕ → Slave
unfolding next_ptr
regmap_write s byte =
    let s' = record s { regmap = set s.regmap s.reg_ptr byte } in
    if not s.writes_allowed || leb s.regmap_len s.reg_ptr
    then s
    else (if s.auto_inc_mode == auto_inc_write || s.auto_inc_mode == auto_inc_both
        then record s' { reg_ptr = next_ptr s }
        else s')

-- The branch of `ev_isr` under ADDR.
unfoldable pub on_addr : Slave → Bool → Slave
on_addr s true = record s { phase = Phase.tx }
on_addr s false =
    let s' = record s { reg_addr_acc = 0; reg_addr_cnt = 0 } in
    if s.reg_addr_width == reg_none
    then record s' { reg_ptr = 0; phase = Phase.rx_data }
    else record s' { phase = Phase.rx_reg_addr }

-- The bytes of a register address.
unfoldable pub expected : Slave → ℕ
expected s = if s.reg_addr_width == reg_16 then 2 else 1

-- A byte of the register address.
unfoldable pub on_reg_addr : Slave → ℕ → Slave
unfolding expected
on_reg_addr s byte =
    let acc = u16 (bit_or (s.reg_addr_acc << 8) byte) in
    let cnt = u8 (s.reg_addr_cnt + 1) in
    let s' = record s { reg_addr_acc = acc; reg_addr_cnt = cnt } in
    if leb (expected s) cnt then record s' { reg_ptr = acc; phase = Phase.rx_data } else s'

-- The branch of `ev_isr` under RXNE, by the phase.
unfoldable pub on_rxne : Phase → Slave → ℕ → Slave
unfolding on_reg_addr regmap_write
on_rxne Phase.rx_reg_addr s byte = on_reg_addr s byte
on_rxne Phase.rx_data s byte = regmap_write s byte
on_rxne _ s byte = s

-- The branch of `ev_isr` for TXE and BTF, by the phase: the state, and what it writes to DR.
unfoldable pub on_txe : Phase → Slave → Bool → Slave × Option ℕ
unfolding regmap_read
on_txe Phase.tx s true = let (byte, s') = regmap_read s in (s', some byte)
on_txe _ s _ = (s, none)

-- `ev_isr`
unfoldable pub ev_isr : Slave → Event → Slave × Option ℕ
unfolding on_addr on_rxne on_txe
ev_isr s e =
    let s₁ = if e.addr then on_addr s e.tra else s in
    let s₂ = if e.rxne then on_rxne s₁.phase s₁ (u8 e.dr) else s₁ in
    let (s₃, out) = on_txe s₂.phase s₂ (e.txe || e.btf) in
    (if e.stopf then record s₃ { phase = Phase.idle } else s₃, out)

-- `er_isr`
unfoldable pub er_isr : Slave → Slave
er_isr s = record s { phase = Phase.idle }
