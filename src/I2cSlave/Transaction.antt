-- ===== src/I2cSlave/Transaction.antt =====
-- A master's combined read: the register address in a write transfer, then a repeated start and a
-- read transfer.
use hilglebone.Base.Bits.{zero-bit_or}
use hilglebone.Base.{
  Bool, ℕ, ◌+◌, ◌≤◌, ◌<◌, ◌^◌, List, ◌∷◌, ◌≡◌, refl, ap, ◌∙◌, arith, true, false, ◌||◌, Option,
  some, none, ◌==◌, u8, u16, length, take, drop, replicate,
}
use hilglebone.I2cSlave.{
  reg_none, reg_16, Slave, Phase, Event, ev_isr, on_addr, on_rxne, on_txe, on_reg_addr, expected,
  auto_inc_read, auto_inc_both,
}
use hilglebone.I2cSlave.Access.{Irq, run}
use hilglebone.I2cSlave.Transmit.{data_wanted, run-registers}

abbrev quiet : Event
quiet = record data_wanted { txe = false }

-- The own address matched, for a write of the master or for a read.
abbrev pub addressed : Bool → Irq
addressed reading = Irq.event (record quiet { addr = true; tra = reading })

-- A byte from the master.
abbrev pub received : ℕ → Irq
received byte = Irq.event (record quiet { rxne = true; dr = byte })

-- The interrupts of a read of `n` bytes from the register `reg`.
abbrev pub combined_read : ℕ → ℕ → List Irq
combined_read reg n =
    addressed false ∷ received reg ∷ addressed true ∷ replicate n (Irq.event data_wanted)

run-silent :
    (s s' : Slave) (e : Event) (rest : List Irq)
    → ev_isr s e ≡ (s', none)
    → (run s (Irq.event e ∷ rest)).1 ≡ (run s' rest).1
unfolding run
run-silent s s' e rest h =
    ap
      (λ (r : Slave × Option ℕ). elim r.1 [
        | none ↦ (run r.0 rest).1
        | some byte ↦ byte ∷ (run r.0 rest).1
      ])
      h

-- The slave behind its own address, and behind the register address.
abbrev waiting : Slave → Slave
waiting s = record s { phase = Phase.rx_reg_addr; reg_addr_acc = 0; reg_addr_cnt = 0 }

abbrev pointed : Slave → ℕ → Slave
pointed s reg = record s {
  phase = Phase.rx_data;
  reg_ptr = reg;
  reg_addr_acc = reg;
  reg_addr_cnt = 1;
}

matched :
    (s : Slave) → s.reg_addr_width ≡ 1 → ev_isr s (record quiet { addr = true }) ≡ (waiting s, none)
unfolding ev_isr on_addr on_txe on_rxne
matched s w =
    let wide : (s.reg_addr_width == reg_none) ≡ false = ground arith in
    let e : on_addr s false ≡ waiting s = rw (on_addr, wide) refl in
    ap (λ (x : Slave). ((on_txe x.phase x false).0, (on_txe x.phase x false).1)) e

selected :
    (s : Slave) (reg : ℕ)
    → s.reg_addr_width ≡ 1
    → reg < 256
    → ev_isr (waiting s) (record quiet { rxne = true; dr = reg }) ≡ (pointed s reg, none)
unfolding ev_isr on_addr on_txe on_rxne on_reg_addr expected
selected s reg w h =
    let narrow : (s.reg_addr_width == reg_16) ≡ false = ground arith in
    let byte : u8 reg ≡ reg = omega arith in
    let word : u16 reg ≡ reg = omega arith in
    let e : on_reg_addr (waiting s) reg ≡ pointed s reg =
      rw (on_reg_addr, expected, narrow, zero-bit_or reg, word) refl in
    rw byte (ap (λ (x : Slave). ((on_txe x.phase x false).0, (on_txe x.phase x false).1)) e)

-- With 8-bit register addresses, the increment on reads and a register map in memory that is as
-- long as announced, below 65536 registers, a master that addresses register `reg` and reads `n`
-- bytes gets the `n` registers from `reg` on, as long as they end within the register map,
-- whatever the slave did before.
pub run-combined_read :
    (s : Slave) (reg n : ℕ)
    → s.reg_addr_width ≡ 1
    → (s.auto_inc_mode == auto_inc_read || s.auto_inc_mode == auto_inc_both) ≡ true
    → s.regmap_len ≤ length s.regmap
    → s.regmap_len < 2 ^ 16
    → reg < 256
    → reg + n ≤ s.regmap_len
    → (run s (combined_read reg n)).1 ≡ take n (drop reg s.regmap)
unfolding ev_isr on_addr on_txe on_rxne
run-combined_read s reg n w inc fits word h range =
    let bytes : List Irq = replicate n (Irq.event data_wanted) in
    let s₃ : Slave = record (pointed s reg) { phase = Phase.tx } in
    run-silent s (waiting s) _ (received reg ∷ addressed true ∷ bytes) (matched s w)
    ∙ run-silent (waiting s) (pointed s reg) _ (addressed true ∷ bytes) (selected s reg w h)
    ∙ run-silent (pointed s reg) s₃ (record quiet { addr = true; tra = true }) bytes refl
    ∙ run-registers s₃ n (record { phase = refl; increments = inc; fits = fits; word = word }) range
