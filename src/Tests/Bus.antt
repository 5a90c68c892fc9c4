-- ===== src/Tests/Bus.antt =====
-- Runs and instances for stm32/project/drivers/i2c_slave/src/i2c_slave.c.
use hilglebone.Base.{List, [], ◌∷◌, ◌≡◌, refl, arith, true, false, take, drop, replicate}
use hilglebone.I2cSlave.{
  Slave, Phase, Event, ev_isr, on_addr, on_rxne, on_txe, on_reg_addr, regmap_read, regmap_write,
  next_ptr, expected, auto_inc_both,
}
use hilglebone.I2cSlave.Access.{Irq, run, Fixed, run-Fixed}
use hilglebone.I2cSlave.Transaction.{combined_read, run-combined_read}
use hilglebone.I2cSlave.Transmit.{IsSending, data_wanted, run-registers}

-- Four registers with 8-bit addresses, idle.
abbrev sensor : Slave
sensor = record {
  initialized = true;
  regmap = 10 ∷ 11 ∷ 12 ∷ 13 ∷ [];
  regmap_len = 4;
  reg_addr_width = 1;
  auto_inc_mode = auto_inc_both;
  auto_inc_wrap = true;
  writes_allowed = true;
  phase = Phase.idle;
  reg_ptr = 0;
  reg_addr_acc = 0;
  reg_addr_cnt = 0;
}

abbrev quiet : Event
quiet = record {
  addr = false;
  tra = false;
  rxne = false;
  txe = false;
  btf = false;
  stopf = false;
  dr = 0;
}

-- Register 2 is written with 99 and the pointer moves on; then two registers are read from 2.
abbrev write_then_read : List Irq
write_then_read =
    Irq.event (record quiet { addr = true })
    ∷ Irq.event (record quiet { rxne = true; dr = 2 })
    ∷ Irq.event (record quiet { rxne = true; dr = 99 })
    ∷ Irq.event (record quiet { stopf = true })
    ∷ Irq.event (record quiet { addr = true })
    ∷ Irq.event (record quiet { rxne = true; dr = 2 })
    ∷ Irq.event (record quiet { addr = true; tra = true; txe = true })
    ∷ Irq.event data_wanted
    ∷ Irq.error
    ∷ []

bytes_read : (run sensor write_then_read).1 ≡ 99 ∷ 13 ∷ []
unfolding run ev_isr on_addr on_rxne on_txe on_reg_addr regmap_read regmap_write next_ptr expected
bytes_read = refl

run-Fixed_example : Fixed sensor (run sensor write_then_read).0
run-Fixed_example = run-Fixed sensor write_then_read

abbrev sending : Slave
sending = record sensor { phase = Phase.tx; reg_ptr = 1 }

sending-IsSending : IsSending sending
sending-IsSending = record {
  phase = refl;
  increments = refl;
  fits = omega arith;
  word = omega arith;
}

run-registers_example :
    (run sending (replicate 2 (Irq.event data_wanted))).1 ≡ take 2 (drop 1 sending.regmap)
run-registers_example = run-registers sending 2 sending-IsSending (omega arith)

run-combined_read_example : (run sensor (combined_read 1 3)).1 ≡ take 3 (drop 1 sensor.regmap)
run-combined_read_example =
    run-combined_read sensor 1 3 refl refl (omega arith) (omega arith) (omega arith) (omega arith)
