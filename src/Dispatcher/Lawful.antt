-- ===== src/Dispatcher/Lawful.antt =====
-- The laws of the dispatcher (stm32/project/command/src/dispatcher.c) for the board of the firmware.
use mathlib.Core.Path.{subst}
use hilglebone.Base.{ℕ, List, ◌≡◌, refl, sym, ◌∙◌}
use hilglebone.Base.ErrCode.{ErrCode}
use hilglebone.Manager.{Manager}
use hilglebone.Manager.Table.{IsManager}
use hilglebone.Manager.Enroll.{IsEnrollment, IsKept}
use hilglebone.I2cSensor.Enroll as I2cTable
use hilglebone.DigitalOut.Enroll as DigitalTable
use hilglebone.Pwm.Enroll as PwmTable
use hilglebone.Dac.Enroll as DacTable
use hilglebone.SpiSensor.Enroll as SpiTable
use hilglebone.Dispatcher.{Board, id_i2c, id_spi, id_digital_out, id_dac, id_pwm}
use hilglebone.Dispatcher.Laws.{IsBoard, Enrolls, SetsUp, Leaves}
use hilglebone.Dispatcher.Firmware.{
  Environment, firmware, on_part, i2c_part, with_i2c, digital_part, with_digital, pwm_part,
  with_pwm, dac_part, with_dac, spi_part, with_spi,
}

module _ {W V : Type 0} (board : Board W) (part : W → V) (with_part : W → V → W)
    (table : V → Manager) where
  -- A part of the state whose table is the one of the board, and that does not hold the UART.
  record IsPart : Type 0 where
    part_table : (w : W) → table (part w) ≡ board.manager w
    with_table : (w : W) (v : V) → board.manager (with_part w v) ≡ table v
    with_uart : (w : W) (v : V) → board.uart (with_part w v) ≡ board.uart w

  module _ (p : IsPart) where
    enrollment-SetsUp :
        (protocol_id : ℕ) (w : W) (out : ErrCode × ℕ × V)
        → IsEnrollment table protocol_id (table (part w)) out
        → SetsUp board protocol_id w (out.0, out.1, with_part w out.2)
    enrollment-SetsUp protocol_id w out E = record {
      uart = p.with_uart w out.2;
      enrolled = λ ok.
          let (i, (registered, live)) = E.enrolled ok in
          (i, (rw (sym (p.part_table w), p.with_table w out.2) registered, live));
      refused = λ bad. p.with_table w out.2 ∙ E.refused bad ∙ p.part_table w;
    }

    kept-Leaves :
        (w : W) (out : ErrCode × V)
        → IsKept table (table (part w)) out
        → Leaves board w (with_part w out.1)
    kept-Leaves w out kept = record {
      uart = p.with_uart w out.1;
      manager = p.with_table w out.1 ∙ kept.same ∙ p.part_table w;
    }

    on_part-Enrolls :
        (protocol_id : ℕ) (init : V → V) (setup : W → V → List ℕ → ℕ → ErrCode × ℕ × V)
        (set_output : W → V → ℕ → List ℕ → ℕ → ErrCode × V) (stop : V → ℕ → ErrCode × V)
        → ((w : W) (cfg : List ℕ) (cfg_len : ℕ)
            → IsManager (table (part w))
            → IsEnrollment table protocol_id (table (part w)) (setup w (part w) cfg cfg_len))
        → ((w : W) (id : ℕ) (values : List ℕ) (values_len : ℕ)
            → IsKept table (table (part w)) (set_output w (part w) id values values_len))
        → ((w : W) (id : ℕ) → IsKept table (table (part w)) (stop (part w) id))
        → Enrolls board (on_part part with_part init setup set_output stop) protocol_id
    unfolding on_part
    on_part-Enrolls protocol_id init setup set_output stop enrolls writes stops = record {
      setup = λ w cfg cfg_len v.
          enrollment-SetsUp protocol_id w (setup w (part w) cfg cfg_len)
            (enrolls w cfg cfg_len (subst IsManager (sym (p.part_table w)) v));
      set_output = λ w id values values_len. kept-Leaves w _ (writes w id values values_len);
      stop = λ w id. kept-Leaves w _ (stops w id);
    }

module _ {K T S : Type 0} (env : Environment K T S) where
  -- Whatever the kernel does, the allocator answers and the SPI interrupts are, the backends of the
  -- firmware keep the laws of the board.
  pub firmware-IsBoard : IsBoard (firmware env)
  unfolding firmware
  firmware-IsBoard = record {
    manager_set = λ w m. refl;
    manager_uart = λ w u. refl;
    uart_set = λ w u. refl;
    uart_manager = λ w m. refl;
    i2c =
        on_part-Enrolls (firmware env) i2c_part with_i2c (λ v. v.manager)
          (record { part_table = λ w. refl; with_table = λ w v. refl; with_uart = λ w v. refl })
          id_i2c _ _ _ _
          (λ w cfg cfg_len v.
            I2cTable.setup-IsEnrollment (i2c_part w) cfg cfg_len (env.heap w.kernel) v)
          (λ w id values n. I2cTable.set_output-IsKept (i2c_part w) id values n)
          (λ w id. I2cTable.stop-IsKept (i2c_part w) id);
    digital_out =
        on_part-Enrolls (firmware env) digital_part with_digital (λ v. v.manager)
          (record { part_table = λ w. refl; with_table = λ w v. refl; with_uart = λ w v. refl })
          id_digital_out _ _ _ _
          (λ w cfg cfg_len v. DigitalTable.setup-IsEnrollment (digital_part w) cfg cfg_len v)
          (λ w id values n. DigitalTable.set_output-IsKept env.timers (digital_part w) id values n)
          (λ w id. DigitalTable.stop-IsKept env.timers (digital_part w) id);
    pwm =
        on_part-Enrolls (firmware env) pwm_part with_pwm (λ v. v.manager)
          (record { part_table = λ w. refl; with_table = λ w v. refl; with_uart = λ w v. refl })
          id_pwm _ _ _ _ (λ w cfg cfg_len v. PwmTable.setup-IsEnrollment (pwm_part w) cfg cfg_len v)
          (λ w id values n. PwmTable.set_output-IsKept (pwm_part w) id values n)
          (λ w id. PwmTable.stop-IsKept (pwm_part w) id);
    dac =
        on_part-Enrolls (firmware env) dac_part with_dac (λ v. v.manager)
          (record { part_table = λ w. refl; with_table = λ w v. refl; with_uart = λ w v. refl })
          id_dac _ _ _ _
          (λ w cfg cfg_len v.
            DacTable.setup-IsEnrollment env.semaphores (dac_part w) cfg cfg_len
              (env.first_write w.kernel) (env.second_write w.kernel) v)
          (λ w id values n.
            DacTable.set_output-IsKept env.semaphores (dac_part w) id values n
              (env.first_write w.kernel))
          (λ w id. DacTable.stop-IsKept env.semaphores (dac_part w) id);
    spi =
        on_part-Enrolls (firmware env) spi_part with_spi (λ v. v.manager)
          (record { part_table = λ w. refl; with_table = λ w v. refl; with_uart = λ w v. refl })
          id_spi _ _ _ _ (λ w cfg cfg_len v. SpiTable.setup-IsEnrollment (spi_part w) cfg cfg_len v)
          (λ w id values n. SpiTable.set_output-IsKept (spi_part w) id values n)
          (λ w id. SpiTable.stop-IsKept (spi_part w) id);
  }
