-- ===== src/Dispatcher/Laws.antt =====
-- What the dispatcher relies on in its backends, the sensor manager and the UART.
use hilglebone.Base.{ℕ, List, ◌≡◌, ◌≢◌, true, false}
use hilglebone.Base.ErrCode.{ErrCode, is_success}
use hilglebone.Manager.{Manager, id_none, register}
use hilglebone.Manager.Table.{IsManager}
use hilglebone.Uart.{Uart}
use hilglebone.Dispatcher.{Board, Backend, id_i2c, id_spi, id_digital_out, id_dac, id_pwm}

module _ {W : Type 0} (board : Board W) where
  -- A setup that succeeds registers one sensor of its protocol; one that is refused leaves the table.
  pub record SetsUp (protocol_id : ℕ) (w : W) (out : ErrCode × ℕ × W) : Type 0 where
    pub uart : board.uart out.2 ≡ board.uart w
    pub enrolled :
        is_success out.0 ≡ true
        → (internal_id : ℕ) × ((register (board.manager w) protocol_id internal_id
              ≡ (out.1, board.manager out.2))
            × (out.1 ≢ id_none))
    pub refused : is_success out.0 ≡ false → board.manager out.2 ≡ board.manager w

  -- A call that leaves the table and the UART alone.
  pub record Leaves (w w' : W) : Type 0 where
    pub uart : board.uart w' ≡ board.uart w
    pub manager : board.manager w' ≡ board.manager w

  pub record Enrolls (b : Backend W) (protocol_id : ℕ) : Type 0 where
    pub setup :
        (w : W) (cfg : List ℕ) (cfg_len : ℕ)
        → IsManager (board.manager w)
        → SetsUp protocol_id w (b.setup w cfg cfg_len)
    pub set_output :
        (w : W) (id : ℕ) (values : List ℕ) (values_len : ℕ)
        → Leaves w (b.set_output w id values values_len).1
    pub stop : (w : W) (id : ℕ) → Leaves w (b.stop w id).1

  pub record IsBoard : Type 0 where
    pub manager_set : (w : W) (m : Manager) → board.manager (board.with_manager w m) ≡ m
    pub manager_uart : (w : W) (u : Uart) → board.manager (board.with_uart w u) ≡ board.manager w
    pub uart_set : (w : W) (u : Uart) → board.uart (board.with_uart w u) ≡ u
    pub uart_manager : (w : W) (m : Manager) → board.uart (board.with_manager w m) ≡ board.uart w
    pub i2c : Enrolls (board.i2c) id_i2c
    pub digital_out : Enrolls (board.digital_out) id_digital_out
    pub pwm : Enrolls (board.pwm) id_pwm
    pub dac : Enrolls (board.dac) id_dac
    pub spi : Enrolls (board.spi) id_spi
