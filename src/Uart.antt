-- ===== src/Uart.antt =====
-- stm32/project/drivers/uart/src/uart.c: the two rings between the protocol task and the USART1
-- interrupt, and the functions on them. The registers that matter here are the flags of SR and DR,
-- which the interrupt reads (its arguments), DR as it is written (its result) and the TXEIE bit.
pub mod Fifo
pub mod Trace
use hilglebone.Base.{ℕ, suc, ◌+◌, ◌-◌, ◌%◌, ◌^◌, ◌<◌, List, [], ◌∷◌, Bool, true, false, not, ◌&&◌}
use hilglebone.Base.{Option, none, some, u8, ltb, ◌==◌, if◌then◌else◌, replicate}
use hilglebone.Base.ErrCode.{ErrCode}
use hilglebone.Ring.{Ring, is_full, is_empty, put, front, advance, size}

-- The static variables of uart.c; `notify` says that a task is registered, and `notified` counts
-- the calls of `vTaskNotifyGiveFromISR`.
pub record Uart : Type 0 where
  pub rx : Ring
  pub tx : Ring
  pub txeie : Bool
  pub notify : Bool
  pub notified : ℕ

-- Static storage is zero before `uart_init` and after it.
abbrev pub initial : Uart
initial = record {
  rx = record { buf = replicate size 0; head = 0; tail = 0 };
  tx = record { buf = replicate size 0; head = 0; tail = 0 };
  txeie = false;
  notify = false;
  notified = 0;
}

-- `uart_set_rx_notify_task`; `task` is whether the handle is a task, and not NULL.
unfoldable pub set_rx_notify_task : Uart → Bool → Uart
set_rx_notify_task u task = record u { notify = task }

-- `uart_rx_pop`: the status, the byte behind `out` if one was stored, and the new state.
unfoldable pub rx_pop : Uart → ErrCode × Option ℕ × Uart
rx_pop u =
    if is_empty u.rx
    then (ErrCode.empty, none, u)
    else (ErrCode.success, some (front u.rx), record u { rx = advance u.rx })

-- The loop of `uart_tx_push`, with `pushed` bytes done and `data[pushed..len)` left.
push_from : Ring → List ℕ → ℕ → Ring × ℕ
push_from r [] pushed = (r, pushed)
push_from r (b ∷ rest) pushed =
    let more = push_from (put r b) rest (pushed + 1) in if is_full r then (r, pushed) else more

-- `uart_tx_push`: the status, `*out_pushed` and the new state.
unfoldable pub tx_push : Uart → List ℕ → ErrCode × ℕ × Uart
unfolding push_from
tx_push u bytes =
    let (tx', pushed) = push_from u.tx bytes 0 in
    (ErrCode.success, pushed, record u { tx = tx'; txeie = if ltb 0 pushed then true else u.txeie })

-- What the interrupt reads: the flags of SR, and DR.
pub record Usart : Type 0 where
  pub rxne : Bool
  pub ore : Bool
  pub txe : Bool
  pub dr : ℕ

-- The branch on RXNE. The branch on ORE only reads DR.
irq_rx : Uart → Usart → Uart
irq_rx u hw =
    if hw.rxne
    then record u {
      rx = if is_full u.rx then u.rx else put u.rx (u8 hw.dr);
      notified = if u.notify then u.notified + 1 else u.notified;
    }
    else u

-- The branch on TXE, with the byte written to DR.
irq_tx : Uart → Usart → Uart × Option ℕ
irq_tx u hw =
    if hw.txe && u.txeie
    then if is_empty u.tx
      then (record u { txeie = false }, none)
      else (record u { tx = advance u.tx }, some (front u.tx))
    else (u, none)

-- `USART1_IRQHandler`
unfoldable pub irq_handler : Uart → Usart → Uart × Option ℕ
unfolding irq_rx irq_tx
irq_handler u hw = irq_tx (irq_rx u hw) hw
