-- ===== src/Dispatcher/Outcome.antt =====
-- One answer of the dispatcher, and what it means for the table of sensors.
use mathlib.Core.Path.{subst}
use hilglebone.Base.{ℕ, ◌++◌, ◌≡◌, ◌≢◌, refl, sym, ap, ◌∙◌, true, false, take}
use hilglebone.Base.ErrCode.{ErrCode, is_success}
use hilglebone.Manager.{Manager, id_none, register, release}
use hilglebone.Protocol.Proto
use hilglebone.Protocol.Encoder.{send_ack}
use hilglebone.Protocol.Encoder.Send.{ack_bytes, Sends, send_ack-Sends}
use hilglebone.Ring.Laws.{contents}
use hilglebone.Uart.{Uart}
use hilglebone.Uart.Fifo.{IsUart, room}
use hilglebone.Dispatcher.{Board, reply}
use hilglebone.Dispatcher.Laws.{IsBoard}

-- What a command with this answer does to the table of sensors.
pub data Outcome (type : ℕ) (err : ErrCode) (id : ℕ) (m m' : Manager) : Type 0 where
  enrolled :
      (protocol_id internal_id : ℕ)
      → type ≡ Proto.type_cmd_setup_sensor
      → is_success err ≡ true
      → register m protocol_id internal_id ≡ (id, m')
      → id ≢ id_none
      → Outcome type err id m m'
  released :
      type ≡ Proto.type_cmd_stop_sensor
      → is_success err ≡ true
      → m' ≡ release m id
      → Outcome type err id m m'
  kept :
      (type ≡ Proto.type_cmd_setup_sensor → is_success err ≡ false)
      → (type ≡ Proto.type_cmd_stop_sensor → is_success err ≡ false)
      → m' ≡ m
      → Outcome type err id m m'

-- A command that is not of this type.
pub another : (k type : ℕ) (err : ErrCode) → type ≢ k → type ≡ k → is_success err ≡ false
another k type err ne e = absurd (ne e)

module _ {W : Type 0} (board : Board W) where
  -- One acknowledgement behind what the TX ring holds, as far as there is room, and its effect.
  pub record Handled (w : W) (type seq : ℕ) (w' : W) : Type 0 where
    pub err : ErrCode
    pub id : ℕ
    pub queued :
        contents (board.uart w').tx
        ≡ contents (board.uart w).tx ++ take (room (board.uart w)) (ack_bytes type err id seq)
    pub rx_same : (board.uart w').rx ≡ (board.uart w).rx
    pub uart : IsUart (board.uart w')
    pub table : Outcome type err id (board.manager w) (board.manager w')

  module _ (laws : IsBoard board) where
    -- An answer to a command whose work left the UART alone.
    pub reply-Handled :
        (w w₁ : W) (type seq : ℕ) (err : ErrCode) (id : ℕ)
        → IsUart (board.uart w)
        → board.uart w₁ ≡ board.uart w
        → Outcome type err id (board.manager w) (board.manager w₁)
        → Handled w type seq (reply board w₁ type err id seq)
    unfolding reply
    reply-Handled w w₁ type seq err id v same outcome =
        let u' : Uart = (send_ack (board.uart w₁) type err id seq).1 in
        let S : Sends (board.uart w) (ack_bytes type err id seq)
            (send_ack (board.uart w) type err id seq) =
          send_ack-Sends (board.uart w) type err id seq v in
        let e : board.uart (board.with_uart w₁ u') ≡ (send_ack (board.uart w) type err id seq).1 =
          laws.uart_set w₁ u' ∙ ap (λ u. (send_ack u type err id seq).1) same in
        record {
          err = err;
          id = id;
          queued = ap (λ u. contents u.tx) e ∙ S.queued;
          rx_same = ap (λ u. u.rx) e ∙ S.rx_same;
          uart = subst IsUart (sym e) S.uart;
          table =
              subst (Outcome type err id (board.manager w)) (sym (laws.manager_uart w₁ u')) outcome;
        }

    -- An answer without any effect on the table.
    pub refuse-Handled :
        (w : W) (type seq : ℕ) (err : ErrCode) (id : ℕ)
        → IsUart (board.uart w)
        → is_success err ≡ false
        → Handled w type seq (reply board w type err id seq)
    refuse-Handled w type seq err id v bad =
        reply-Handled w w type seq err id v refl (Outcome.kept (λ _. bad) (λ _. bad) refl)
