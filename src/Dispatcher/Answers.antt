-- ===== src/Dispatcher/Answers.antt =====
-- The answers of stm32/project/command/src/dispatcher.c to a command.
use mathlib.Core.Path.{subst}
use hilglebone.Base.{◌≡◌, refl, sym, arith, inl, inr, Bool-cases, ◌==◌, ==_iff}
use hilglebone.Base.ErrCode.{ErrCode}
use hilglebone.Manager.{id_none}
use hilglebone.Manager.Table.{IsManager}
use hilglebone.Protocol.Proto
use hilglebone.Protocol.Parser.{ParsedFrame}
use hilglebone.Uart.Fifo.{IsUart}
use hilglebone.Dispatcher.{Board, handle, handle_sync}
use hilglebone.Dispatcher.Laws.{IsBoard}
use hilglebone.Dispatcher.Outcome.{Outcome, Handled, reply-Handled, refuse-Handled, another}
use hilglebone.Dispatcher.Commands.{setup-Handled, output-Handled, stop-Handled}

module _ {W : Type 0} (board : Board W) (laws : IsBoard board) where
  -- Given backends that keep the laws of the board, a valid UART state and a well-formed table of
  -- sensors, `dispatcher_handle` answers a frame by one RSP_ACK with its type and sequence number,
  -- queued as far as the TX ring has room, leaves the RX ring alone, and changes the table only as the
  -- status in the answer says: a sensor enrolled, one released, or nothing.
  pub handle-Handled :
      (w : W) (f : ParsedFrame)
      → IsUart (board.uart w)
      → IsManager (board.manager w)
      → Handled board w f.type f.seq (handle board w f)
  unfolding handle handle_sync
  handle-Handled w f v m = elim (Bool-cases (f.type == Proto.type_cmd_sync)) [
    | inl sync ↦
        let e : f.type ≡ 5 = (==_iff f.type 5).0 sync in
        subst (λ t. Handled board w t f.seq (handle board w f)) (sym e)
          (rw (handle, sync)
            (reply-Handled board laws w w 5 f.seq ErrCode.success id_none v refl (
              Outcome.kept (another 1 5 ErrCode.success (λ e. omega arith))
                (another 3 5 ErrCode.success (λ e. omega arith)) refl)))
    | inr a ↦ elim (Bool-cases (f.type == Proto.type_cmd_setup_sensor)) [
      | inl setup ↦
          let e : f.type ≡ 1 = (==_iff f.type 1).0 setup in
          subst (λ t. Handled board w t f.seq (handle board w f)) (sym e)
            (rw (handle, a, setup) (setup-Handled board laws w f v m))
      | inr b ↦ elim (Bool-cases (f.type == Proto.type_cmd_set_output)) [
        | inl output ↦
            let e : f.type ≡ 2 = (==_iff f.type 2).0 output in
            subst (λ t. Handled board w t f.seq (handle board w f)) (sym e)
              (rw (handle, a, b, output) (output-Handled board laws w f v))
        | inr c ↦ elim (Bool-cases (f.type == Proto.type_cmd_stop_sensor)) [
          | inl stop ↦
              let e : f.type ≡ 3 = (==_iff f.type 3).0 stop in
              subst (λ t. Handled board w t f.seq (handle board w f)) (sym e)
                (rw (handle, a, b, c, stop) (stop-Handled board laws w f v))
          | inr d ↦ elim (Bool-cases (f.type == Proto.type_cmd_scenario)) [
            | inl scenario ↦
                rw (handle, a, b, c, d, scenario)
                  (refuse-Handled board laws w f.type f.seq ErrCode.not_implemented id_none v refl)
            | inr unknown ↦
                rw (handle, a, b, c, d, unknown)
                  (refuse-Handled board laws w f.type f.seq ErrCode.unknown_cmd id_none v refl)
          ]
        ]
      ]
    ]
  ]
