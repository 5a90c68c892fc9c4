-- ===== src/Dispatcher/Commands.antt =====
-- handle_setup, handle_set_output and handle_stop are answered once each.
use mathlib.Core.Option.{some-injective}
use mathlib.Core.Path.{subst}
use hilglebone.Base.{
  ℕ, ◌-◌, List, ◌≡◌, refl, sym, ap, ◌∙◌, arith, inl, inr, Bool, Bool-cases, Option-cases, Option,
  some, ltb, ◌==◌, ==_iff, u16, if◌then◌else◌, get_or, drop,
}
use hilglebone.Base.ErrCode.{ErrCode, is_success}
use hilglebone.Manager.{id_none, release, lookup, slot_at}
use hilglebone.Manager.Table.{IsManager}
use hilglebone.Protocol.Proto
use hilglebone.Protocol.Parser.{ParsedFrame}
use hilglebone.Uart.Fifo.{IsUart}
use hilglebone.Dispatcher.{
  Board, Backend, backend_of, handle_setup, handle_set_output, handle_stop, output_at, stop_at,
  header_size, id_i2c, id_spi, id_digital_out, id_dac, id_pwm,
}
use hilglebone.Dispatcher.Laws.{IsBoard, Enrolls, SetsUp, Leaves}
use hilglebone.Dispatcher.Outcome.{Outcome, Handled, reply-Handled, refuse-Handled, another}

module _ {W : Type 0} (board : Board W) (laws : IsBoard board) where
  pick-Enrolls :
      (k protocol_id : ℕ) (b₀ b : Backend W) (rest : Option (Backend W))
      → Enrolls board b₀ k
      → (rest ≡ some b → Enrolls board b protocol_id)
      → (if protocol_id == k then some b₀ else rest) ≡ some b
      → Enrolls board b protocol_id
  pick-Enrolls k protocol_id b₀ b rest E later h = elim (Bool-cases (protocol_id == k)) [
    | inl e ↦
        let pick = λ (t : Bool). if t then some b₀ else rest in
        let same : b₀ ≡ b = some-injective b₀ b (sym (ap pick e) ∙ h) in
        subst (λ x. Enrolls board x protocol_id) same
          (subst (λ n. Enrolls board b₀ n) (sym ((==_iff protocol_id k).0 e)) E)
    | inr e ↦ let pick = λ (t : Bool). if t then some b₀ else rest in later (sym (ap pick e) ∙ h)
  ]

  -- Whatever backend the switch picks, it registers under its protocol.
  backend_of-Enrolls :
      (protocol_id : ℕ) (b : Backend W)
      → backend_of board protocol_id ≡ some b
      → Enrolls board b protocol_id
  unfolding backend_of
  backend_of-Enrolls protocol_id b h =
      pick-Enrolls id_i2c protocol_id board.i2c b _ laws.i2c
        (pick-Enrolls id_digital_out protocol_id board.digital_out b _ laws.digital_out (
          pick-Enrolls id_pwm protocol_id board.pwm b _ laws.pwm (
            pick-Enrolls id_dac protocol_id board.dac b _ laws.dac
              (pick-Enrolls id_spi protocol_id board.spi b _ laws.spi (λ e. absurd (cc e))))))
        h

  setup-Outcome :
      (w : W) (protocol_id : ℕ) (out : ErrCode × ℕ × W)
      → SetsUp board protocol_id w out
      → Outcome Proto.type_cmd_setup_sensor out.0
          (if is_success out.0 then out.1 else id_none)
          (board.manager w)
          (board.manager out.2)
  setup-Outcome w protocol_id out S = elim (Bool-cases (is_success out.0)) [
    | inl ok ↦
        let (q, (e, live)) = S.enrolled ok in rw ok (Outcome.enrolled protocol_id q refl ok e live)
    | inr bad ↦ rw bad (Outcome.kept (λ _. bad) (λ t. absurd (omega (arith, t))) (S.refused bad))
  ]

  pub setup-Handled :
      (w : W) (f : ParsedFrame)
      → IsUart (board.uart w)
      → IsManager (board.manager w)
      → Handled board w Proto.type_cmd_setup_sensor f.seq (handle_setup board w f)
  unfolding handle_setup
  setup-Handled w f v m = elim (Bool-cases (ltb f.len header_size)) [
    | inl short ↦
        rw (handle_setup, short)
          (refuse-Handled board laws w _ f.seq ErrCode.malformed_payload id_none v refl)
    | inr long ↦ elim (Option-cases (backend_of board (get_or f.payload 0 0))) [
      | inl unknown ↦
          rw (handle_setup, long, unknown)
            (refuse-Handled board laws w _ f.seq ErrCode.unsupported id_none v refl)
      | inr (b, known) ↦
          let E = backend_of-Enrolls (get_or f.payload 0 0) b known in
          let out = b.setup w (drop header_size f.payload) (u16 (f.len - header_size)) in
          let S = E.setup w (drop header_size f.payload) (u16 (f.len - header_size)) m in
          rw (handle_setup, long, known)
            (reply-Handled board laws w out.2 Proto.type_cmd_setup_sensor f.seq out.0 _ v S.uart
              (setup-Outcome w (get_or f.payload 0 0) out S))
    ]
  ]

  output_at-Leaves :
      (w : W) (i : ℕ) (values : List ℕ) (values_len : ℕ)
      → Leaves board w (output_at board w i values values_len).1
  unfolding output_at
  output_at-Leaves w i values values_len =
      let slot = slot_at (board.manager w) i in
      elim (Option-cases (backend_of board slot.protocol_id)) [
        | inl unknown ↦ rw (output_at, unknown) (record { uart = refl; manager = refl })
        | inr (b, known) ↦
            rw (output_at, known)
              ((backend_of-Enrolls slot.protocol_id b known).set_output w slot.internal_id values
                values_len)
      ]

  pub output-Handled :
      (w : W) (f : ParsedFrame)
      → IsUart (board.uart w)
      → Handled board w Proto.type_cmd_set_output f.seq (handle_set_output board w f)
  unfolding handle_set_output
  output-Handled w f v = elim (Bool-cases (ltb f.len header_size)) [
    | inl short ↦
        rw (handle_set_output, short)
          (refuse-Handled board laws w _ f.seq ErrCode.malformed_payload id_none v refl)
    | inr long ↦ elim (Option-cases (lookup (board.manager w) (get_or f.payload 0 0))) [
      | inl unknown ↦
          rw (handle_set_output, long, unknown)
            (refuse-Handled board laws w _ f.seq ErrCode.invalid_sensor_id (get_or f.payload 0 0) v
              refl)
      | inr (i, known) ↦
          let out = output_at board w i (drop header_size f.payload) (u16 (f.len - header_size)) in
          let L = output_at-Leaves w i (drop header_size f.payload) (u16 (f.len - header_size)) in
          rw (handle_set_output, long, known)
            (reply-Handled board laws w out.1 Proto.type_cmd_set_output f.seq out.0
              (get_or f.payload 0 0) v L.uart
              (Outcome.kept (another 1 2 out.0 (λ e. omega arith))
                (another 3 2 out.0 (λ e. omega arith)) L.manager))
    ]
  ]

  -- What `handle_stop` does for a slot.
  record Stopped (w : W) (id : ℕ) (out : ErrCode × W) : Type 0 where
    uart : board.uart out.1 ≡ board.uart w
    table : Outcome Proto.type_cmd_stop_sensor out.0 id (board.manager w) (board.manager out.1)

  release-Stopped :
      (w : W) (id : ℕ) (out : ErrCode × W)
      → Leaves board w out.1
      → Stopped w id (
        out.0,
        if is_success out.0
            then board.with_manager out.1 (release (board.manager out.1) id)
            else out.1,
      )
  release-Stopped w id out L = elim (Bool-cases (is_success out.0)) [
    | inl ok ↦
        let m' = release (board.manager out.1) id in
        rw ok (record {
          uart = laws.uart_manager out.1 m' ∙ L.uart;
          table =
              Outcome.released refl ok
                (laws.manager_set out.1 m' ∙ ap (λ m. release m id) L.manager);
        })
    | inr bad ↦ rw bad (record {
      uart = L.uart;
      table = Outcome.kept (λ t. absurd (omega (arith, t))) (λ _. bad) L.manager;
    })
  ]

  stop_at-Stopped : (w : W) (i id : ℕ) → Stopped w id (stop_at board w i id)
  unfolding stop_at
  stop_at-Stopped w i id =
      let slot = slot_at (board.manager w) i in
      elim (Option-cases (backend_of board slot.protocol_id)) [
        | inl unknown ↦
            rw (stop_at, unknown)
              (record {
                uart = refl;
                table = Outcome.kept (λ t. absurd (omega (arith, t))) (λ _. refl) refl;
              })
        | inr (b, known) ↦
            rw (stop_at, known)
              (release-Stopped w id (b.stop w slot.internal_id)
                ((backend_of-Enrolls slot.protocol_id b known).stop w slot.internal_id))
      ]

  pub stop-Handled :
      (w : W) (f : ParsedFrame)
      → IsUart (board.uart w)
      → Handled board w Proto.type_cmd_stop_sensor f.seq (handle_stop board w f)
  unfolding handle_stop
  stop-Handled w f v = elim (Bool-cases (ltb f.len header_size)) [
    | inl short ↦
        rw (handle_stop, short)
          (refuse-Handled board laws w _ f.seq ErrCode.malformed_payload id_none v refl)
    | inr long ↦ elim (Option-cases (lookup (board.manager w) (get_or f.payload 0 0))) [
      | inl unknown ↦
          rw (handle_stop, long, unknown)
            (refuse-Handled board laws w _ f.seq ErrCode.invalid_sensor_id (get_or f.payload 0 0) v
              refl)
      | inr (i, known) ↦
          let id = get_or f.payload 0 0 in
          let S = stop_at-Stopped w i id in
          rw (handle_stop, long, known)
            (reply-Handled board laws w (stop_at board w i id).1 Proto.type_cmd_stop_sensor f.seq
              (stop_at board w i id).0 id v S.uart S.table)
    ]
  ]
