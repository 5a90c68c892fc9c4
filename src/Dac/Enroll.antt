-- ===== src/Dac/Enroll.antt =====
-- What the calls of stm32/project/simulate/dac/src/dac_sensor.c do to the sensor table.
use mathlib.Core.Path.{subst}
use hilglebone.Base.{
  ℕ, List, [], ◌∷◌, Bool, ◌≡◌, refl, sym, Bool-clash, if◌then◌else◌, ◌∙◌, inl, inr, Option-cases,
  Bool-cases, not, ◌&&◌, true, false,
}
use hilglebone.Manager.{Manager}
use hilglebone.Manager.Table.{IsManager}
use hilglebone.Manager.Enroll.{IsEnrollment, enrollment, enroll, flipped, IsKept, keeping}
use hilglebone.Gpio
use hilglebone.SpiMaster
use hilglebone.SpiMaster.{Event, Served, master_at, regs_at}
use hilglebone.Dac.{
  World, Chip, Config, Semaphores, chip_at, set_chip, frame_size, protocol_id, cmd_ref_setup,
  cmd_write_and_load, addr_ref, ref_data,
}
use hilglebone.Dac.Write.{
  connect_pins, serve, serve_all, spi_done_callback, chip_write, chip_teardown,
}
use hilglebone.Dac.Calls
use hilglebone.Dac.Calls.{
  chip_of, send, bring_up, load, setup_config, setup, set_output, stop, all_idle,
}

module _ {K H : Type 0} (service : Semaphores K H) where
  serve-manager :
      (w : World K H) (chip : Chip H) (e : Event) → (serve service w chip e).manager ≡ w.manager
  unfolding serve spi_done_callback
  serve-manager w chip e =
      let o : Served =
        SpiMaster.isr (master_at w.bus chip.periph) (regs_at w.bus chip.periph) chip.tx_buf e in
      elim (Bool-cases o.called) [ inl t ↦ rw (t, serve) refl | inr f ↦ rw (f, serve) refl ]

  serve_all-manager :
      (w : World K H) (chip : Chip H) (es : List Event)
      → (serve_all service w chip es).manager ≡ w.manager
  unfolding serve_all
  serve_all-manager w chip [] = refl
  serve_all-manager w chip (e ∷ es) =
      serve_all-manager (serve service w chip e) chip es ∙ serve-manager w chip e

  chip_write-IsKept :
      (w : World K H) (chip : Chip H) (es : List Event) (m : Manager)
      → w.manager ≡ m
      → IsKept (λ u. u.manager) m (chip_write service w chip es)
  unfolding chip_write
  chip_write-IsKept w chip es m e =
      let low = record w { gpio = Gpio.set_low w.gpio chip.cs_pin } in
      let (err, bus) = SpiMaster.write low.bus chip.periph frame_size in
      let kept_all = serve_all-manager (record low { bus = bus }) chip es ∙ e in
      search (keeping, kept_all) depth 8

  send-IsKept :
      (w : World K H) (p command address value : ℕ) (es : List Event) (m : Manager)
      → w.manager ≡ m
      → IsKept (λ u. u.manager) m (send service w p command address value es)
  unfolding send
  send-IsKept w p command address value es m e = chip_write-IsKept _ _ es m e

  idle-manager :
      (b : Bool) (w : World K H) (p : ℕ) (m : Manager)
      → w.manager ≡ m
      → (if b then chip_teardown service w p else w).manager ≡ m
  unfolding chip_teardown
  idle-manager true w p m e = e
  idle-manager false w p m e = e

  bring_up-IsKept :
      (w : World K H) (c : Config) (es : List Event)
      → IsKept (λ u. u.manager) w.manager (bring_up service w c es)
  unfolding bring_up chip_teardown
  bring_up-IsKept w c es = elim (Option-cases (service.create w.kernel).0) [
    | inl failed ↦ rw (failed, bring_up) (search keeping)
    | inr (sem, made) ↦
        let chip = chip_of (chip_at w c.periph) c sem in
        let k = (service.create w.kernel).1 in
        let bus = (SpiMaster.init w.bus c.periph c.clock_hz c.spi_mode).1 in
        let raised = record w { gpio = connect_pins w.gpio c; kernel = k; bus = bus } in
        let up = set_chip raised c.periph chip in
        let sent =
          (send-IsKept up c.periph cmd_ref_setup addr_ref (ref_data c.reference) es w.manager
            refl).same in
        rw (made, bring_up) (search (keeping, sent) depth 8)
  ]

  enroll-IsEnrollment :
      (w : World K H) (c : Config) (idx : ℕ) (m : Manager)
      → IsManager m
      → w.manager ≡ m
      → IsEnrollment (λ u. u.manager) protocol_id m (Calls.enroll service w c idx)
  unfolding Calls.enroll
  enroll-IsEnrollment w c idx m v e =
      let valid : IsManager w.manager = subst IsManager (sym e) v in
      let at_w : IsEnrollment (λ u. u.manager) protocol_id w.manager
          (Calls.enroll service w c idx) =
        enroll _ _ w.manager idx _ _ valid refl (idle-manager _ _ c.periph _ refl) in
      subst (λ x. IsEnrollment (λ u. u.manager) protocol_id x (Calls.enroll service w c idx)) e at_w

  load-IsEnrollment :
      (w : World K H) (c : Config) (idx : ℕ) (es : List Event) (m : Manager)
      → IsManager m
      → w.manager ≡ m
      → IsEnrollment (λ u. u.manager) protocol_id m (load service w c idx es)
  unfolding load
  load-IsEnrollment w c idx es m v e =
      let sent =
        (send-IsKept w c.periph cmd_write_and_load c.channel c.initial_value es m e).same in
      search (enrollment, enroll-IsEnrollment, idle-manager, sent) depth 8

  busy_fits : (a b : Bool) → a && not b ≡ true → b ≡ false
  busy_fits true b h = flipped b h
  busy_fits false b h = Bool-clash false h refl

  setup_config-IsEnrollment :
      (w : World K H) (c : Config) (ref_es es : List Event)
      → IsManager w.manager
      → IsEnrollment (λ u. u.manager) protocol_id w.manager (setup_config service w c ref_es es)
  unfolding setup_config
  setup_config-IsEnrollment w c ref_es es v =
      let raised = (bring_up-IsKept w c ref_es).same in
      search (enrollment, busy_fits, load-IsEnrollment, raised) depth 8

  pub setup-IsEnrollment :
      (w : World K H) (cfg : List ℕ) (cfg_len : ℕ) (ref_es es : List Event)
      → IsManager w.manager
      → IsEnrollment (λ u. u.manager) protocol_id w.manager (setup service w cfg cfg_len ref_es es)
  unfolding setup
  setup-IsEnrollment w cfg cfg_len ref_es es v =
      search (enrollment, setup_config-IsEnrollment) depth 8

  pub set_output-IsKept :
      (w : World K H) (id : ℕ) (values : List ℕ) (values_len : ℕ) (es : List Event)
      → IsKept (λ u. u.manager) w.manager (set_output service w id values values_len es)
  unfolding set_output
  set_output-IsKept w id values values_len es = search (keeping, send-IsKept) depth 8

  pub stop-IsKept : (w : World K H) (id : ℕ) → IsKept (λ u. u.manager) w.manager (stop service w id)
  unfolding stop
  stop-IsKept w id = search (keeping, idle-manager)
