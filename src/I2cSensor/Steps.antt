-- ===== src/I2cSensor/Steps.antt =====
-- The calls of i2c_sensor.c and the interrupts of the peripherals, in any order.
use hilglebone.Base.{
  ℕ, ◌≤◌, ◌<◌, List, ◌≡◌, refl, sym, ap, ◌∙◌, inl, inr, arith, Bool, true, not, Bool-cases, length,
  set, set-get_or, leb, ◌||◌,
}
use mathlib.Core.Path.{subst}
use hilglebone.Base.ErrCode.{is_success}
use hilglebone.I2cSlave.{Slave}
use hilglebone.I2cSlave.Access.{Irq, run, run-Fixed}
use hilglebone.I2cSlave.Control.{slave_at}
use hilglebone.I2cSensor.{World, sensor_at, unused}
use hilglebone.I2cSensor.Calls.{setup, set_output, stop, written}
use hilglebone.I2cSensor.Paired.{IsBackend, update-IsBackend}
use hilglebone.I2cSensor.Setup.{detach-IsBackend, setup-IsBackend}
use hilglebone.I2cSensor.{sensor_max_count}
use hilglebone.I2cSensor.Setup.{setup-IsBackend, detach-IsBackend}
use hilglebone.I2cSensor.Output.{
  output-Target, set_output-written, set_output-refused, written-IsWritten, written-filled_slave,
  filled_slave,
}
use hilglebone.I2cSlave.Access.{Fixed}

-- The interrupts of a peripheral between two calls.
abbrev pub interrupted : World → ℕ → List Irq → World
interrupted w periph irqs = record w {
  driver = record w.driver {
    slaves = set w.driver.slaves periph (run (slave_at w.driver periph) irqs).0;
  };
}

-- A call with a buffer of at least the announced length, or interrupts.
pub data Step : World → World → Type 0 where
  sets_up :
      (w : World) (cfg : List ℕ) (cfg_len : ℕ) (heap : Bool)
      → cfg_len ≤ length cfg
      → Step w (setup w cfg cfg_len heap).2
  sets_output :
      (w : World) (id : ℕ) (values : List ℕ) (values_len : ℕ)
      → values_len ≤ length values
      → Step w (set_output w id values values_len).1
  stops : (w : World) (id : ℕ) → Step w (stop w id).1
  serves :
      (w : World) (periph : ℕ) (irqs : List Irq) → periph < 3 → Step w (interrupted w periph irqs)

stop-IsBackend : (w : World) (id : ℕ) → IsBackend w → IsBackend (stop w id).1
unfolding stop
stop-IsBackend w id B = elim (Bool-cases (leb sensor_max_count id || not (sensor_at w id).in_use)) [
  | inl refused ↦ rw (stop, refused) B
  | inr fine ↦
      let inside : id < 3 = ground (arith, fine) in
      let live : (sensor_at w id).in_use ≡ true = ground (arith, fine) in
      rw (stop, fine)
        (detach-IsBackend w id (sensor_at w id) B inside ((B.pairs id inside).periph live))
]

-- The state of the driver changes, the registers that the setup fixed do not.
driver-IsBackend :
    (w w' : World) (id : ℕ) (p : Slave)
    → IsBackend w
    → id < 3
    → w'.states ≡ w.states
    → w'.driver.slaves ≡ set w.driver.slaves id p
    → p.initialized ≡ (slave_at w.driver id).initialized
    → p.regmap_len ≡ (slave_at w.driver id).regmap_len
    → length p.regmap ≡ length (slave_at w.driver id).regmap
    → IsBackend w'
driver-IsBackend w w' id p B h es ep init len size =
    let P = B.pairs id h in
    update-IsBackend w w' id (sensor_at w id) p B (es ∙ sym (set-get_or w.states id unused)) ep
      (record {
        used = P.used ∙ sym init;
        periph = P.periph;
        announced = λ t. len ∙ P.announced t;
        sized = λ t. size ∙ P.sized t;
        bounded = P.bounded;
      })

set_output-IsBackend :
    (w : World) (id : ℕ) (values : List ℕ) (values_len : ℕ)
    → IsBackend w
    → values_len ≤ length values
    → IsBackend (set_output w id values values_len).1
unfolding written
set_output-IsBackend w id values values_len B memory =
    elim (Bool-cases (is_success (set_output w id values values_len).0)) [
      | inl ok ↦
          let T = output-Target w id values values_len B ok in
          let W = written-IsWritten w id values values_len B memory T in
          let here = written-filled_slave w id values B T.inside in
          subst IsBackend (sym (set_output-written w id values values_len ok)) (
            driver-IsBackend w (written w id values) id (filled_slave w id values) B T.inside refl
              refl refl refl (ap (λ x. length x.regmap) (sym here) ∙ W.size))
      | inr bad ↦ subst IsBackend (sym (set_output-refused w id values values_len bad)) B
    ]

-- The states of the backend and of the driver agree after every call and every interrupt, refused
-- setups included: a sensor is in use exactly when its peripheral is initialized, and the register
-- map that the interrupt accesses then has the announced size, at most 1024.
pub Step-IsBackend : (w w' : World) → Step w w' → IsBackend w → IsBackend w'
Step-IsBackend w _ (sets_up _ cfg cfg_len heap given) B = setup-IsBackend w cfg cfg_len heap B given
Step-IsBackend w _ (sets_output _ id values values_len given) B =
    set_output-IsBackend w id values values_len B given
Step-IsBackend w _ (stops _ id) B = stop-IsBackend w id B
Step-IsBackend w _ (serves _ periph irqs h) B =
    let s = slave_at w.driver periph in
    let F : Fixed s (run s irqs).0 = run-Fixed s irqs in
    driver-IsBackend w (interrupted w periph irqs) periph (run s irqs).0 B h refl refl F.initialized
      F.regmap_len F.size
