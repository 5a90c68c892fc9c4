-- ===== src/I2cSensor/Paired.antt =====
-- Between calls and interrupts, the states of i2c_sensor.c and of i2c_slave.c agree: a sensor in use
-- has an initialized peripheral of the same index, with a register map of the announced size.
use hilglebone.Base.{
  ℕ, ◌≤◌, ◌<◌, ◌≡◌, sym, ap, ◌∙◌, inl, inr, arith, true, false, length, get_or, set, length-set,
  get_or-set_self, get_or-set_ne, ==_cases, Bool-clash,
}
use mathlib.Core.Path.{subst}
use hilglebone.I2cSlave.{Slave}
use hilglebone.I2cSlave.Control.{slave_at, slave_reset}
use hilglebone.I2cSensor.{World, Sensor, sensor_at, unused, regmap_max}

pub record IsPaired (i : ℕ) (s : Sensor) (p : Slave) : Type 0 where
  pub used : s.in_use ≡ p.initialized
  pub periph : s.in_use ≡ true → s.periph ≡ i
  pub announced : s.in_use ≡ true → p.regmap_len ≡ s.wire.register_count
  pub sized : s.in_use ≡ true → length p.regmap ≡ s.wire.register_count
  pub bounded : s.in_use ≡ true → s.wire.register_count ≤ regmap_max

pub record IsBackend (w : World) : Type 0 where
  pub states : length w.states ≡ 3
  pub slaves : length w.driver.slaves ≡ 3
  pub pairs : (i : ℕ) → i < 3 → IsPaired i (sensor_at w i) (slave_at w.driver i)

-- An operation that writes the states of one index, to a pair that agrees.
pub update-IsBackend :
    (w w' : World) (idx : ℕ) (s : Sensor) (p : Slave)
    → IsBackend w
    → w'.states ≡ set w.states idx s
    → w'.driver.slaves ≡ set w.driver.slaves idx p
    → IsPaired idx s p
    → IsBackend w'
update-IsBackend w w' idx s p B es ep P = record {
  states = ap length es ∙ length-set w.states idx s ∙ B.states;
  slaves = ap length ep ∙ length-set w.driver.slaves idx p ∙ B.slaves;
  pairs = λ i h. elim (==_cases idx i) [
    | inl e ↦
        let es' : sensor_at w' i ≡ s =
          ap (λ xs. get_or xs i unused) es
          ∙ ap (λ j. get_or (set w.states idx s) j unused) (sym e)
          ∙ get_or-set_self w.states idx s unused (omega (arith, e, h, B.states)) in
        let ep' : slave_at w'.driver i ≡ p =
          ap (λ xs. get_or xs i slave_reset) ep
          ∙ ap (λ j. get_or (set w.driver.slaves idx p) j slave_reset) (sym e)
          ∙ get_or-set_self w.driver.slaves idx p slave_reset (omega (arith, e, h, B.slaves)) in
        subst (λ j. IsPaired j (sensor_at w' i) (slave_at w'.driver i)) e
          (subst (λ x. IsPaired idx x (slave_at w'.driver i)) (sym es')
            (subst (λ x. IsPaired idx s x) (sym ep') P))
    | inr ne ↦
        let es' : sensor_at w' i ≡ sensor_at w i =
          ap (λ xs. get_or xs i unused) es ∙ get_or-set_ne w.states idx i s unused ne in
        let ep' : slave_at w'.driver i ≡ slave_at w.driver i =
          ap (λ xs. get_or xs i slave_reset) ep
          ∙ get_or-set_ne w.driver.slaves idx i p slave_reset ne in
        subst (λ x. IsPaired i x (slave_at w'.driver i)) (sym es')
          (subst (λ x. IsPaired i (sensor_at w i) x) (sym ep') (B.pairs i h))
  ];
}

-- A sensor that is not in use and a peripheral that is off agree.
pub off-IsPaired :
    (i : ℕ) (s : Sensor) (p : Slave) → s.in_use ≡ false → p.initialized ≡ false → IsPaired i s p
off-IsPaired i s p e f = record {
  used = e ∙ sym f;
  periph = λ t. Bool-clash s.in_use t e;
  announced = λ t. Bool-clash s.in_use t e;
  sized = λ t. Bool-clash s.in_use t e;
  bounded = λ t. Bool-clash s.in_use t e;
}
