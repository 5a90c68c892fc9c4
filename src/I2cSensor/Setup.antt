-- ===== src/I2cSensor/Setup.antt =====
-- i2c_sensor_setup and its undoing keep the backend's states and the driver's in step.
use mathlib.Core.Option.{some-injective}
use hilglebone.Base.{
  ℕ, suc, ◌≤◌, ◌<◌, List, [], ◌∷◌, ◌+◌, ◌≡◌, refl, sym, ap, ◌∙◌, inl, inr, arith, Bool, true, false,
  not, some, Bool-cases, Option-cases, length, get_or, set, set-get_or, ◌==◌, leb, ltb, ◌&&◌,
  if◌then◌else◌, replicate, length-copy, length-replicate, u16,
}
use mathlib.Core.Path.{subst}
use hilglebone.Base.Guards.{first_error, first_error-Passed, Passed}
use hilglebone.Base.ErrCode.{ErrCode, is_success}
use hilglebone.I2cSlave.Control
use hilglebone.I2cSlave.Control.{Driver, slave_at, slave_reset}
use hilglebone.Manager
use hilglebone.I2cSensor.{
  World, Sensor, Wire, sensor_at, set_sensor, unused, wire_of, alloc_from, alloc_slot, free_slot,
  validate_cfg, preset_header_size,
}
use hilglebone.I2cSensor.Calls.{
  setup, setup_at, attach, enroll, detach, preset_of, Preset, regmap_of, preset_checks, protocol_id,
  connect_pins, release_pins, slave_cfg, address_of, present,
}
use hilglebone.I2cSensor.Accept.{Accepted, validate_cfg-Accepted, Accepted-cfg_valid}
use hilglebone.I2cSensor.Paired.{IsBackend, update-IsBackend, off-IsPaired}

-- `alloc_slot` finds an index of the array whose sensor is not in use.
record Free (xs : List Sensor) (i idx : ℕ) : Type 0 where
  offset : ℕ
  at : idx ≡ i + offset
  inside : offset < length xs
  unclaimed : (get_or xs offset unused).in_use ≡ false

alloc_from-Free : (xs : List Sensor) (i idx : ℕ) → alloc_from xs i ≡ some idx → Free xs i idx
unfolding alloc_from
alloc_from-Free [] i idx h = absurd (cc h)
alloc_from-Free (s ∷ rest) i idx h = elim (Bool-cases s.in_use) [
  | inl used ↦
      let pick = λ (b : Bool). if b then alloc_from rest (i + 1) else some i in
      let f = alloc_from-Free rest (i + 1) idx (sym (ap pick used) ∙ h) in
      let at = f.at in
      let inside = f.inside in
      record {
        offset = suc f.offset;
        at = omega arith;
        inside = omega arith;
        unclaimed = f.unclaimed;
      }
  | inr free ↦
      let pick = λ (b : Bool). if b then alloc_from rest (i + 1) else some i in
      let e = some-injective i idx (sym (ap pick free) ∙ h) in
      record { offset = 0; at = omega arith; inside = omega arith; unclaimed = free }
]

alloc_slot-Free : (w : World) (idx : ℕ) → alloc_slot w ≡ some idx → Free w.states 0 idx
unfolding alloc_slot
alloc_slot-Free w idx h = alloc_from-Free w.states 0 idx h

-- The slot that `alloc_slot` found is one of the three, and its peripheral is off.
pub record Vacant (w : World) (idx : ℕ) : Type 0 where
  pub inside : idx < 3
  pub unclaimed : (sensor_at w idx).in_use ≡ false
  pub off : (slave_at w.driver idx).initialized ≡ false

pub alloc_slot-Vacant : (w : World) (idx : ℕ) → IsBackend w → alloc_slot w ≡ some idx → Vacant w idx
alloc_slot-Vacant w idx B h =
    let f = alloc_slot-Free w idx h in
    let at = f.at in
    let near = f.inside in
    let same : f.offset ≡ idx = omega arith in
    let lt : idx < 3 = omega (arith, at, near, B.states) in
    let unclaimed : (sensor_at w idx).in_use ≡ false =
      subst (λ k. (sensor_at w k).in_use ≡ false) same f.unclaimed in
    record { inside = lt; unclaimed = unclaimed; off = sym (B.pairs idx lt).used ∙ unclaimed }

-- An operation that leaves the slot unused and the driver as it is.
unused-IsBackend :
    (w w' : World) (idx : ℕ) (s : Sensor)
    → IsBackend w
    → Vacant w idx
    → s.in_use ≡ false
    → w'.states ≡ set w.states idx s
    → w'.driver.slaves ≡ w.driver.slaves
    → IsBackend w'
unused-IsBackend w w' idx s B V e es ep =
    update-IsBackend w w' idx s (slave_at w.driver idx) B es
      (ep ∙ sym (set-get_or w.driver.slaves idx slave_reset))
      (off-IsPaired idx s (slave_at w.driver idx) e V.off)

deinit-slaves :
    (d : Driver) (periph : ℕ)
    → periph < 3
    → (Control.deinit d periph).1.slaves ≡ set d.slaves periph (Control.cleared (slave_at d periph))
unfolding Control.deinit
deinit-slaves d periph h =
    let e : leb Control.periph_count periph ≡ false = ground arith in rw (Control.deinit, e) refl

-- `i2c_sensor_stop`, and the undoing of a setup.
pub detach-IsBackend :
    (w : World) (idx : ℕ) (s : Sensor)
    → IsBackend w
    → idx < 3
    → s.periph ≡ idx
    → IsBackend (detach w idx s)
unfolding detach free_slot Control.cleared
detach-IsBackend w idx s B h e =
    update-IsBackend w (detach w idx s) idx unused (Control.cleared (slave_at w.driver idx)) B refl
      (ap (λ k. (Control.deinit w.driver k).1.slaves) e ∙ deinit-slaves w.driver idx h)
      (off-IsPaired idx unused _ refl refl)

enroll-IsBackend :
    (w : World) (idx : ℕ) (s : Sensor)
    → IsBackend w
    → idx < 3
    → s.periph ≡ idx
    → IsBackend (enroll w idx s).2
unfolding enroll
enroll-IsBackend w idx s B h e =
    let m = (Manager.register w.manager protocol_id idx).1 in
    let B' : IsBackend (record w { manager = m }) = record {
      states = B.states;
      slaves = B.slaves;
      pairs = B.pairs;
    } in
    elim (Bool-cases ((Manager.register w.manager protocol_id idx).0 == Manager.id_none)) [
      | inl full ↦ rw (enroll, full) (detach-IsBackend _ idx s B' h e)
      | inr live ↦ rw (enroll, live) B'
    ]

-- The register map of a setup has the announced size.
record Fits (v : Wire) (regmap : List ℕ) : Type 0 where
  accepted : Accepted v
  sized : length regmap ≡ v.register_count

-- What `i2c_slave_init` leaves when it succeeds.
abbrev pub started : Driver → ℕ → Wire → List ℕ → Driver
started d idx v regmap = record {
  slaves = set d.slaves idx (Control.prepared (slave_cfg v regmap));
  regs =
      set d.regs idx
        (Control.configured (Control.regs_at d idx) (address_of v) (slave_cfg v regmap));
}

init-started :
    (d : Driver) (idx : ℕ) (v : Wire) (regmap : List ℕ)
    → idx < 3
    → (slave_at d idx).initialized ≡ false
    → Accepted v
    → Control.init d idx (address_of v) (slave_cfg v regmap)
      ≡ (ErrCode.success, started d idx v regmap)
unfolding Control.init
init-started d idx v regmap h off a =
    let valid = Accepted-cfg_valid v regmap idx a h in rw (Control.init, valid, off) refl

-- The world in which a setup registers the sensor, and the sensor.
abbrev pub sensor_of : ℕ → Wire → Sensor
sensor_of idx v = record { in_use = true; periph = idx; wire = v; regmap = true }

abbrev pub attached : World → ℕ → Wire → List ℕ → World
attached w idx v regmap =
    set_sensor (record w { gpio = connect_pins w.gpio v; driver = started w.driver idx v regmap })
      idx (sensor_of idx v)

pub attach-enroll :
    (w : World) (idx : ℕ) (v : Wire) (regmap : List ℕ)
    → Vacant w idx
    → Accepted v
    → attach w idx v regmap ≡ enroll (attached w idx v regmap) idx (sensor_of idx v)
unfolding attach
attach-enroll w idx v regmap V a =
    ap
      (λ (o : ErrCode × Driver).
        let g = connect_pins w.gpio v in
        let (err, driver) = o in
        if not (is_success err)
        then (
          err,
          Manager.id_none,
          free_slot (record w { gpio = release_pins g v; driver = driver }) idx,
        )
        else enroll (set_sensor (record w { gpio = g; driver = driver }) idx (sensor_of idx v)) idx
            (sensor_of idx v))
      (init-started w.driver idx v regmap V.inside V.off a)

attached-IsBackend :
    (w : World) (idx : ℕ) (v : Wire) (regmap : List ℕ)
    → IsBackend w
    → Fits v regmap
    → IsBackend (attached w idx v regmap)
unfolding Control.prepared slave_cfg
attached-IsBackend w idx v regmap B F =
    update-IsBackend w (attached w idx v regmap) idx (sensor_of idx v)
      (Control.prepared (slave_cfg v regmap)) B refl refl
      (record {
        used = refl;
        periph = λ _. refl;
        announced = λ _. refl;
        sized = λ _. F.sized;
        bounded = λ _. F.accepted.count_max;
      })

attach-IsBackend :
    (w : World) (idx : ℕ) (v : Wire) (regmap : List ℕ)
    → IsBackend w
    → Vacant w idx
    → Fits v regmap
    → IsBackend (attach w idx v regmap).2
attach-IsBackend w idx v regmap B V F =
    subst (λ r. IsBackend r.2) (sym (attach-enroll w idx v regmap V F.accepted))
      (enroll-IsBackend (attached w idx v regmap) idx (sensor_of idx v)
        (attached-IsBackend w idx v regmap B F) V.inside refl)

pub guard_off : (a b : Bool) → a ≡ true → (a && b) ≡ false → b ≡ false
guard_off true b t h = h
guard_off false b t h = absurd (cc t)

pub not_ltb : (a b : ℕ) → ltb a b ≡ false → b ≤ a
not_ltb a b h = ground arith

-- The preset fits the register map, and the payload holds it.
preset-length :
    (v : Wire) (p : Preset) (cfg : List ℕ) (cfg_len : ℕ)
    → Passed (preset_checks v p cfg_len)
    → cfg_len ≤ length cfg
    → v.register_count ≤ 1024
    → length (regmap_of v p cfg) ≡ v.register_count
unfolding regmap_of preset_checks
preset-length v p cfg cfg_len (short, (_, (cut, (range, _)))) given small =
    elim (Bool-cases (present p)) [
      | inr none_given ↦ rw (regmap_of, none_given) (length-replicate v.register_count 0)
      | inl preset ↦
          let within : p.reg_start + p.value_len ≤ v.register_count =
            not_ltb v.register_count _ (guard_off (present p) _ preset range) in
          let held : u16 (preset_header_size + p.value_len) ≤ cfg_len =
            not_ltb cfg_len _ (guard_off (present p) _ preset cut) in
          let zeroed : List ℕ = replicate v.register_count 0 in
          let all : length zeroed ≡ v.register_count = length-replicate v.register_count 0 in
          rw (regmap_of, preset)
            (length-copy zeroed p.reg_start cfg preset_header_size p.value_len
                (omega (arith, within, all)) (omega (arith, within, held, given, small))
              ∙ all)
    ]

setup_at-IsBackend :
    (w : World) (idx : ℕ) (cfg : List ℕ) (cfg_len : ℕ) (heap : Bool)
    → IsBackend w
    → Vacant w idx
    → cfg_len ≤ length cfg
    → IsBackend (setup_at w idx cfg cfg_len heap).2
unfolding setup_at preset_checks
setup_at-IsBackend w idx cfg cfg_len heap B V given =
    let v = wire_of cfg in
    let p = preset_of cfg in
    elim (Bool-cases (is_success (validate_cfg cfg cfg_len))) [
      | inr bad ↦ rw (setup_at, bad) B
      | inl valid ↦ elim (Bool-cases (is_success (first_error (preset_checks v p cfg_len)))) [
        | inr bad ↦ rw (setup_at, valid, bad) (unused-IsBackend w _ idx _ B V V.unclaimed refl refl)
        | inl fits ↦ elim (Bool-cases heap) [
          | inr bad ↦
              rw (setup_at, valid, fits, bad) (unused-IsBackend w _ idx _ B V V.unclaimed refl refl)
          | inl enough ↦
              let a = validate_cfg-Accepted cfg cfg_len valid in
              let passed =
                first_error-Passed (preset_checks v p cfg_len)
                  (refl, (refl, (refl, (refl, (refl, record {}))))) fits in
              let sized = preset-length v p cfg cfg_len passed given a.count_max in
              rw (setup_at, valid, fits, enough)
                (attach-IsBackend w idx v (regmap_of v p cfg) B V
                  (record { accepted = a; sized = sized }))
        ]
      ]
    ]

pub setup-IsBackend :
    (w : World) (cfg : List ℕ) (cfg_len : ℕ) (heap : Bool)
    → IsBackend w
    → cfg_len ≤ length cfg
    → IsBackend (setup w cfg cfg_len heap).2
unfolding setup
setup-IsBackend w cfg cfg_len heap B given = elim (Option-cases (alloc_slot w)) [
  | inl full ↦ rw (setup, full) B
  | inr (idx, found) ↦
      rw (setup, found)
        (setup_at-IsBackend w idx cfg cfg_len heap B (alloc_slot-Vacant w idx B found) given)
]
