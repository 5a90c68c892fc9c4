-- ===== src/I2cSensor/Accept.antt =====
-- What validate_cfg lets through: a configuration that the driver accepts and can program.
use native.Mathlib.Nat.{div-lt_iff_lt-mul, le-div_iff_mul-le}
use hilglebone.Base.{
  ℕ, ◌*◌, ◌/◌, ◌^◌, ◌≤◌, ◌<◌, List, ◌≡◌, refl, ◌⊎◌, inl, inr, arith, true, false, Bool-cases, u32,
  leb, ltb, ◌==◌, leb→le, if◌then◌else◌,
}
use hilglebone.Base.Guards.{first_error-Passed, Passed}
use hilglebone.Base.ErrCode.{ErrCode, is_success}
use hilglebone.I2cSlave.Control.{
  Driver, slave_at, init, Config, Address, cfg_valid, addresses_valid, compute_ccr, apb1_clock_hz,
  std_max_hz,
}
use hilglebone.I2cSensor.{
  Wire, checks, validate_cfg, wire_of, address_error, regmap_max, clock_min_hz, clock_max_hz,
}
use hilglebone.I2cSensor.Calls.{slave_cfg, address_of}

-- The ranges that the tests leave.
pub record Accepted (v : Wire) : Type 0 where
  pub mode : (v.address_mode ≡ 0) ⊎ (v.address_mode ≡ 1)
  pub addresses : addresses_valid (address_of v) ≡ true
  pub clock_min : clock_min_hz ≤ v.clock_hz
  pub clock_max : v.clock_hz ≤ clock_max_hz
  pub count_min : 0 < v.register_count
  pub count_max : v.register_count ≤ regmap_max
  pub width : v.reg_addr_width ≤ 2
  pub inc : v.auto_inc_mode ≤ 3

addresses-Passed :
    (v : Wire) (cfg_len : ℕ) → Passed (checks v cfg_len) → addresses_valid (address_of v) ≡ true
unfolding checks address_error addresses_valid
addresses-Passed v cfg_len (_, (_, (mode, (second, (addr, _))))) =
    ground (arith, mode, second, addr)

Passed-Accepted : (v : Wire) (cfg_len : ℕ) → Passed (checks v cfg_len) → Accepted v
unfolding checks
Passed-Accepted v cfg_len p =
    let (_, (_, (mode, (_, (_, (clock, (count, (_, (_, (fields, _)))))))))) = p in
    record {
      mode = ground (arith, mode);
      addresses = addresses-Passed v cfg_len p;
      clock_min = ground (arith, clock);
      clock_max = ground (arith, clock);
      count_min = ground (arith, count);
      count_max = ground (arith, count);
      width = ground (arith, fields);
      inc = ground (arith, fields);
    }

pub validate_cfg-Accepted :
    (cfg : List ℕ) (cfg_len : ℕ)
    → is_success (validate_cfg cfg cfg_len) ≡ true
    → Accepted (wire_of cfg)
unfolding validate_cfg checks
validate_cfg-Accepted cfg cfg_len ok = Passed-Accepted (wire_of cfg) cfg_len (
    first_error-Passed (checks (wire_of cfg) cfg_len)
      (
        refl,
        (refl, (refl, (refl, (refl, (refl, (refl, (refl, (refl, (refl, (refl, record {})))))))))),
      )
      ok)

pub Accepted-cfg_valid :
    (v : Wire) (regmap : List ℕ) (periph : ℕ)
    → Accepted v
    → periph < 3
    → cfg_valid periph (address_of v) (slave_cfg v regmap) ≡ true
unfolding cfg_valid slave_cfg
Accepted-cfg_valid v regmap periph a h =
    let addresses = a.addresses in
    let mode : v.address_mode ≤ 1 = ground (arith, a.mode) in
    let low = a.clock_min in
    let high = a.clock_max in
    let some_registers = a.count_min in
    let width = a.width in
    let inc = a.inc in
    let t₁ : leb 3 periph ≡ false = ground arith in
    let t₂ : (v.register_count == 0) ≡ false = ground arith in
    let t₃ : ltb 1 v.address_mode ≡ false = ground arith in
    let t₄ : (v.clock_hz == 0) ≡ false = ground arith in
    let t₅ : ltb 400_000 v.clock_hz ≡ false = ground arith in
    let t₆ : ltb 2 v.reg_addr_width ≡ false = ground arith in
    let t₇ : ltb 3 v.auto_inc_mode ≡ false = ground arith in
    rw (cfg_valid, slave_cfg, t₁, t₂, t₃, t₄, t₅, addresses, t₆, t₇) refl

quotient :
    (d : ℕ)
    → 0 < d
    → 4 * d ≤ apb1_clock_hz
    → apb1_clock_hz < 4096 * d
    → (apb1_clock_hz / d < 2 ^ 12) × (4 ≤ apb1_clock_hz / d)
quotient d pos low high = ((div-lt_iff_lt-mul pos).1 high, (le-div_iff_mul-le pos).1 low)

-- The divider fits the 12 bits of its field and is not below the 4 that the peripheral needs.
Accepted-divider :
    (v : Wire)
    → Accepted v
    → ((compute_ccr v.clock_hz).1 < 2 ^ 12) × (4 ≤ (compute_ccr v.clock_hz).1)
unfolding compute_ccr
Accepted-divider v a =
    let low = a.clock_min in
    let high = a.clock_max in
    elim (Bool-cases (leb v.clock_hz std_max_hz)) [
      | inl slow ↦
          let le = leb→le v.clock_hz std_max_hz slow in
          let e : u32 (2 * v.clock_hz) ≡ 2 * v.clock_hz = omega arith in
          rw (compute_ccr, slow, e)
            (quotient (2 * v.clock_hz) (omega arith) (omega arith) (omega arith))
      | inr fast ↦
          let gt : std_max_hz < v.clock_hz = ground arith in
          let e : u32 (3 * v.clock_hz) ≡ 3 * v.clock_hz = omega arith in
          rw (compute_ccr, fast, e)
            (quotient (3 * v.clock_hz) (omega arith) (omega arith) (omega arith))
    ]

init_answer :
    (d : Driver) (periph : ℕ) (a : Address) (c : Config)
    → cfg_valid periph a c ≡ true
    → (init d periph a c).0
      ≡ (if (slave_at d periph).initialized then ErrCode.peripheral_busy else ErrCode.success)
unfolding init
init_answer d periph a c valid = elim (Bool-cases (slave_at d periph).initialized) [
  | inl t ↦ rw (init, valid, t) refl
  | inr t ↦ rw (init, valid, t) refl
]

-- A configuration that `validate_cfg` accepts is one that `i2c_slave_init` accepts: for a peripheral
-- that exists it answers success, or that the peripheral is busy when it is initialized already; and
-- the clock divider it would program fits the 12 bits of the register and is at least 4.
pub validate_cfg-init :
    (cfg : List ℕ) (cfg_len : ℕ) (d : Driver) (periph : ℕ) (regmap : List ℕ)
    → is_success (validate_cfg cfg cfg_len) ≡ true
    → periph < 3
    → ((init d periph (address_of (wire_of cfg)) (slave_cfg (wire_of cfg) regmap)).0
        ≡ (if (slave_at d periph).initialized then ErrCode.peripheral_busy else ErrCode.success))
      × ((compute_ccr (wire_of cfg).clock_hz).1 < 2 ^ 12)
      × (4 ≤ (compute_ccr (wire_of cfg).clock_hz).1)
unfolding init
validate_cfg-init cfg cfg_len d periph regmap ok h =
    let a = validate_cfg-Accepted cfg cfg_len ok in
    let valid = Accepted-cfg_valid (wire_of cfg) regmap periph a h in
    let divider = Accepted-divider (wire_of cfg) a in
    (
      init_answer d periph (address_of (wire_of cfg)) (slave_cfg (wire_of cfg) regmap) valid,
      divider.0,
      divider.1,
    )
