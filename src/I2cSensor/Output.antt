-- ===== src/I2cSensor/Output.antt =====
-- What i2c_sensor_set_output writes, and what a master then reads.
use hilglebone.Base.{
  ℕ, ◌≤◌, ◌<◌, List, ◌+◌, ◌≡◌, refl, sym, ap, ◌∙◌, inl, inr, arith, true, false, Bool-cases, length,
  get_or, ◌==◌, ◌||◌, copy, length-copy, read_u16_le, u16,
}
use mathlib.Core.Path.{subst}
use hilglebone.Base.Guards.{first_error, first_error-Passed}
use hilglebone.Base.ErrCode.{is_success}
use hilglebone.I2cSlave.{Slave}
use hilglebone.I2cSlave.Access.{run}
use hilglebone.I2cSlave.Control.{slave_at, slave_reset}
use hilglebone.I2cSensor.{World, sensor_at}
use hilglebone.I2cSensor.Calls.{set_output, written, output_checks}
use hilglebone.I2cSensor.Paired.{IsBackend}
use hilglebone.I2cSensor.Setup.{not_ltb}
use hilglebone.Base.{take, drop, take-drop-copy, get_or-copy_outside, ◌⊎◌, get_or-set_self}
use hilglebone.I2cSensor.{output_header_size, regmap_max}
use hilglebone.I2cSlave.{auto_inc_read, auto_inc_both}
use hilglebone.I2cSlave.Transaction.{combined_read, run-combined_read}

-- A write that the tests of `i2c_sensor_set_output` let through.
pub record Target (w : World) (id : ℕ) (values : List ℕ) (values_len : ℕ) : Type 0 where
  pub inside : id < 3
  pub live : (sensor_at w id).in_use ≡ true
  pub given : output_header_size + read_u16_le values 2 ≤ values_len
  pub room : read_u16_le values 0 + read_u16_le values 2 ≤ (sensor_at w id).wire.register_count

set_output-status :
    (w : World) (id : ℕ) (values : List ℕ) (values_len : ℕ)
    → (set_output w id values values_len).0 ≡ first_error (output_checks w id values values_len)
unfolding set_output
set_output-status w id values values_len =
    let err = first_error (output_checks w id values values_len) in
    elim (Bool-cases (is_success err)) [
      | inl e ↦ rw (set_output, e) refl
      | inr e ↦ rw (set_output, e) refl
    ]

pub set_output-written :
    (w : World) (id : ℕ) (values : List ℕ) (values_len : ℕ)
    → is_success (set_output w id values values_len).0 ≡ true
    → (set_output w id values values_len).1 ≡ written w id values
unfolding set_output
set_output-written w id values values_len ok =
    let e : is_success (first_error (output_checks w id values values_len)) ≡ true =
      subst (λ x. is_success x ≡ true) (set_output-status w id values values_len) ok in
    rw (set_output, e) refl

pub set_output-refused :
    (w : World) (id : ℕ) (values : List ℕ) (values_len : ℕ)
    → is_success (set_output w id values values_len).0 ≡ false
    → (set_output w id values values_len).1 ≡ w
unfolding set_output
set_output-refused w id values values_len bad =
    let e : is_success (first_error (output_checks w id values values_len)) ≡ false =
      subst (λ x. is_success x ≡ false) (set_output-status w id values values_len) bad in
    rw (set_output, e) refl

pub output-Target :
    (w : World) (id : ℕ) (values : List ℕ) (values_len : ℕ)
    → IsBackend w
    → is_success (set_output w id values values_len).0 ≡ true
    → Target w id values values_len
unfolding output_checks
output-Target w id values values_len B ok =
    let s = sensor_at w id in
    let at = read_u16_le values 0 in
    let n = read_u16_le values 2 in
    let passed =
      first_error-Passed (output_checks w id values values_len)
        (refl, (refl, (refl, (refl, (refl, (refl, record {}))))))
        (subst (λ e. is_success e ≡ true) (set_output-status w id values values_len) ok) in
    let (known, (used, (_, (_, (cut, (range, _)))))) = passed in
    let inside : id < 3 = ground (arith, known) in
    let live : s.in_use ≡ true = ground (arith, used) in
    let small : s.wire.register_count ≤ regmap_max = (B.pairs id inside).bounded live in
    let room : at + n ≤ s.wire.register_count = ground (arith, range) in
    let held : u16 (output_header_size + n) ≤ values_len = not_ltb values_len _ cut in
    record { inside = inside; live = live; given = omega (arith, held, room, small); room = room }

-- The register map of a sensor.
abbrev pub regmap_at : World → ℕ → List ℕ
regmap_at w id = (slave_at w.driver id).regmap

-- The memcpy of an accepted write: where it reads and writes, and what stands there behind it.
pub record IsWritten (w w' : World) (id : ℕ) (values : List ℕ) (values_len : ℕ) : Type 0 where
  pub source : output_header_size + read_u16_le values 2 ≤ values_len
  pub target : read_u16_le values 0 + read_u16_le values 2 ≤ length (regmap_at w id)
  pub size : length (regmap_at w' id) ≡ length (regmap_at w id)
  pub stored :
      take (read_u16_le values 2) (drop (read_u16_le values 0) (regmap_at w' id))
      ≡ take (read_u16_le values 2) (drop output_header_size values)
  pub kept :
      (i : ℕ)
      → (i < read_u16_le values 0) ⊎ (read_u16_le values 0 + read_u16_le values 2 ≤ i)
      → get_or (regmap_at w' id) i 0 ≡ get_or (regmap_at w id) i 0

-- The driver's state behind an accepted write.
abbrev pub filled_slave : World → ℕ → List ℕ → Slave
filled_slave w id values =
    let s = slave_at w.driver id in
    record s {
      regmap =
          copy s.regmap (read_u16_le values 0) values output_header_size (read_u16_le values 2);
    }

pub written-filled_slave :
    (w : World) (id : ℕ) (values : List ℕ)
    → IsBackend w
    → id < 3
    → slave_at (written w id values).driver id ≡ filled_slave w id values
unfolding written
written-filled_slave w id values B h =
    get_or-set_self w.driver.slaves id (filled_slave w id values) slave_reset
      (omega (arith, h, B.slaves))

pub written-IsWritten :
    (w : World) (id : ℕ) (values : List ℕ) (values_len : ℕ)
    → IsBackend w
    → values_len ≤ length values
    → Target w id values values_len
    → IsWritten w (written w id values) id values values_len
written-IsWritten w id values values_len B memory T =
    let at = read_u16_le values 0 in
    let n = read_u16_le values 2 in
    let map : List ℕ = regmap_at w id in
    let size : length map ≡ (sensor_at w id).wire.register_count =
      (B.pairs id T.inside).sized T.live in
    let room : at + n ≤ length map = omega (arith, size, T.room) in
    let given : output_header_size + n ≤ length values = omega (arith, memory, T.given) in
    let e : regmap_at (written w id values) id ≡ copy map at values output_header_size n =
      ap (λ s. s.regmap) (written-filled_slave w id values B T.inside) in
    record {
      source = T.given;
      target = room;
      size = ap length e ∙ length-copy map at values output_header_size n room given;
      stored =
          ap (λ xs. take n (drop at xs)) e
          ∙ take-drop-copy map at values output_header_size n room given;
      kept = λ i h.
          ap (λ xs. get_or xs i 0) e
          ∙ get_or-copy_outside map at values output_header_size n room given i 0 h;
    }

-- When `i2c_sensor_set_output` accepts a write, from a buffer that has the announced length, the
-- memcpy stays within that buffer and within the register map of the sensor although the length test
-- is computed on 16 bits, exactly the addressed registers get the values, and all others stay.
pub set_output-IsWritten :
    (w : World) (id : ℕ) (values : List ℕ) (values_len : ℕ)
    → IsBackend w
    → values_len ≤ length values
    → is_success (set_output w id values values_len).0 ≡ true
    → IsWritten w (set_output w id values values_len).1 id values values_len
set_output-IsWritten w id values values_len B memory ok =
    subst (λ w'. IsWritten w w' id values values_len)
      (sym (set_output-written w id values values_len ok))
      (written-IsWritten w id values values_len B memory
        (output-Target w id values values_len B ok))

-- After `i2c_sensor_set_output` accepted a write to a sensor with 8-bit register addresses that
-- counts on reads, from a buffer that has the announced length, a master that reads as many bytes
-- from the first written register, below 256, gets the written values.
pub set_output-combined_read :
    (w : World) (id : ℕ) (values : List ℕ) (values_len : ℕ)
    → IsBackend w
    → values_len ≤ length values
    → is_success (set_output w id values values_len).0 ≡ true
    → (slave_at w.driver id).reg_addr_width ≡ 1
    → ((slave_at w.driver id).auto_inc_mode == auto_inc_read
        || (slave_at w.driver id).auto_inc_mode == auto_inc_both)
      ≡ true
    → read_u16_le values 0 < 256
    → (run
        (slave_at (set_output w id values values_len).1.driver id)
        (combined_read (read_u16_le values 0) (read_u16_le values 2))).1
      ≡ take (read_u16_le values 2) (drop output_header_size values)
set_output-combined_read w id values values_len B memory ok width inc low =
    let at = read_u16_le values 0 in
    let n = read_u16_le values 2 in
    let T = output-Target w id values values_len B ok in
    let W = written-IsWritten w id values values_len B memory T in
    let s : Slave = filled_slave w id values in
    let len = (B.pairs id T.inside).announced T.live in
    let small = (B.pairs id T.inside).bounded T.live in
    let sized = (B.pairs id T.inside).sized T.live in
    let here : slave_at (written w id values).driver id ≡ s =
      written-filled_slave w id values B T.inside in
    let size : length s.regmap ≡ length (regmap_at w id) =
      ap (λ x. length x.regmap) (sym here) ∙ W.size in
    let room = T.room in
    ap (λ w'. (run (slave_at w'.driver id) (combined_read at n)).1)
      (set_output-written w id values values_len ok)
    ∙ ap (λ x. (run x (combined_read at n)).1) here
    ∙ run-combined_read s at n width inc (omega (arith, size, len, sized))
        (omega (arith, len, small)) low (omega (arith, room, len))
    ∙ ap (λ x. take n (drop at x.regmap)) (sym here)
    ∙ W.stored
