-- ===== src/I2cSensor/Enroll.antt =====
-- What the calls of stm32/project/simulate/i2c/src/i2c_sensor.c do to the sensor table.
use hilglebone.Base.{ℕ, List, Bool, inl, inr, Option-cases}
use hilglebone.Manager.Table.{IsManager}
use hilglebone.Manager.Enroll.{IsEnrollment, enrollment, IsKept, keeping}
use hilglebone.I2cSensor.{World, Wire, alloc_slot, free_slot}
use hilglebone.I2cSensor.Calls
use hilglebone.I2cSensor.Calls.{
  attach, setup_at, setup, set_output, stop, detach, written, protocol_id,
}

attach-IsEnrollment :
    (w : World) (idx : ℕ) (v : Wire) (regmap : List ℕ)
    → IsManager w.manager
    → IsEnrollment (λ u. u.manager) protocol_id w.manager (attach w idx v regmap)
unfolding attach Calls.enroll detach free_slot
attach-IsEnrollment w idx v regmap m = search enrollment

setup_at-IsEnrollment :
    (w : World) (idx : ℕ) (cfg : List ℕ) (cfg_len : ℕ) (heap : Bool)
    → IsManager w.manager
    → IsEnrollment (λ u. u.manager) protocol_id w.manager (setup_at w idx cfg cfg_len heap)
unfolding setup_at
setup_at-IsEnrollment w idx cfg cfg_len heap m = search (enrollment, attach-IsEnrollment) depth 8

pub setup-IsEnrollment :
    (w : World) (cfg : List ℕ) (cfg_len : ℕ) (heap : Bool)
    → IsManager w.manager
    → IsEnrollment (λ u. u.manager) protocol_id w.manager (setup w cfg cfg_len heap)
unfolding setup
setup-IsEnrollment w cfg cfg_len heap m = elim (Option-cases (alloc_slot w)) [
  | inl full ↦ rw (full, setup) (search enrollment)
  | inr (idx, free) ↦ rw (free, setup) (setup_at-IsEnrollment w idx cfg cfg_len heap m)
]

pub set_output-IsKept :
    (w : World) (id : ℕ) (values : List ℕ) (values_len : ℕ)
    → IsKept (λ u. u.manager) w.manager (set_output w id values values_len)
unfolding set_output written
set_output-IsKept w id values values_len = search keeping

pub stop-IsKept : (w : World) (id : ℕ) → IsKept (λ u. u.manager) w.manager (stop w id)
unfolding stop detach free_slot
stop-IsKept w id = search keeping
