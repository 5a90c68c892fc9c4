-- ===== src/SpiSensor/Enroll.antt =====
-- What the calls of stm32/project/simulate/spi_slave/src/spi_slave_sensor.c do to the sensor table.
use hilglebone.Base.{ℕ, List}
use hilglebone.Manager.Table.{IsManager}
use hilglebone.Manager.Enroll.{IsEnrollment, enrollment, IsKept, keeping}
use hilglebone.SpiSensor.{World, Config, sensor_teardown, protocol_id}
use hilglebone.SpiSensor.Calls
use hilglebone.SpiSensor.Calls.{attach, setup, set_output, stop}

attach-IsEnrollment :
    (w : World) (c : Config) (tx_data : List ℕ)
    → IsManager w.manager
    → IsEnrollment (λ u. u.manager) protocol_id w.manager (attach w c tx_data)
unfolding attach Calls.enroll sensor_teardown
attach-IsEnrollment w c tx_data v = search enrollment

pub setup-IsEnrollment :
    (w : World) (cfg : List ℕ) (cfg_len : ℕ)
    → IsManager w.manager
    → IsEnrollment (λ u. u.manager) protocol_id w.manager (setup w cfg cfg_len)
unfolding setup
setup-IsEnrollment w cfg cfg_len v = search (enrollment, attach-IsEnrollment) depth 8

pub set_output-IsKept :
    (w : World) (id : ℕ) (values : List ℕ) (values_len : ℕ)
    → IsKept (λ u. u.manager) w.manager (set_output w id values values_len)
unfolding set_output
set_output-IsKept w id values values_len = search keeping

pub stop-IsKept : (w : World) (id : ℕ) → IsKept (λ u. u.manager) w.manager (stop w id)
unfolding stop sensor_teardown
stop-IsKept w id = search keeping
