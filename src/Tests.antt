-- ===== src/Tests.antt =====
-- Runs of the model at concrete inputs, and the theorems at inputs that meet their hypotheses.
mod Wire
mod Table
mod Timer
mod Backend
mod Bus
mod Spi
mod Sensor
mod Output
mod Command
