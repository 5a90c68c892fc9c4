-- ===== src/Tests/Backend.antt =====
-- Runs and instances for the backends in stm32/project/simulate.
use hilglebone.Base.{
  ℕ, List, [], ◌∷◌, ◌≡◌, refl, arith, true, false, length, ◌+◌, ◌*◌, ◌^◌, ◌≤◌, read_u32_le,
}
use hilglebone.Base.ErrCode.{is_success}
use hilglebone.Base.Endian.{read_u32_le_lem}
use hilglebone.Gpio.{gpio_reset_state}
use hilglebone.HwTimer
use hilglebone.HwTimer.Pwm.{pwm_join, pwm_open, pwm_acquire_at, pwm_acquire}
use hilglebone.HwTimer.{compute_psc_arr, max_channel}
use hilglebone.Manager
use hilglebone.Manager.{
  id_none, id_in_use, register, allocate_id, allocate_from, next_hint, find_slot,
}
use hilglebone.Manager.Laws.{init-IsManager}
use hilglebone.Pwm
use hilglebone.Pwm.{
  World, Config, config_of, out_of_range, slot_for, compute_ccr, sensor_at, unused, slot_pool_size,
  duty_max,
}
use hilglebone.Pwm.Calls.{setup, setup_config, attach, enroll, configure}
use hilglebone.Pwm.Duty.{IsShare, compute_ccr-IsShare, compute_ccr-overflow}
use hilglebone.Pwm.Slots.{slot_for-injective}
use hilglebone.Pwm.Atomic.{setup-refused}
use hilglebone.Pwm.Return.{Returned, setup-Returned}

read_u32_le_lem_example :
    read_u32_le (0x40 ∷ 0x42 ∷ 0x0F ∷ 0 ∷ []) 0 ≡ 0x40 + 0x42 * 2 ^ 8 + 0x0F * 2 ^ 16 + 0 * 2 ^ 24
read_u32_le_lem_example =
    read_u32_le_lem 0x40 0x42 0x0F 0 [] (omega arith) (omega arith) (omega arith)

compute_ccr-IsShare_example : IsShare 41_999 2_500 (compute_ccr 41_999 2_500)
compute_ccr-IsShare_example =
    compute_ccr-IsShare 41_999 2_500 (omega arith) (omega arith) (omega arith)

-- 50 Hz on a 32-bit timer, at 50 %.
compute_ccr-overflow_example :
    (compute_ccr 1_679_999 5_000 + 429_496) * duty_max ≤ (1_679_999 + 1) * 5_000
compute_ccr-overflow_example =
    compute_ccr-overflow 1_679_999 5_000 (omega arith) (omega arith) (omega arith)

abbrev output : ℕ × ℕ
output = (2, 3)

slot_for-injective_example : let (t, c) = output in (t ≡ t) × (c ≡ c)
slot_for-injective_example =
    slot_for-injective output.0 output.1 output.0 output.1 (omega arith) (omega arith) refl

abbrev start : World
start = Pwm.init (record {
  states = [];
  pin_owned = [];
  gpio = gpio_reset_state;
  timers = HwTimer.init;
  manager = Manager.init;
})

-- Pin PA6 in alternate function 2, TIM3 channel 1, 1 kHz at 50 %, and the same on a port too high.
abbrev payload : List ℕ
payload = 0 ∷ 6 ∷ 2 ∷ 1 ∷ 1 ∷ 0xE8 ∷ 3 ∷ 0 ∷ 0 ∷ 0x88 ∷ 0x13 ∷ []

abbrev bad_port : List ℕ
bad_port = 9 ∷ 6 ∷ 2 ∷ 1 ∷ 1 ∷ 0xE8 ∷ 3 ∷ 0 ∷ 0 ∷ 0x88 ∷ 0x13 ∷ []

free_slot_left : id_in_use start.manager.slots id_none ≡ true
unfolding id_in_use Manager.init Pwm.init
free_slot_left = refl

bad_port_refused : is_success (setup start bad_port 11).0 ≡ false
unfolding setup setup_config config_of out_of_range
bad_port_refused = refl

manager-IsManager : Manager.Table.IsManager start.manager
unfolding Pwm.init
manager-IsManager = init-IsManager.0

setup-refused_example : (setup start bad_port 11).2 ≡ start
setup-refused_example =
    setup-refused start bad_port 11 manager-IsManager free_slot_left bad_port_refused

payload_accepted : is_success (setup start payload 11).0 ≡ true
unfolding setup setup_config config_of out_of_range attach enroll configure pwm_acquire
    pwm_acquire_at pwm_join pwm_open compute_psc_arr max_channel slot_for compute_ccr register
    allocate_id allocate_from next_hint find_slot id_in_use Manager.init Pwm.init HwTimer.init
payload_accepted = refl

start_sizes : (length start.states ≡ slot_pool_size) × (length start.pin_owned ≡ 6)
unfolding Pwm.init
start_sizes = (refl, refl)

slot_cleared :
    sensor_at start (slot_for (config_of payload).timer (config_of payload).channel) ≡ unused
unfolding Pwm.init slot_for config_of
slot_cleared = refl

setup-Returned_example : Returned start (config_of payload) (setup start payload 11).2
setup-Returned_example =
    setup-Returned start payload 11 start_sizes.0 start_sizes.1 slot_cleared payload_accepted
