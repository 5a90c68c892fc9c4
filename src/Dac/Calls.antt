-- ===== src/Dac/Calls.antt =====
-- The calls that the dispatcher makes into dac_sensor.c. The interrupts that come while chip_write
-- waits are arguments of a call, for each of its writes.
use hilglebone.Base.{ℕ, List, [], ◌∷◌, Bool, true, false, not, ◌&&◌, ◌||◌}
use hilglebone.Base.{ltb, leb, ◌==◌, if◌then◌else◌, get_or, set, replicate, none, some}
use hilglebone.Base.{read_u16_le}
use hilglebone.Base.Guards.{first_error}
use hilglebone.Base.ErrCode.{ErrCode, is_success}
use hilglebone.Manager
use hilglebone.Manager.{id_none}
use hilglebone.SpiMaster
use hilglebone.SpiMaster.{Bus, Event, master_at, regs_at}
use hilglebone.Dac.{
  World, Chip, Sensor, Config, Semaphores, config_of, out_of_range, max_clock, chip_at, set_chip,
  sensor_at, set_sensor, slot_for, build_frame, same_pin, ldac_enabled, cmd_write_and_load,
  cmd_ref_setup, addr_ref, ref_data, cfg_size, set_output_size, max_count, protocol_id,
  channels_per_chip,
}
use hilglebone.Dac.Write.{connect_pins, release_pins, chip_write, chip_teardown}

-- The tests on a chip that is set up already.
unfoldable pub mismatch : {H : Type 0} → Chip H → Config → List (Bool × ErrCode)
mismatch chip c =
    (
      not (chip.clock_hz == c.clock_hz) || not (chip.spi_mode == c.spi_mode),
      ErrCode.dac_clock_mismatch,
    )
    ∷ (
      not (same_pin chip.mosi_pin c.mosi)
          || (not (same_pin chip.sck_pin c.sck)
              || (not (same_pin chip.cs_pin c.cs) || not (same_pin chip.ldac_pin c.ldac))),
      ErrCode.dac_pin_mismatch,
    )
    ∷ (get_or chip.channels_active c.channel false, ErrCode.dac_channel_in_use)
    ∷ []

-- The chip that a setup stores.
unfoldable pub chip_of : {H : Type 0} → Chip H → Config → H → Chip H
chip_of chip c sem = record chip {
  initialized = true;
  periph = c.periph;
  clock_hz = c.clock_hz;
  spi_mode = c.spi_mode;
  mosi_pin = c.mosi;
  sck_pin = c.sck;
  cs_pin = c.cs;
  ldac_pin = if ldac_enabled c then c.ldac else (0xFF, 0);
  ldac_enabled = ldac_enabled c;
  tx_done = some sem;
  channels_active = replicate channels_per_chip false;
}

module _ {K H : Type 0} (service : Semaphores K H) where
  abbrev active : Chip H → ℕ → Bool → Chip H
  active chip channel b = record chip { channels_active = set chip.channels_active channel b }

  -- `chip->channels_active == 0U`
  unfoldable pub all_idle : List Bool → Bool
  all_idle [] = true
  all_idle (b ∷ rest) = let later = all_idle rest in if b then false else later

  -- `build_frame` into the buffer of the chip, and `chip_write`.
  unfoldable pub send : World K H → ℕ → ℕ → ℕ → ℕ → List Event → ErrCode × World K H
  unfolding build_frame chip_write
  send w p command address value interrupts =
      let chip = chip_at w p in
      let filled = record chip { tx_buf = build_frame chip.tx_buf command address value } in
      chip_write service (set_chip w p filled) filled interrupts

  abbrev pub teardown_if_idle : World K H → ℕ → World K H
  teardown_if_idle w p =
      if all_idle (chip_at w p).channels_active then chip_teardown service w p else w

  -- The part of `dac_sensor_setup` under `!chip->initialized`. Both failures of the driver release
  -- the pins of the payload.
  unfoldable pub bring_up : World K H → Config → List Event → ErrCode × World K H
  unfolding connect_pins release_pins chip_of send chip_teardown
  bring_up w c interrupts =
      let g = connect_pins w.gpio c in
      let (created, k) = service.create w.kernel in
      elim created [
        | none ↦
            let pins : Chip H = record (chip_at w c.periph) {
              mosi_pin = c.mosi;
              sck_pin = c.sck;
              cs_pin = c.cs;
              ldac_pin = c.ldac;
              ldac_enabled = ldac_enabled c;
            } in
            (ErrCode.out_of_resources, record w { gpio = release_pins g pins; kernel = k })
        | some sem ↦
            let chip = chip_of (chip_at w c.periph) c sem in
            let (err, bus) = SpiMaster.init w.bus c.periph c.clock_hz c.spi_mode in
            let up = set_chip (record w { gpio = g; kernel = k; bus = bus }) c.periph chip in
            let (werr, w') =
              send up c.periph cmd_ref_setup addr_ref (ref_data c.reference) interrupts in
            if not (is_success err)
            then (
              ErrCode.invalid_parameter,
              record w { gpio = release_pins g chip; kernel = service.delete k sem; bus = bus },
            )
            else (if c.reference == 0
                then (ErrCode.success, up)
                else (if is_success werr
                    then (ErrCode.success, w')
                    else (werr, chip_teardown service w' c.periph)))
      ]

  -- `dac_sensor_setup` from the registration with the manager on.
  unfoldable pub enroll : World K H → Config → ℕ → ErrCode × ℕ × World K H
  unfolding all_idle chip_teardown
  enroll w c idx =
      let (id, manager) = Manager.register w.manager protocol_id idx in
      let w' = record w { manager = manager } in
      let inactive = set_chip w' c.periph (active (chip_at w c.periph) c.channel false) in
      let undone = set_sensor inactive idx (record (sensor_at w idx) { in_use = false }) in
      if id == id_none
      then (ErrCode.out_of_resources, id_none, teardown_if_idle undone c.periph)
      else (ErrCode.success, id, w')

  -- `dac_sensor_setup` from the first value on.
  unfoldable pub load : World K H → Config → ℕ → List Event → ErrCode × ℕ × World K H
  unfolding send enroll all_idle chip_teardown
  load w c idx interrupts =
      let (err, w') = send w c.periph cmd_write_and_load c.channel c.initial_value interrupts in
      let used = set_chip w' c.periph (active (chip_at w' c.periph) c.channel true) in
      let s : Sensor = record { in_use = true; periph = c.periph; channel = c.channel } in
      if not (is_success err)
      then (err, id_none, teardown_if_idle w' c.periph)
      else enroll (set_sensor used idx s) c idx

  -- `dac_sensor_setup` behind the tests of the parameters.
  unfoldable pub setup_config :
      World K H → Config → List Event → List Event → ErrCode × ℕ × World K H
  unfolding mismatch bring_up load
  setup_config w c ref_interrupts interrupts =
      let chip = chip_at w c.periph in
      let idx = slot_for c.periph c.channel in
      let fits = first_error (mismatch chip c) in
      let (err, w') = bring_up w c ref_interrupts in
      if chip.initialized && not (is_success fits)
      then (fits, id_none, w)
      else (if (sensor_at w idx).in_use
          then (ErrCode.dac_channel_in_use, id_none, w)
          else (if chip.initialized
              then load w c idx interrupts
              else (if is_success err then load w' c idx interrupts else (err, id_none, w'))))

  -- `dac_sensor_setup`
  unfoldable pub setup : World K H → List ℕ → ℕ → List Event → List Event → ErrCode × ℕ × World K H
  unfolding setup_config config_of out_of_range
  setup w cfg cfg_len ref_interrupts interrupts =
      let c = config_of cfg in
      if ltb cfg_len cfg_size
      then (ErrCode.malformed_payload, id_none, w)
      else (if out_of_range c || ltb (max_clock c.periph) c.clock_hz
          then (ErrCode.invalid_parameter, id_none, w)
          else setup_config w c ref_interrupts interrupts)

  -- `dac_sensor_set_output`
  unfoldable pub set_output : World K H → ℕ → List ℕ → ℕ → List Event → ErrCode × World K H
  unfolding send
  set_output w internal_id values values_len interrupts =
      let s = sensor_at w internal_id in
      if leb max_count internal_id || not s.in_use
      then (ErrCode.invalid_sensor_id, w)
      else (if ltb values_len set_output_size
          then (ErrCode.malformed_payload, w)
          else (if not (chip_at w s.periph).initialized
              then (ErrCode.internal, w)
              else send w s.periph cmd_write_and_load s.channel (read_u16_le values 0) interrupts))

  -- `dac_sensor_stop`
  unfoldable pub stop : World K H → ℕ → ErrCode × World K H
  unfolding all_idle chip_teardown
  stop w internal_id =
      let s = sensor_at w internal_id in
      let w₁ = set_chip w s.periph (active (chip_at w s.periph) s.channel false) in
      let w₂ = set_sensor w₁ internal_id (record s { in_use = false }) in
      if leb max_count internal_id || not s.in_use
      then (ErrCode.invalid_sensor_id, w)
      else (ErrCode.success, teardown_if_idle w₂ s.periph)
