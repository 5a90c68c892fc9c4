-- ===== src/Tests/Spi.antt =====
-- Runs and instances for the SPI drivers of stm32/project/drivers.
use hilglebone.Base.{
  ℕ, List, [], ◌∷◌, ◌≡◌, refl, arith, true, false, ◌⊎◌, ◌<◌, ◌≤◌, ◌*◌, ◌+◌, ◌>>◌, Bool, some,
  get_or, length,
}
use hilglebone.Base.ErrCode.{ErrCode}
use hilglebone.Spi.{regs_reset, slot_reset}
use hilglebone.SpiMaster.{Event, master_reset, compute_br, br_max}
use hilglebone.SpiMaster.Clock.{IsDivider, compute_br-IsDivider}
use hilglebone.SpiMaster.Progress.{Progress, Fires, begun, after, Reached}
use hilglebone.SpiMaster.Transfer.{IsTransfer, write-completes, write-ends}
use hilglebone.SpiSlave.{Bus, slave_reset, set_tx, slave_at, regs_at}
use hilglebone.SpiSlave.Stream.{IsReady, set_tx-cycle, stream, cycle}

abbrev two_bytes : List ℕ
two_bytes = 0x12 ∷ 0x34 ∷ []

abbrev empty : Event
empty = record { rxne = false; txe = true }

abbrev begun_two : Progress
begun_two = begun master_reset regs_reset 2

first_byte : Reached two_bytes begun_two 1 (after begun_two two_bytes empty)
first_byte = Reached.next 0 begun_two empty Reached.here (refl, (λ t. absurd (cc t)))

compute_br-IsDivider_example :
    IsDivider 42_000_000 1_000_000 (compute_br 42_000_000 1_000_000)
    ⊎ ((1_000_000 < 42_000_000 >> 8)
        × (compute_br 42_000_000 1_000_000 ≡ br_max)
        × (1_000_000 < 42_000_000 >> (compute_br 42_000_000 1_000_000 + 1)))
compute_br-IsDivider_example = compute_br-IsDivider 42_000_000 1_000_000

write-completes_example : IsTransfer two_bytes 1 (after begun_two two_bytes empty)
write-completes_example =
    write-completes two_bytes master_reset regs_reset 1 (after begun_two two_bytes empty)
      (omega arith) (omega arith) first_byte

write-ends_example :
    (1 ≤ 2 * length two_bytes + 1)
    × ((after begun_two two_bytes empty).master.busy ≡ true
        → (e : Event) × Fires
            (after begun_two two_bytes empty).master
            (after begun_two two_bytes empty).regs
            e)
write-ends_example =
    write-ends two_bytes master_reset regs_reset 1 (after begun_two two_bytes empty) (omega arith)
      (omega arith) first_byte

-- Both peripherals with the slave driver up.
abbrev slave_bus : Bus
slave_bus = record {
  slots = slot_reset ∷ slot_reset ∷ [];
  regs = regs_reset ∷ regs_reset ∷ [];
  slaves =
      record slave_reset { initialized = true } ∷ record slave_reset { initialized = true } ∷ [];
}

slave_bus-IsReady : IsReady slave_bus 1
slave_bus-IsReady = record {
  exists = omega arith;
  slaves = refl;
  regs = refl;
  room = refl;
  initialized = refl;
}

abbrev clocked : List Bool
clocked = true ∷ false ∷ true ∷ true ∷ []

set_tx-cycle_example :
    let (err, b', sent) = set_tx slave_bus 1 two_bytes 2 in
    (err ≡ ErrCode.success)
    × (sent ≡ some (get_or two_bytes 0 0))
    × (stream (slave_at b' 1) (regs_at b' 1) clocked ≡ cycle two_bytes 2 1 clocked)
set_tx-cycle_example =
    set_tx-cycle slave_bus 1 two_bytes 1 clocked slave_bus-IsReady (omega arith) (omega arith)

cycled : cycle two_bytes 2 1 clocked ≡ 0x34 ∷ 0x12 ∷ 0x34 ∷ []
unfolding cycle
cycled = refl
