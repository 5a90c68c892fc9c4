-- ===== src/Tests/Table.antt =====
-- Runs and instances for stm32/project/command/src/sensor_manager.c.
use mathlib.Core.Option
use hilglebone.Base.{◌≡◌, ◌≢◌, ◌↔◌, arith, inr, refl, true, false, [], ◌∷◌}
use hilglebone.Manager.{Manager, init, id_in_use, register, lookup, release, slot_at, id_none}
use hilglebone.Manager.Table.{IsManager, entry, slot_entry}
use hilglebone.Manager.Laws.{
  init-IsManager, lookup-entry, Registered, register-Registered, register_iff_full, Released,
  release-Released, register-no_recycle,
}

free_at_start : id_in_use init.slots id_none ≡ true
unfolding id_in_use init
free_at_start = refl

register-Registered_example : Registered init 3 0 (register init 3 0)
register-Registered_example = register-Registered init 3 0 init-IsManager.0 free_at_start

-- A table with one sensor.
abbrev one : Manager
one = (register init 3 0).1

one-IsManager : IsManager one
one-IsManager = (register-Registered init 3 0 init-IsManager.0 free_at_start).valid

release-Released_example : Released one 1 (release one 1)
release-Released_example = release-Released one 1 one-IsManager

-- A table with eight sensors.
abbrev full : Manager
full = record {
  slots =
      record { id = 1; protocol_id = 3; internal_id = 0 }
      ∷ record { id = 2; protocol_id = 3; internal_id = 1 }
      ∷ record { id = 3; protocol_id = 3; internal_id = 2 }
      ∷ record { id = 4; protocol_id = 3; internal_id = 3 }
      ∷ record { id = 5; protocol_id = 3; internal_id = 4 }
      ∷ record { id = 6; protocol_id = 3; internal_id = 5 }
      ∷ record { id = 7; protocol_id = 3; internal_id = 6 }
      ∷ record { id = 8; protocol_id = 3; internal_id = 7 }
      ∷ [];
  next_id_hint = 9;
}

full_in_use : id_in_use full.slots id_none ≡ false
unfolding id_in_use
full_in_use = refl

full-IsManager : IsManager full
unfolding id_in_use
full-IsManager = record {
  size = refl;
  hint = omega arith;
  no_repeat = (
    inr refl,
    (inr refl, (inr refl, (inr refl, (inr refl, (inr refl, (inr refl, (inr refl, tt))))))),
  );
}

register_iff_full_example :
    ((register full 6 0).0 ≡ id_none ↔ id_in_use full.slots id_none ≡ false)
    × ((register full 6 0).0 ≡ id_none → register full 6 0 ≡ (id_none, full))
register_iff_full_example = register_iff_full full 6 0 full-IsManager

lookup-entry_example : Option.map (λ i. slot_entry (slot_at full i)) (lookup full 4) ≡ entry full 4
lookup-entry_example = lookup-entry full 4

register-no_recycle_example :
    let (id, m₁) = register init 3 0 in let (id', m₂) = register (release m₁ id) 6 1 in id' ≢ id
register-no_recycle_example = register-no_recycle init 3 0 6 1 init-IsManager.0 free_at_start
