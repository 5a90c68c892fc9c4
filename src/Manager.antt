-- ===== src/Manager.antt =====
-- stm32/project/command/src/sensor_manager.c: the table of live sensors and the allocation of their
-- ids. A pointer to a slot is its index.
pub mod Alloc
pub mod Table
pub mod Laws
pub mod Enroll
use mathlib.Core.Option
use hilglebone.Base.{ℕ, zero, suc, ◌+◌, ◌%◌, ◌^◌, List, [], ◌∷◌, Bool, true, false, not}
use hilglebone.Base.{Option, none, some, u8, ◌==◌, if◌then◌else◌, get_or, set, replicate}

-- `SENSOR_MAX_SLOTS`, and `PROTO_SENSOR_ID_NONE`, `_MIN`, `_MAX` of protocol.h
abbrev pub max_slots : ℕ
max_slots = 8

abbrev pub id_none : ℕ
id_none = 0

abbrev pub id_min : ℕ
id_min = 1

abbrev pub id_max : ℕ
id_max = 255

-- `SENSOR_MANAGER_MAX_ALLOC_TRIES`
abbrev pub max_alloc_tries : ℕ
max_alloc_tries = id_max

-- `sensor_slot_t`
pub record Slot : Type 0 where
  pub id : ℕ
  pub protocol_id : ℕ
  pub internal_id : ℕ

abbrev pub free_slot : Slot
free_slot = record { id = id_none; protocol_id = 0; internal_id = 0 }

-- The static variables of sensor_manager.c.
pub record Manager : Type 0 where
  pub slots : List Slot
  pub next_id_hint : ℕ

-- `sensor_manager_init` writes every slot of the table.
unfoldable pub init : Manager
init = record { slots = replicate max_slots free_slot; next_id_hint = id_min }

-- `id_in_use`
unfoldable pub id_in_use : List Slot → ℕ → Bool
id_in_use [] id = false
id_in_use (s ∷ rest) id = let later = id_in_use rest id in if s.id == id then true else later

-- The candidate after this one, never NONE.
unfoldable pub next_hint : ℕ → ℕ
next_hint candidate = if candidate == id_max then id_min else u8 (candidate + 1)

-- The loop of `allocate_id` with `n` tries left: the id, and the hint it leaves.
unfoldable pub allocate_from : ℕ → List Slot → ℕ → ℕ × ℕ
allocate_from zero slots hint = (id_none, hint)
allocate_from (suc n) slots hint =
    let later = allocate_from n slots (next_hint hint) in
    if not (id_in_use slots hint) then (hint, next_hint hint) else later

unfoldable pub allocate_id : Manager → ℕ × ℕ
allocate_id m = allocate_from max_alloc_tries m.slots m.next_id_hint

-- The index of the first slot with this id: the loop of `sensor_manager_lookup`, and at NONE that
-- of `sensor_manager_register`.
unfoldable pub find_slot : List Slot → ℕ → Option ℕ
find_slot [] id = none
find_slot (s ∷ rest) id =
    let later = Option.map suc (find_slot rest id) in if s.id == id then some 0 else later

-- `sensor_manager_register` behind the search for a free slot at `i`.
register_at : Manager → ℕ → ℕ → ℕ → ℕ × Manager
register_at m protocol_id internal_id i =
    let (id, hint) = allocate_id m in
    let m' = record m { next_id_hint = hint } in
    if id == id_none then (id_none, m') else (
      id,
      record m' {
        slots =
            set m'.slots i
              (record { id = id; protocol_id = protocol_id; internal_id = internal_id });
      },
    )

-- `sensor_manager_register`
unfoldable pub register : Manager → ℕ → ℕ → ℕ × Manager
unfolding register_at
register m protocol_id internal_id = elim (find_slot m.slots id_none) [
  | none ↦ (id_none, m)
  | some i ↦ register_at m protocol_id internal_id i
]

-- `sensor_manager_lookup`
unfoldable pub lookup : Manager → ℕ → Option ℕ
unfolding find_slot
lookup m id = if id == id_none then none else find_slot m.slots id

-- `slot->field` for a pointer that `lookup` returned.
abbrev pub slot_at : Manager → ℕ → Slot
slot_at m i = get_or m.slots i free_slot

-- `sensor_manager_release`
unfoldable pub release : Manager → ℕ → Manager
release m id = elim (lookup m id) [
  | none ↦ m
  | some i ↦ record m { slots = set m.slots i free_slot }
]
