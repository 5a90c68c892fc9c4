-- ===== src/Manager/Laws.antt =====
-- What a client of the sensor manager may rely on.
use mathlib.Core.Option
use hilglebone.Base.{ℕ, ◌≤◌, ◌≡◌, refl, ap, sym, ◌∙◌, ◌≢◌, ◌↔◌, inl, inr}
use hilglebone.Base.{arith, true, false, ◌==◌, if◌then◌else◌, none, some}
use hilglebone.Base.{length-set, set, Bool-cases, Option-cases, ==_iff, ne→==}
use hilglebone.Manager.{
  Slot, Manager, free_slot, max_slots, id_none, init, id_in_use, allocate_from, allocate_id,
  find_slot, register, lookup, slot_at, release, next_hint,
}
use hilglebone.Manager.Alloc.{
  IsId, candidate, candidate-ne, candidate-next_hint, Allocated, allocate-Allocated, next_hint-IsId,
}
use hilglebone.Manager.Table.{
  entry_in, entry, slot_entry, IsManager, find_slot_entry, find_slot_missing, id_in_use-entry_in,
  entry_in-set_free, entry_in-set-none, NoRepeat-set_fresh, NoRepeat-set_free, NoRepeat-free,
  find_slot_unused, find_slot-none,
}

pub init-IsManager : IsManager init × ((id : ℕ) → entry init id ≡ none)
unfolding init entry entry_in
init-IsManager = (
  record { size = refl; hint = omega arith; no_repeat = NoRepeat-free max_slots },
  λ id. ground arith,
)

-- A pointer that `sensor_manager_lookup` returns is into the table, at a slot that holds the entry
-- of that id; it returns none exactly if the id has no entry.
pub lookup-entry :
    (m : Manager) (id : ℕ) → Option.map (λ i. slot_entry (slot_at m i)) (lookup m id) ≡ entry m id
unfolding lookup entry
lookup-entry m id = elim (Bool-cases (id == id_none)) [
  | inl e ↦ rw e refl
  | inr e ↦ elim (Option-cases (find_slot m.slots id)) [
    | inl missing ↦ rw (e, missing) (sym (find_slot_missing m.slots id missing))
    | inr (i, found) ↦ rw (e, found) (sym (find_slot_entry m.slots id i found))
  ]
]

-- What `sensor_manager_register` did when there was a free slot.
pub record Registered (m : Manager) (p q : ℕ) (out : ℕ × Manager) : Type 0 where
  pub id : IsId out.0
  pub fresh : entry m out.0 ≡ none
  pub hint : out.1.next_id_hint ≡ next_hint out.0
  pub valid : IsManager out.1
  pub steps : ℕ
  pub near : steps ≤ max_slots
  pub at : out.0 ≡ candidate m.next_id_hint steps
  pub entries : (j : ℕ) → entry out.1 j ≡ (if out.0 == j then some (p, q) else entry m j)

register-none :
    (m : Manager) (p q : ℕ) → find_slot m.slots id_none ≡ none → register m p q ≡ (id_none, m)
unfolding register
register-none m p q f = rw (f, register) refl

-- The slot is stored under the id that `allocate_id` finds.
register-some :
    (m : Manager) (p q i : ℕ)
    → IsManager m
    → find_slot m.slots id_none ≡ some i
    → let (id, hint) = allocate_id m in
      register m p q ≡ (
        id,
        record {
          slots = set m.slots i (record { id = id; protocol_id = p; internal_id = q });
          next_id_hint = hint;
        },
      )
unfolding register allocate_id
register-some m p q i v f =
    let a = allocate-Allocated m.slots m.next_id_hint v.size v.hint in
    rw (f, register)
      (rw (ne→== (allocate_from 255 m.slots m.next_id_hint).0 id_none (λ e. omega (arith, e, a.id)))
        refl)

register_free :
    (m : Manager) (p q i : ℕ)
    → IsManager m
    → find_slot m.slots id_none ≡ some i
    → Registered m p q (register m p q)
register_free m p q i v f =
    let a : Allocated m.slots m.next_id_hint max_slots (allocate_id m) =
      unfold allocate_id in allocate-Allocated m.slots m.next_id_hint v.size v.hint in
    let (id, hint) = allocate_id m in
    let new : Slot = record { id = id; protocol_id = p; internal_id = q } in
    rw (register-some m p q i v f) (record {
      id = a.id;
      fresh = unfold entry in ground (arith, id_in_use-entry_in m.slots id a.fresh);
      hint = a.hint;
      steps = a.steps;
      near = a.near;
      at = a.at;
      valid = record {
        size = length-set m.slots i new ∙ v.size;
        hint = rw a.hint (next_hint-IsId id a.id);
        no_repeat = NoRepeat-set_fresh new m.slots i a.fresh v.no_repeat;
      };
      entries = λ j. elim (Bool-cases (j == id_none)) [
        | inl e ↦ unfold entry in ground (arith, a.id)
        | inr e ↦
            unfold entry in
            rw e (entry_in-set_free id p q j (λ z. ground arith) m.slots i f a.fresh)
      ];
    })

-- With a slot free, `sensor_manager_register` never fails: it returns an id between 1 and 255 that
-- had no entry, gives it the entry of the new sensor and changes no other entry; the hint moves on
-- to the id behind it, and the table stays well formed.
pub register-Registered :
    (m : Manager) (p q : ℕ)
    → IsManager m
    → id_in_use m.slots id_none ≡ true
    → Registered m p q (register m p q)
register-Registered m p q v free = elim (Option-cases (find_slot m.slots id_none)) [
  | inl missing ↦ cc (find_slot_unused m.slots id_none missing)
  | inr (i, found) ↦ register_free m p q i v found
]

-- The branch of a full table.
pub register_full :
    (m : Manager) (p q : ℕ) → id_in_use m.slots id_none ≡ false → register m p q ≡ (id_none, m)
register_full m p q full = register-none m p q (find_slot-none m.slots id_none full)

-- A registration that was refused has changed nothing.
pub register-refused :
    (m : Manager) (p q : ℕ)
    → IsManager m
    → ((register m p q).0 == id_none) ≡ true
    → (register m p q).1 ≡ m
register-refused m p q v refused = elim (Bool-cases (id_in_use m.slots id_none)) [
  | inl free ↦
      let e = (==_iff (register m p q).0 id_none).0 refused in
      let id = (register-Registered m p q v free).id in absurd (omega (arith, e, id))
  | inr full ↦ ap (λ r. r.1) (register_full m p q full)
]

-- For a well-formed table, `sensor_manager_register` returns NONE exactly if no slot is free, and then
-- it has changed nothing: with a slot free the search for an id never runs out.
pub register_iff_full :
    (m : Manager) (p q : ℕ)
    → IsManager m
    → ((register m p q).0 ≡ id_none ↔ id_in_use m.slots id_none ≡ false)
      × ((register m p q).0 ≡ id_none → register m p q ≡ (id_none, m))
register_iff_full m p q v =
    let no_slot : (register m p q).0 ≡ id_none → id_in_use m.slots id_none ≡ false = λ e.
      elim (Bool-cases (id_in_use m.slots id_none)) [
        | inr full ↦ full
        | inl free ↦ let id = (register-Registered m p q v free).id in absurd (omega (arith, e, id))
      ] in
    (
      (no_slot, λ full. ap (λ r. r.0) (register_full m p q full)),
      λ e. register_full m p q (no_slot e),
    )

release_missing : (m : Manager) (id : ℕ) → lookup m id ≡ none → release m id ≡ m
unfolding release
release_missing m id e = rw (e, release) refl

release_found :
    (m : Manager) (id i : ℕ)
    → lookup m id ≡ some i
    → release m id ≡ record m { slots = set m.slots i free_slot }
unfolding release
release_found m id i e = rw (e, release) refl

lookup_find :
    (m : Manager) (id i : ℕ)
    → lookup m id ≡ some i
    → (id ≢ id_none) × (find_slot m.slots id ≡ some i)
unfolding lookup
lookup_find m id i e = (λ z. ground arith, ground arith)

-- What `sensor_manager_release` did.
pub record Released (m : Manager) (id : ℕ) (m' : Manager) : Type 0 where
  pub valid : IsManager m'
  pub hint : m'.next_id_hint ≡ m.next_id_hint
  pub entries : (j : ℕ) → entry m' j ≡ (if id == j then none else entry m j)

-- `sensor_manager_release` removes the entry of the id and no other, whether or not the id is
-- live, keeps the hint, and keeps the table well formed.
pub release-Released : (m : Manager) (id : ℕ) → IsManager m → Released m id (release m id)
release-Released m id v = elim (Option-cases (lookup m id)) [
  | inl e ↦
      let gone : entry m id ≡ none =
        sym (lookup-entry m id) ∙ ap (Option.map (λ i. slot_entry (slot_at m i))) e in
      rw (release_missing m id e) (record {
        valid = v;
        hint = refl;
        entries = λ j. elim (Bool-cases (id == j)) [
          | inl q ↦ rw q (ap (entry m) (sym ((==_iff id j).0 q)) ∙ gone)
          | inr q ↦ rw q refl
        ];
      })
  | inr (i, e) ↦
      let (live, found) = lookup_find m id i e in
      rw (release_found m id i e) (record {
        valid = record {
          size = length-set m.slots i free_slot ∙ v.size;
          hint = v.hint;
          no_repeat = NoRepeat-set_free m.slots i v.no_repeat;
        };
        hint = refl;
        entries = λ j. elim (Bool-cases (j == id_none)) [
          | inl q ↦ unfold entry in ground arith
          | inr q ↦
              unfold entry in
              rw q (entry_in-set-none id j (λ z. ground arith) live m.slots i found v.no_repeat)
        ];
      })
]

-- An id that was just released is not handed out by the next `sensor_manager_register`, if the one
-- before it had handed it out: a stale reference does not meet a new sensor at once.
pub register-no_recycle :
    (m : Manager) (p q p' q' : ℕ)
    → IsManager m
    → id_in_use m.slots id_none ≡ true
    → let (id, m₁) = register m p q in let (id', m₂) = register (release m₁ id) p' q' in id' ≢ id
register-no_recycle m p q p' q' v free =
    let (id, m₁) = register m p q in
    let first = register-Registered m p q v free in
    let freed = release-Released m₁ id first.valid in
    elim (Bool-cases (id_in_use (release m₁ id).slots id_none)) [
      | inr full ↦ rw (register_full (release m₁ id) p' q' full) (λ e. omega (arith, e, first.id))
      | inl space ↦
          let second = register-Registered (release m₁ id) p' q' freed.valid space in
          λ e. candidate-ne id second.steps first.id (omega (arith, second.near)) (
            sym e
            ∙ second.at
            ∙ ap (λ (h : ℕ). candidate h second.steps) (freed.hint ∙ first.hint)
            ∙ candidate-next_hint id second.steps first.id)
    ]
