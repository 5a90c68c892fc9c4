-- ===== src/Manager/Table.antt =====
-- The table as a finite map from ids to the protocol and the internal id of a sensor.
use hilglebone.Base.{ℕ, zero, suc, ◌<◌, List, [], ◌∷◌, ◌≡◌, refl, ◌≢◌, ◌⊎◌, inl, inr}
use hilglebone.Base.{arith, false, ◌==◌, if◌then◌else◌, Option, none, some, length}
use hilglebone.Base.{get_or, set, Bool-cases, Option-cases, ==_iff, replicate}
use hilglebone.Manager.{Slot, Manager, free_slot, max_slots, id_none, id_in_use, find_slot}
use hilglebone.Manager.Alloc.{IsId}

-- The entry of an id in the table.
abbrev pub Entry : Type 0
Entry = ℕ × ℕ

unfoldable pub entry_in : List Slot → ℕ → Option Entry
entry_in [] id = none
entry_in (s ∷ rest) id =
    let later = entry_in rest id in
    if s.id == id then some (s.protocol_id, s.internal_id) else later

-- The map that the table stands for.
unfoldable pub entry : Manager → ℕ → Option Entry
unfolding entry_in
entry m id = if id == id_none then none else entry_in m.slots id

abbrev pub slot_entry : Slot → Entry
slot_entry s = (s.protocol_id, s.internal_id)

-- No id stands in two slots.
abbrev pub NoRepeat : List Slot → Type 0
NoRepeat [] = Unit {0}
NoRepeat (s ∷ rest) = (s.id ≡ id_none ⊎ id_in_use rest s.id ≡ false) × NoRepeat rest

pub record IsManager (m : Manager) : Type 0 where
  pub size : length m.slots ≡ max_slots
  pub hint : IsId m.next_id_hint
  pub no_repeat : NoRepeat m.slots

-- Induction on the search for the first slot with an id.
find_slot_cases {ℓ} :
    (id : ℕ) (P : List Slot → ℕ → Type ℓ)
    → ((s : Slot) (rest : List Slot) → s.id ≡ id → P (s ∷ rest) 0)
    → ((s : Slot) (rest : List Slot) (k : ℕ)
        → s.id ≢ id
        → find_slot rest id ≡ some k
        → P rest k
        → P (s ∷ rest) (suc k))
    → (xs : List Slot) (i : ℕ) → find_slot xs id ≡ some i
    → P xs i
unfolding find_slot
find_slot_cases id P base step [] i f = cc
find_slot_cases id P base step (s ∷ rest) i f = elim (Bool-cases (s.id == id)) [
  | inl e ↦ let here : i ≡ 0 = ground arith in rw here (base s rest ((==_iff s.id id).0 e))
  | inr e ↦ elim (Option-cases (find_slot rest id)) [
    | inl missing ↦ absurd (ground arith)
    | inr (k, found) ↦
        let there : i ≡ suc k = ground arith in
        rw there
          (step s rest k (λ q. ground arith) found (find_slot_cases id P base step rest k found))
  ]
]

find_slot_lt : (xs : List Slot) (id i : ℕ) → find_slot xs id ≡ some i → i < length xs
find_slot_lt xs id =
    find_slot_cases id (λ ys k. k < length ys) (λ s rest e. omega arith)
      (λ s rest k ne f ih. omega arith) xs

-- What the index points at is the entry.
pub find_slot_entry :
    (xs : List Slot) (id i : ℕ)
    → find_slot xs id ≡ some i
    → entry_in xs id ≡ some (slot_entry (get_or xs i free_slot))
unfolding entry_in
find_slot_entry xs id =
    find_slot_cases id (λ ys k. entry_in ys id ≡ some (slot_entry (get_or ys k free_slot)))
      (λ s rest e. ground arith) (λ s rest k ne f ih. ground arith) xs

pub find_slot_missing : (xs : List Slot) (id : ℕ) → find_slot xs id ≡ none → entry_in xs id ≡ none
unfolding entry_in find_slot
find_slot_missing [] id h = refl
find_slot_missing (s ∷ rest) id h = elim (Option-cases (find_slot rest id)) [
  | inl m ↦ ground (arith, find_slot_missing rest id m)
  | inr (k, f) ↦ absurd (ground arith)
]

pub id_in_use-entry_in : (xs : List Slot) (id : ℕ) → id_in_use xs id ≡ false → entry_in xs id ≡ none
unfolding id_in_use entry_in
id_in_use-entry_in [] id h = refl
id_in_use-entry_in (s ∷ rest) id h = ground (arith, id_in_use-entry_in rest id)

-- A slot that was free takes a fresh id: the map gains that entry and keeps the others.
pub entry_in-set_free :
    (id p q j : ℕ)
    → j ≢ id_none
    → (xs : List Slot) (i : ℕ) → find_slot xs id_none ≡ some i
    → id_in_use xs id ≡ false
    → entry_in (set xs i (record { id = id; protocol_id = p; internal_id = q })) j
      ≡ (if id == j then some (p, q) else entry_in xs j)
unfolding entry_in id_in_use
entry_in-set_free id p q j ne =
    find_slot_cases id_none
      (λ ys k.
        id_in_use ys id ≡ false
        → entry_in (set ys k (record { id = id; protocol_id = p; internal_id = q })) j
          ≡ (if id == j then some (p, q) else entry_in ys j))
      (λ s rest e u. ground arith) (λ s rest k taken f ih u. ground (arith, ih))

-- The first slot of an id that stands in no other is freed: the map loses that entry only.
pub entry_in-set-none :
    (id j : ℕ)
    → j ≢ id_none
    → id ≢ id_none
    → (xs : List Slot) (i : ℕ) → find_slot xs id ≡ some i
    → NoRepeat xs
    → entry_in (set xs i free_slot) j ≡ (if id == j then none else entry_in xs j)
unfolding entry_in
entry_in-set-none id j nj ni =
    find_slot_cases id
      (λ ys k.
        NoRepeat ys → entry_in (set ys k free_slot) j ≡ (if id == j then none else entry_in ys j))
      (λ s rest e u. ground (arith, id_in_use-entry_in rest j))
      (λ s rest k taken f ih u. ground (arith, ih))

-- Only the id that is stored comes into use.
id_in_use-set :
    (new : Slot) (j : ℕ) (xs : List Slot) (i : ℕ)
    → id_in_use xs j ≡ false
    → new.id ≢ j
    → id_in_use (set xs i new) j ≡ false
unfolding id_in_use
id_in_use-set new j [] i u ne = refl
id_in_use-set new j (s ∷ rest) zero u ne = ground arith
id_in_use-set new j (s ∷ rest) (suc i) u ne = ground (arith, id_in_use-set new j rest i)

pub NoRepeat-set_fresh :
    (new : Slot) (xs : List Slot) (i : ℕ)
    → id_in_use xs new.id ≡ false
    → NoRepeat xs
    → NoRepeat (set xs i new)
unfolding id_in_use
NoRepeat-set_fresh new [] i u n = tt
NoRepeat-set_fresh new (s ∷ rest) zero u n = (inr (ground arith), n.1)
NoRepeat-set_fresh new (s ∷ rest) (suc i) u n = (
  elim n.0 [ inl e ↦ inl e | inr e ↦ inr (id_in_use-set new s.id rest i e (λ q. ground arith)) ],
  NoRepeat-set_fresh new rest i (ground arith) n.1,
)

pub NoRepeat-set_free : (xs : List Slot) (i : ℕ) → NoRepeat xs → NoRepeat (set xs i free_slot)
NoRepeat-set_free [] i n = tt
NoRepeat-set_free (s ∷ rest) zero n = (inl refl, n.1)
NoRepeat-set_free (s ∷ rest) (suc i) n = (
  elim n.0 [
    | inl e ↦ inl e
    | inr e ↦ elim (Bool-cases (s.id == id_none)) [
      | inl z ↦ inl ((==_iff s.id id_none).0 z)
      | inr z ↦ inr (id_in_use-set free_slot s.id rest i e (λ q. ground arith))
    ]
  ],
  NoRepeat-set_free rest i n.1,
)

pub NoRepeat-free : (n : ℕ) → NoRepeat (replicate n free_slot)
NoRepeat-free zero = tt
NoRepeat-free (suc n) = (inl refl, NoRepeat-free n)

pub find_slot_unused : (xs : List Slot) (id : ℕ) → find_slot xs id ≡ none → id_in_use xs id ≡ false
unfolding id_in_use find_slot
find_slot_unused [] id h = refl
find_slot_unused (s ∷ rest) id h = elim (Option-cases (find_slot rest id)) [
  | inl m ↦ ground (arith, find_slot_unused rest id m)
  | inr (k, f) ↦ absurd (ground arith)
]

pub find_slot-none : (xs : List Slot) (id : ℕ) → id_in_use xs id ≡ false → find_slot xs id ≡ none
unfolding id_in_use find_slot
find_slot-none [] id h = refl
find_slot-none (s ∷ rest) id h = ground (arith, find_slot-none rest id)
