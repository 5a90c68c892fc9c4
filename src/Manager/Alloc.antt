-- ===== src/Manager/Alloc.antt =====
-- `allocate_id`: with at most 254 slots it finds a free id before it runs out of tries, since the
-- candidates of one round are distinct.
use mathlib.Core.Path.{subst}
use hilglebone.Base.{ℕ, zero, suc, ◌+◌, ◌-◌, ◌%◌, ◌≤◌, ◌<◌, List, [], ◌∷◌, ◌≡◌, refl, ap, sym}
use hilglebone.Base.{◌∙◌, ◌≢◌, inl, inr, arith, true, false, ◌==◌, if◌then◌else◌}
use hilglebone.Base.{length, Bool-cases}
use hilglebone.Manager.{Slot, max_slots, id_min, id_max, id_in_use, next_hint, allocate_from}

abbrev pub IsId : ℕ → Type 0
IsId id = (id_min ≤ id) × (id ≤ id_max)

pub next_hint-IsId : (h : ℕ) → IsId h → IsId (next_hint h)
unfolding next_hint
next_hint-IsId h v = ground arith

-- The candidate `k` tries after `h`.
abbrev pub candidate : ℕ → ℕ → ℕ
candidate h k = (h - 1 + k) % 255 + 1

pub candidate-next_hint : (h k : ℕ) → IsId h → candidate (next_hint h) k ≡ candidate h (suc k)
unfolding next_hint
candidate-next_hint h k v = ground arith

candidate-zero : (h : ℕ) → IsId h → candidate h 0 ≡ h
candidate-zero h v = omega arith

pub candidate-ne : (h k : ℕ) → IsId h → suc k < 255 → h ≢ candidate h (suc k)
candidate-ne h k v b = omega arith

-- The slots without the first one that has this id.
forget : ℕ → List Slot → List Slot
forget id [] = []
forget id (s ∷ rest) = let kept = forget id rest in if s.id == id then rest else s ∷ kept

length-forget :
    (id : ℕ) (xs : List Slot) → id_in_use xs id ≡ true → suc (length (forget id xs)) ≡ length xs
unfolding id_in_use forget
length-forget id [] h = cc
length-forget id (s ∷ rest) h = elim (Bool-cases (s.id == id)) [
  | inl e ↦ rw e refl
  | inr e ↦ rw e (ap suc (length-forget id rest (ground arith)))
]

id_in_use-forget :
    (id other : ℕ) (xs : List Slot)
    → id ≢ other
    → id_in_use (forget id xs) other ≡ id_in_use xs other
unfolding id_in_use forget
id_in_use-forget id other [] ne = refl
id_in_use-forget id other (s ∷ rest) ne = ground (arith, id_in_use-forget id other rest ne)

id_in_use_empty : (xs : List Slot) (id : ℕ) → length xs ≡ 0 → id_in_use xs id ≡ false
unfolding id_in_use
id_in_use_empty [] id h = refl
id_in_use_empty (s ∷ rest) id h = absurd (omega arith)

-- What `allocate_id` promises.
pub record Allocated (slots : List Slot) (h bound : ℕ) (out : ℕ × ℕ) : Type 0 where
  pub id : IsId out.0
  pub fresh : id_in_use slots out.0 ≡ false
  pub hint : out.1 ≡ next_hint out.0
  pub steps : ℕ
  pub near : steps ≤ bound
  pub at : out.0 ≡ candidate h steps

-- `left` are the slots whose ids may still be met.
allocate_from-Allocated :
    (n h : ℕ) (slots left : List Slot)
    → IsId h
    → length left < n
    → n ≤ 255
    → ((k : ℕ) → k < n → id_in_use slots (candidate h k) ≡ id_in_use left (candidate h k))
    → Allocated slots h (length left) (allocate_from n slots h)
unfolding allocate_from
allocate_from-Allocated zero h slots left v len b same = absurd (omega arith)
allocate_from-Allocated (suc n) h slots left v len b same = elim (Bool-cases (id_in_use slots h)) [
  | inr free ↦ rw free (record {
    id = v;
    fresh = free;
    hint = refl;
    steps = 0;
    near = omega arith;
    at = sym (candidate-zero h v);
  })
  | inl used ↦
      let met : id_in_use left h ≡ true =
        ap (id_in_use left) (sym (candidate-zero h v))
        ∙ sym (same 0 (omega arith))
        ∙ ap (id_in_use slots) (candidate-zero h v)
        ∙ used in
      let ih =
        allocate_from-Allocated n (next_hint h) slots (forget h left) (next_hint-IsId h v)
          (omega (arith, length-forget h left met)) (omega arith)
          (λ k lt. rw (candidate-next_hint h k v) (
            same (suc k) (omega arith)
            ∙ sym (
                id_in_use-forget h (candidate h (suc k)) left
                  (candidate-ne h k v (omega arith))))) in
      rw used (record {
        id = ih.id;
        fresh = ih.fresh;
        hint = ih.hint;
        steps = suc ih.steps;
        near = omega (arith, ih.near, length-forget h left met);
        at = ih.at ∙ candidate-next_hint h ih.steps v;
      })
]

pub allocate-Allocated :
    (slots : List Slot) (h : ℕ)
    → length slots ≡ max_slots
    → IsId h
    → Allocated slots h max_slots (allocate_from 255 slots h)
allocate-Allocated slots h len v =
    subst (λ b. Allocated slots h b (allocate_from 255 slots h)) len
      (allocate_from-Allocated 255 h slots slots v (omega arith) (omega arith) (λ k lt. refl))
