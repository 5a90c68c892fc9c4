-- ===== src/Ring/Laws.antt =====
-- A ring is a queue of at most 511 bytes.
use mathlib.Core.Path.{ap₂}
use hilglebone.Base.{ℕ, zero, suc, ◌+◌, ◌-◌, ◌%◌, ◌<◌, List, [], ◌∷◌, ◌++◌, ◌≡◌, refl, ap}
use hilglebone.Base.{sym, ◌∙◌, arith, ◌==◌, length, get_or, set, length-set}
use hilglebone.Base.{get_or-set_self, get_or-set_ne}
use hilglebone.Base.Bits.{bit_and_mask}
use hilglebone.Ring.{size, Ring, next, is_full, is_empty, put, front, advance}

pub record IsRing (r : Ring) : Type 0 where
  pub storage : length r.buf ≡ size
  pub head_in : r.head < size
  pub tail_in : r.tail < size

-- The mask is the remainder, since the size is a power of two.
pub next_lem : (i : ℕ) → next i ≡ (i + 1) % size
unfolding next
next_lem i = omega (arith, bit_and_mask 9 (i + 1))

-- How many bytes the ring holds.
abbrev pub count : Ring → ℕ
count r = (r.head + size - r.tail) % size

-- The `n` bytes from index `t` on, round the end of the storage.
abbrev from_index : List ℕ → ℕ → ℕ → List ℕ
from_index buf t zero = []
from_index buf t (suc n) = get_or buf t 0 ∷ from_index buf ((t + 1) % size) n

-- What the ring holds, oldest first.
abbrev pub contents : Ring → List ℕ
contents r = from_index r.buf r.tail (count r)

length-from_index : (buf : List ℕ) (t n : ℕ) → length (from_index buf t n) ≡ n
length-from_index buf t zero = refl
length-from_index buf t (suc n) = ap suc (length-from_index buf ((t + 1) % size) n)

pub length-contents : (r : Ring) → length (contents r) ≡ count r
length-contents r = length-from_index r.buf r.tail (count r)

-- Storing just behind the bytes held makes it the last of them.
from_index-set :
    (buf : List ℕ) (t n h x : ℕ)
    → length buf ≡ size
    → t < size
    → suc n < size
    → h ≡ (t + n) % size
    → from_index (set buf h x) t (suc n) ≡ from_index buf t n ++ (x ∷ [])
from_index-set buf t zero h x s ht hn e =
    let at : h ≡ t = omega arith in rw at (ap (λ y. y ∷ []) (get_or-set_self buf t x 0 (rw s ht)))
from_index-set buf t (suc n) h x s ht hn e =
    ap₂ ◌∷◌ (get_or-set_ne buf h t x 0 (omega arith))
      (from_index-set buf ((t + 1) % size) n h x s (omega arith) (omega arith) (omega arith))

pub is_full_iff : {r : Ring} → IsRing r → is_full r ≡ (count r == size - 1)
unfolding is_full
is_full_iff {r} v = ground (arith, next_lem r.head)

pub is_empty_iff : {r : Ring} → IsRing r → is_empty r ≡ (count r == 0)
unfolding is_empty
is_empty_iff v = ground arith

pub put-IsRing : {r : Ring} (b : ℕ) → IsRing r → IsRing (put r b)
unfolding put
put-IsRing {r} b v = record {
  storage = length-set r.buf r.head b ∙ v.storage;
  head_in = omega (arith, next_lem r.head);
  tail_in = v.tail_in;
}

pub advance-IsRing : {r : Ring} → IsRing r → IsRing (advance r)
unfolding advance
advance-IsRing {r} v = record {
  storage = v.storage;
  head_in = v.head_in;
  tail_in = omega (arith, next_lem r.tail);
}

pub count-put : {r : Ring} (b : ℕ) → IsRing r → count r < size - 1 → count (put r b) ≡ suc (count r)
unfolding put
count-put {r} b v h = omega (arith, next_lem r.head)

-- A ring that is not full takes a byte at the end.
pub contents-put :
    {r : Ring} (b : ℕ) → IsRing r → count r < size - 1 → contents (put r b) ≡ contents r ++ (b ∷ [])
contents-put {r} b v h = rw (count-put b v h) (
    unfold put in
    from_index-set r.buf r.tail (count r) r.head b v.storage v.tail_in (omega arith) (omega arith))

-- The front of a ring that is not empty is the oldest byte, and `advance` drops it.
pub contents-advance :
    {r : Ring} → IsRing r → 0 < count r → contents r ≡ front r ∷ contents (advance r)
unfolding advance front
contents-advance {r} v h =
    let left : count r ≡ suc ((r.head + size - next r.tail) % size) =
      omega (arith, next_lem r.tail) in
    rw left (
      ap
        (λ (t : ℕ).
          get_or r.buf r.tail 0 ∷ from_index r.buf t ((r.head + size - next r.tail) % size))
        (sym (next_lem r.tail)))

pub contents_empty : (r : Ring) → count r ≡ 0 → contents r ≡ []
contents_empty r h = ap (λ (n : ℕ). from_index r.buf r.tail n) h
