-- ===== src/SpiSlave/Stream.antt =====
-- What the external master reads from the slave after spi_slave_set_tx.
use native.Mathlib.Nat.{mod_self, mod-eq_of_lt, mod-lt, suc-mod}
use hilglebone.Base.{
  ℕ, zero, suc, ◌+◌, ◌%◌, ◌≤◌, ◌<◌, List, [], ◌∷◌, ◌≡◌, refl, sym, ap, ◌∙◌, arith, Bool, true,
  false, Option, some, none, inl, inr, ltb, leb, lt→ltb, ==_cases, if◌then◌else◌, u8, get_or,
  length, copy, get_or-copy, get_or-set_self, set, leb, ◌==◌, ◌||◌,
}
use mathlib.Core.Path.{subst}
use hilglebone.Base.ErrCode.{ErrCode}
use hilglebone.Spi.{Regs, periph_count, regs_reset}
use hilglebone.SpiSlave.{
  Slave, Bus, slave_at, regs_at, slave_reset, isr, next_idx, loaded, set_tx, tx_buf_max,
}

-- The bytes that the interrupts of a list write to DR, each with or without TXE.
unfoldable pub stream : Slave → Regs → List Bool → List ℕ
unfolding isr
stream s r [] = []
stream s r (txe ∷ rest) =
    let later = stream (isr s r txe).0 r rest in
    elim (isr s r txe).1 [ none ↦ later | some byte ↦ byte ∷ later ]

-- The elements of `buf` round and round, from the one numbered `i` on, one for each TXE.
unfoldable pub cycle : List ℕ → ℕ → ℕ → List Bool → List ℕ
cycle buf len i [] = []
cycle buf zero i (txe ∷ rest) = []
cycle buf (suc m) i (true ∷ rest) = get_or buf (i % suc m) 0 ∷ cycle buf (suc m) (suc i) rest
cycle buf (suc m) i (false ∷ rest) = cycle buf (suc m) i rest

-- The slave serves the `len` bytes of `buf` and stands at the one numbered `i`.
pub record Serves (buf : List ℕ) (len i : ℕ) (s : Slave) : Type 0 where
  pub len_eq : s.tx_len ≡ len
  pub idx_eq : s.tx_idx ≡ i % len
  pub content : (k : ℕ) → k < len → get_or s.tx_buf k 0 ≡ get_or buf k 0

next_idx_at : (x m : ℕ) → m < 64 → x < suc m → next_idx x (suc m) ≡ suc x % suc m
unfolding next_idx
next_idx_at x m small h = elim (==_cases (suc x) (suc m)) [
  | inl e ↦
      let w : leb (suc m) (u8 (x + 1)) ≡ true = ground arith in
      rw (next_idx, w) (sym (ap (λ k. k % suc m) e ∙ mod_self (suc m)))
  | inr ne ↦
      let w : leb (suc m) (u8 (x + 1)) ≡ false = ground arith in
      let k : u8 (x + 1) ≡ suc x = omega arith in
      rw (next_idx, w) (k ∙ sym (mod-eq_of_lt (omega arith)))
]

next_idx_lem : (m i : ℕ) → m < 64 → next_idx (i % suc m) (suc m) ≡ suc i % suc m
next_idx_lem m i small =
    next_idx_at (i % suc m) m small (mod-lt i (omega arith)) ∙ sym (suc-mod i (suc m))

-- What an interrupt with TXE does.
isr-Serves :
    (buf : List ℕ) (m i : ℕ) (s : Slave) (r : Regs)
    → m < 64
    → r.txeie ≡ true
    → Serves buf (suc m) i s
    → isr s r true ≡ (record s { tx_idx = suc i % suc m }, some (get_or buf (i % suc m) 0))
unfolding isr
isr-Serves buf m i s r small on S =
    let lt : i % suc m < suc m = mod-lt i (omega arith) in
    let inside : ltb s.tx_idx s.tx_len ≡ true =
      lt→ltb s.tx_idx s.tx_len (omega (arith, lt, S.idx_eq, S.len_eq)) in
    let stepped : next_idx s.tx_idx s.tx_len ≡ suc i % suc m =
      rw (S.idx_eq, S.len_eq) (next_idx_lem m i small) in
    let read : get_or s.tx_buf s.tx_idx 0 ≡ get_or buf (i % suc m) 0 =
      ap (λ k. get_or s.tx_buf k 0) S.idx_eq ∙ S.content (i % suc m) lt in
    rw (isr, on, inside) (rw (stepped, read) refl)

-- While TXE is enabled, a slave that stands at the byte numbered `i` of a buffer of 1 to 64 bytes
-- writes the buffer round and round from there, one byte for each interrupt with TXE.
pub stream-cycle :
    (buf : List ℕ) (m i : ℕ) (s : Slave) (r : Regs) (events : List Bool)
    → m < 64
    → r.txeie ≡ true
    → Serves buf (suc m) i s
    → stream s r events ≡ cycle buf (suc m) i events
unfolding stream cycle isr
stream-cycle buf m i s r [] small on S = refl
stream-cycle buf m i s r (false ∷ rest) small on S = stream-cycle buf m i s r rest small on S
stream-cycle buf m i s r (true ∷ rest) small on S =
    let S' : Serves buf (suc m) (suc i) (record s { tx_idx = suc i % suc m }) = record {
      len_eq = S.len_eq;
      idx_eq = refl;
      content = S.content;
    } in
    ap
      (λ (o : Slave × Option ℕ). elim o.1 [
        | none ↦ stream o.0 r rest
        | some byte ↦ byte ∷ stream o.0 r rest
      ])
      (isr-Serves buf m i s r small on S)
    ∙ ap (λ t. get_or buf (i % suc m) 0 ∷ t) (stream-cycle buf m (suc i) _ r rest small on S')

start_idx : (m : ℕ) → (if ltb 1 (suc m) then 1 else 0) ≡ 1 % suc m
start_idx zero = refl
start_idx (suc m) =
    let t : ltb 1 (suc (suc m)) ≡ true = ground arith in
    rw t (sym (mod-eq_of_lt (let h : 1 < suc (suc m) = omega arith in h)))

loaded-get_or :
    (s : Slave) (buf : List ℕ) (m : ℕ)
    → m < 64
    → suc m ≤ length buf
    → length s.tx_buf ≡ 64
    → (k : ℕ) → k < suc m
    → get_or (copy s.tx_buf 0 buf 0 (suc m)) k 0 ≡ get_or buf k 0
loaded-get_or s buf m small given size k h =
    let e : 0 + k ≡ k = omega arith in
    subst (λ j. get_or (copy s.tx_buf 0 buf 0 (suc m)) j 0 ≡ get_or buf j 0) e
      (get_or-copy s.tx_buf 0 buf 0 (suc m) (omega arith) (omega arith) k 0 h)

loaded-Serves :
    (s : Slave) (buf : List ℕ) (m : ℕ)
    → m < 64
    → suc m ≤ length buf
    → length s.tx_buf ≡ 64
    → Serves buf (suc m) 1 (loaded s buf (suc m))
unfolding loaded
loaded-Serves s buf m small given size = record {
  len_eq = refl;
  idx_eq = start_idx m;
  content = λ k h. loaded-get_or s buf m small given size k h;
}

-- An initialized slave whose buffer is there, and a peripheral that is.
pub record IsReady (b : Bus) (periph : ℕ) : Type 0 where
  pub exists : periph < 2
  pub slaves : length b.slaves ≡ 2
  pub regs : length b.regs ≡ 2
  pub room : length (slave_at b periph).tx_buf ≡ 64
  pub initialized : (slave_at b periph).initialized ≡ true

-- What a call of `spi_slave_set_tx` with an array of `m + 1` bytes leaves.
abbrev pub filled : Bus → ℕ → List ℕ → ℕ → Bus
filled b periph buf m = record b {
  regs = set b.regs periph (record (regs_at b periph) { txeie = true });
  slaves = set b.slaves periph (loaded (slave_at b periph) buf (suc m));
}

set_tx_lem :
    (b : Bus) (periph : ℕ) (buf : List ℕ) (m : ℕ)
    → IsReady b periph
    → m < 64
    → set_tx b periph buf (suc m) ≡ (
      ErrCode.success,
      filled b periph buf m,
      some (get_or (loaded (slave_at b periph) buf (suc m)).tx_buf 0 0),
    )
unfolding set_tx
set_tx_lem b periph buf m R small =
    let exists = R.exists in
    let guard : (leb periph_count periph || (suc m == 0 || ltb tx_buf_max (suc m))) ≡ false =
      ground (arith, exists, small) in
    rw (set_tx, guard, R.initialized) refl

filled-cycle :
    (b : Bus) (periph : ℕ) (buf : List ℕ) (m : ℕ) (events : List Bool)
    → IsReady b periph
    → m < 64
    → suc m ≤ length buf
    → (let b' = filled b periph buf m in
        stream (slave_at b' periph) (regs_at b' periph) events ≡ cycle buf (suc m) 1 events)
filled-cycle b periph buf m events R small given =
    let exists = R.exists in
    let s : Slave = loaded (slave_at b periph) buf (suc m) in
    let r : Regs = record (regs_at b periph) { txeie = true } in
    let stored : slave_at (filled b periph buf m) periph ≡ s =
      get_or-set_self b.slaves periph s slave_reset (omega (arith, exists, R.slaves)) in
    let enabled : regs_at (filled b periph buf m) periph ≡ r =
      get_or-set_self b.regs periph r regs_reset (omega (arith, exists, R.regs)) in
    ap (λ x. stream x (regs_at (filled b periph buf m) periph) events) stored
    ∙ ap (λ x. stream s x events) enabled
    ∙ stream-cycle buf m 1 s r events small refl
        (loaded-Serves (slave_at b periph) buf m small given R.room)

-- A call of `spi_slave_set_tx` for an initialized slave with 1 to 64 bytes of an array succeeds and
-- writes the first of them to DR, and from then on the interrupts with TXE write the bytes round and
-- round from the second on, whatever the slave sent before and however many the master clocks out.
pub set_tx-cycle :
    (b : Bus) (periph : ℕ) (buf : List ℕ) (m : ℕ) (events : List Bool)
    → IsReady b periph
    → m < 64
    → suc m ≤ length buf
    → (let (err, b', sent) = set_tx b periph buf (suc m) in
        (err ≡ ErrCode.success)
        × (sent ≡ some (get_or buf 0 0))
        × (stream (slave_at b' periph) (regs_at b' periph) events ≡ cycle buf (suc m) 1 events))
unfolding loaded
set_tx-cycle b periph buf m events R small given =
    subst
      (λ (o : ErrCode × Bus × Option ℕ).
        (o.0 ≡ ErrCode.success)
        × (o.2 ≡ some (get_or buf 0 0))
        × (stream (slave_at o.1 periph) (regs_at o.1 periph) events ≡ cycle buf (suc m) 1 events))
      (sym (set_tx_lem b periph buf m R small))
      (
        refl,
        ap some (loaded-get_or (slave_at b periph) buf m small given R.room 0 (omega arith)),
        filled-cycle b periph buf m events R small given,
      )
