-- ===== src/I2cSlave/Transmit.antt =====
-- The bytes that a master reads in one transfer.
use hilglebone.Base.{
  ℕ, zero, suc, ◌+◌, ◌≤◌, ◌<◌, ◌^◌, List, [], ◌∷◌, ◌≡◌, refl, sym, ap, ◌∙◌, arith, true, false,
  ◌||◌, Option, some, none, leb, ltb, ◌==◌, u16, get_or, length, take, drop, replicate,
}
use hilglebone.I2cSlave.{
  Slave, Phase, Event, ev_isr, on_txe, regmap_read, next_ptr, auto_inc_read, auto_inc_both,
}
use hilglebone.I2cSlave.Access.{Irq, run}

-- The event interrupt for an empty data register.
abbrev pub data_wanted : Event
data_wanted = record {
  addr = false;
  tra = false;
  rxne = false;
  txe = true;
  btf = false;
  stopf = false;
  dr = 0;
}

-- A slave in the transmit phase that counts on reads, with its register map in range.
pub record IsSending (s : Slave) : Type 0 where
  pub phase : s.phase ≡ Phase.tx
  pub increments : (s.auto_inc_mode == auto_inc_read || s.auto_inc_mode == auto_inc_both) ≡ true
  pub fits : s.regmap_len ≤ length s.regmap
  pub word : s.regmap_len < 2 ^ 16

get_or-drop :
    (xs : List ℕ) (i n : ℕ)
    → i < length xs
    → take (suc n) (drop i xs) ≡ get_or xs i 0 ∷ take n (drop (suc i) xs)
get_or-drop [] i n h = absurd (omega arith)
get_or-drop (x ∷ xs) zero n h = refl
get_or-drop (x ∷ xs) (suc i) n h = get_or-drop xs i n (omega arith)

-- One byte.
sent :
    (s : Slave)
    → IsSending s
    → s.reg_ptr < s.regmap_len
    → ev_isr s data_wanted ≡ (record s { reg_ptr = next_ptr s }, some (get_or s.regmap s.reg_ptr 0))
unfolding ev_isr on_txe regmap_read next_ptr
sent s v h =
    let near : leb s.regmap_len s.reg_ptr ≡ false = ground arith in
    let inc : (s.auto_inc_mode == auto_inc_read || s.auto_inc_mode == auto_inc_both) ≡ true =
      v.increments in
    let tx : s.phase ≡ Phase.tx = v.phase in rw (ev_isr, on_txe, regmap_read, tx, near, inc) refl

-- The pointer on its way through the map.
moved :
    (s : Slave) → s.reg_ptr + 1 < s.regmap_len → s.regmap_len < 2 ^ 16 → next_ptr s ≡ s.reg_ptr + 1
unfolding next_ptr
moved s more word =
    let t : ltb (s.reg_ptr + 1) s.regmap_len ≡ true = ground arith in
    let w : u16 (s.reg_ptr + 1) ≡ s.reg_ptr + 1 = omega arith in rw (t, w) refl

ahead :
    (s : Slave) (n : ℕ)
    → s.regmap_len < 2 ^ 16
    → s.reg_ptr + suc n ≤ s.regmap_len
    → next_ptr s + n ≤ s.regmap_len
unfolding next_ptr
ahead s zero word h = ground arith
ahead s (suc n) word h =
    let e : next_ptr s ≡ s.reg_ptr + 1 = moved s (omega arith) word in rw e (omega arith)

same_tail :
    (s : Slave) (n : ℕ)
    → s.regmap_len < 2 ^ 16
    → s.reg_ptr + suc n ≤ s.regmap_len
    → (xs : List ℕ) → take n (drop (next_ptr s) xs) ≡ take n (drop (suc s.reg_ptr) xs)
same_tail s zero word h xs = refl
same_tail s (suc n) word h xs =
    let e : next_ptr s ≡ s.reg_ptr + 1 = moved s (omega arith) word in
    let f : s.reg_ptr + 1 ≡ suc s.reg_ptr = omega arith in rw (e, f) refl

-- In every addressing mode, the one without register addresses included: in the transmit phase with
-- the increment on reads, and with a register map in memory that is
-- as long as announced, below 65536 registers, `n` requests for data send the `n` registers from
-- the pointer on, in order, as long as they end within the register map.
pub run-registers :
    (s : Slave) (n : ℕ)
    → IsSending s
    → s.reg_ptr + n ≤ s.regmap_len
    → (run s (replicate n (Irq.event data_wanted))).1 ≡ take n (drop s.reg_ptr s.regmap)
unfolding run
run-registers s zero v h = refl
run-registers s (suc n) v h =
    let fits : s.regmap_len ≤ length s.regmap = v.fits in
    let word : s.regmap_len < 2 ^ 16 = v.word in
    let step = sent s v (omega arith) in
    let s' : Slave = record s { reg_ptr = next_ptr s } in
    let rest : List Irq = replicate n (Irq.event data_wanted) in
    let later : (run s' rest).1 ≡ take n (drop (suc s.reg_ptr) s.regmap) =
      run-registers s' n
        (record { phase = v.phase; increments = v.increments; fits = v.fits; word = v.word })
        (ahead s n word h)
      ∙ same_tail s n word h s.regmap in
    let here : (run s (Irq.event data_wanted ∷ rest)).1
        ≡ get_or s.regmap s.reg_ptr 0 ∷ (run s' rest).1 =
      ap
        (λ (r : Slave × Option ℕ). elim r.1 [
          | none ↦ (run r.0 rest).1
          | some byte ↦ byte ∷ (run r.0 rest).1
        ])
        step in
    here
    ∙ ap (λ xs. get_or s.regmap s.reg_ptr 0 ∷ xs) later
    ∙ sym (get_or-drop s.regmap s.reg_ptr n (omega arith))
