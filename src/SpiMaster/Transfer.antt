-- ===== src/SpiMaster/Transfer.antt =====
-- A transfer from `spi_master_write` to the callback: what the interrupts of the peripheral do to it.
use mathlib.Core.List.{append-nil}
use mathlib.Core.Path.{subst}
use hilglebone.Base.{
  ℕ, zero, suc, ◌+◌, ◌*◌, ◌≤◌, ◌<◌, List, ◌≡◌, refl, sym, ◌∙◌, ◌⊎◌, arith, lt→ltb, ltb→lt,
  Bool-cases, Bool-clash, inl, inr, true, false, ◌&&◌, ◌||◌, none, ltb, leb, u8, length, take,
  take-length,
}
use hilglebone.Spi.{Regs}
use hilglebone.SpiMaster.{Master, Event, feed, isr, started}
use hilglebone.SpiMaster.Progress.{
  Progress, Fires, begun, after, advance, Reached, here, next, IsRunning, IsFinished, work,
  feed-Continues, and_left,
}

module _ (s : Master) (r : Regs) (buf : List ℕ) (e : Event) where
  isr_feed : (e.rxne && ltb 0 s.tx_idx) ≡ false → isr s r buf e ≡ feed s r buf e.txe
  unfolding isr
  isr_feed h = rw (isr, h) refl

  isr_count :
      (e.rxne && ltb 0 s.tx_idx) ≡ true
      → suc s.rx_count < s.tx_len
      → s.rx_count < 255
      → isr s r buf e ≡ feed (record s { rx_count = suc s.rx_count }) r buf e.txe
  unfolding isr
  isr_count h lt small =
      let k : u8 (s.rx_count + 1) ≡ suc s.rx_count = omega arith in
      let t : leb s.tx_len (suc s.rx_count) ≡ false = ground arith in rw (isr, h, k, t) refl

  isr_last :
      (e.rxne && ltb 0 s.tx_idx) ≡ true
      → s.tx_len ≤ suc s.rx_count
      → s.rx_count < 255
      → isr s r buf e ≡ record {
        master = record s { rx_count = suc s.rx_count; busy = false };
        regs = record r { txeie = false; rxneie = false };
        sent = none;
        called = true;
      }
  unfolding isr
  isr_last h le small =
      let k : u8 (s.rx_count + 1) ≡ suc s.rx_count = omega arith in
      let t : leb s.tx_len (suc s.rx_count) ≡ true = ground arith in rw (isr, h, k, t) refl

-- A transfer is under way, or over; `n` interrupts have worked on it.
abbrev pub IsTransfer : List ℕ → ℕ → Progress → Type 0
IsTransfer buf n p =
    (IsRunning buf p × (n ≤ work p.master p.regs)) ⊎ (IsFinished buf p × (n ≤ 2 * length buf + 1))

count-IsRunning :
    (buf : List ℕ) (p : Progress)
    → IsRunning buf p
    → p.master.rx_count < p.master.tx_idx
    → suc p.master.rx_count < length buf
    → IsRunning buf (record p { master = record p.master { rx_count = suc p.master.rx_count } })
count-IsRunning buf p R got more = record {
  busy = R.busy;
  len = R.len;
  within = R.within;
  in_order = R.in_order;
  received = omega arith;
  missing = more;
  uncalled = R.uncalled;
  rx_on = R.rx_on;
  tx_off = R.tx_off;
}

last-IsFinished :
    (buf : List ℕ) (p : Progress)
    → IsRunning buf p
    → p.master.rx_count < p.master.tx_idx
    → length buf ≤ suc p.master.rx_count
    → IsFinished buf (
        advance p (record {
          master = record p.master { rx_count = suc p.master.rx_count; busy = false };
          regs = record p.regs { txeie = false; rxneie = false };
          sent = none;
          called = true;
        }))
unfolding advance
last-IsFinished buf p R got last =
    let e : p.master.tx_idx ≡ length buf = omega arith in
    let all : take p.master.tx_idx buf ≡ buf = rw e (take-length buf) in
    record {
      idle = refl;
      complete = append-nil p.sent ∙ R.in_order ∙ all;
      called_once = omega arith;
      tx_disabled = refl;
      rx_disabled = refl;
    }

-- When RXNE counts nothing, the interrupt came for TXE.
fires_tx :
    (s : Master) (r : Regs) (e : Event)
    → Fires s r e
    → (e.rxne && ltb 0 s.tx_idx) ≡ false
    → (e.txe && r.txeie) ≡ true
fires_tx s r e (fires, got) off = elim (Bool-cases e.rxne) [
  | inr no_rx ↦ subst (λ b. (b && r.rxneie || e.txe && r.txeie) ≡ true) no_rx fires
  | inl rx ↦
      let lt = got rx in
      Bool-clash (e.rxne && ltb 0 s.tx_idx) (rw rx (lt→ltb 0 s.tx_idx (omega arith))) off
]

serve_lem :
    (buf : List ℕ) (n : ℕ) (p : Progress) (e : Event)
    → length buf < 256
    → IsRunning buf p
    → n ≤ work p.master p.regs
    → Fires p.master p.regs e
    → IsTransfer buf (suc n) (after p buf e)
unfolding advance work
serve_lem buf n p e small R bound (fires, got) =
    elim (Bool-cases (e.rxne && ltb 0 p.master.tx_idx)) [
      | inr off ↦
          let c = feed-Continues buf p e.txe small R in
          let grows = c.2 (fires_tx p.master p.regs e (fires, got) off) in
          subst (λ o. IsTransfer buf (suc n) (advance p o))
            (sym (isr_feed p.master p.regs buf e off)) (inl (c.0, omega (arith, bound, grows)))
      | inl on ↦
          let lt = got (and_left e.rxne (ltb 0 p.master.tx_idx) on) in
          elim (Bool-cases (ltb (suc p.master.rx_count) (length buf))) [
            | inl t ↦
                let more = ltb→lt (suc p.master.rx_count) (length buf) t in
                let c = feed-Continues buf _ e.txe small (count-IsRunning buf p R lt more) in
                let kept = c.1 in
                subst (λ o. IsTransfer buf (suc n) (advance p o))
                  (sym (isr_count p.master p.regs buf e on (omega arith) (omega arith)))
                  (inl (c.0, omega (arith, bound, kept)))
            | inr t ↦
                let last : length buf ≤ suc p.master.rx_count = ground arith in
                let most : work p.master p.regs ≤ p.master.tx_idx + p.master.rx_count + 1 =
                  ground arith in
                subst (λ o. IsTransfer buf (suc n) (advance p o))
                  (sym (isr_last p.master p.regs buf e on (omega arith) (omega arith)))
                  (inr (last-IsFinished buf p R lt last, omega arith))
          ]
    ]

pending : (buf : List ℕ) (p : Progress) → IsRunning buf p → (e : Event) × Fires p.master p.regs e
pending buf p R = elim (Bool-cases p.regs.txeie) [
  | inl on ↦ (record { rxne = false; txe = true }, (on, (λ t. absurd (cc t))))
  | inr off ↦
      let all = R.tx_off off in
      let on : (p.regs.rxneie || false) ≡ true = rw R.rx_on refl in
      (record { rxne = true; txe = false }, (on, (λ _. omega arith)))
]

finished_lem :
    (s : Master) (r : Regs) (e : Event) → r.txeie ≡ false → r.rxneie ≡ false → Fires s r e → ⊥
finished_lem s r e t x (fires, got) = ground (arith, t, x, fires)

-- However the interrupts of a transfer of 1 to 255 bytes come, the transfer is either under way (busy,
-- the callback not yet called, the bytes written to DR a prefix of the caller's buffer in order, no
-- more received than sent) or over (not busy, exactly the buffer written, the callback called once,
-- both interrupts disabled).
pub write-completes :
    (buf : List ℕ) (s : Master) (r : Regs) (n : ℕ) (p : Progress)
    → 0 < length buf
    → length buf < 256
    → Reached buf (begun s r (length buf)) n p
    → IsTransfer buf n p
unfolding work started
write-completes buf s r zero p pos small (here) = inl (
  record {
    busy = refl;
    len = refl;
    within = omega arith;
    in_order = refl;
    received = omega arith;
    missing = pos;
    uncalled = refl;
    rx_on = refl;
    tx_off = λ e. absurd (cc e);
  },
  omega arith,
)
write-completes buf s r (suc n) _ pos small (next _ p e before fires) =
    elim (write-completes buf s r n p pos small before) [
      | inl (R, bound) ↦ serve_lem buf n p e small R bound fires
      | inr (F, bound) ↦ absurd (finished_lem p.master p.regs e F.tx_disabled F.rx_disabled fires)
    ]

-- A transfer of 1 to 255 bytes ends: at most two interrupts for each byte and one more can come, and
-- as long as the driver is busy there is a flag whose interrupt is enabled and can come next.
pub write-ends :
    (buf : List ℕ) (s : Master) (r : Regs) (n : ℕ) (p : Progress)
    → 0 < length buf
    → length buf < 256
    → Reached buf (begun s r (length buf)) n p
    → (n ≤ 2 * length buf + 1) × (p.master.busy ≡ true → (e : Event) × Fires p.master p.regs e)
unfolding work
write-ends buf s r n p pos small reached = elim (write-completes buf s r n p pos small reached) [
  | inl (R, bound) ↦
      let most : work p.master p.regs ≤ p.master.tx_idx + p.master.rx_count + 1 = ground arith in
      (omega arith, (λ _. pending buf p R))
  | inr (F, bound) ↦ (bound, (λ t. Bool-clash p.master.busy t F.idle))
]
