-- ===== src/SpiMaster/Progress.antt =====
-- spi_master_write and spi_master_isr: what a transfer looks like on the way, and the part of the
-- interrupt for TXE.
use mathlib.Core.List.{append-nil}
use mathlib.Core.Path.{subst}
use hilglebone.Base.{
  ℕ, zero, suc, ◌+◌, ◌≤◌, ◌<◌, List, [], ◌∷◌, ◌++◌, ◌≡◌, refl, sym, ap, ◌∙◌, arith, Bool, lt→ltb,
  ltb→lt, Bool-cases, Bool-clash, inl, inr, true, false, ◌&&◌, ◌||◌, some, none, ltb, u8,
  if◌then◌else◌, get_or, length, take,
}
use hilglebone.Spi.{Regs}
use hilglebone.SpiMaster.{Master, Event, Served, feed, isr, started}

-- The peripheral calls the handler for a flag whose interrupt is enabled, and has received at most
-- as many bytes as it has been given.
abbrev pub Fires : Master → Regs → Event → Type 0
Fires s r e =
    ((e.rxne && r.rxneie || e.txe && r.txeie) ≡ true) × (e.rxne ≡ true → s.rx_count < s.tx_idx)

-- A transfer as it stands: the bytes written to DR so far and the calls of the callback.
pub record Progress : Type 0 where
  pub master : Master
  pub regs : Regs
  pub sent : List ℕ
  pub calls : ℕ

abbrev pub begun : Master → Regs → ℕ → Progress
begun s r len = record {
  master = started s len;
  regs = record r { txeie = true; rxneie = true };
  sent = [];
  calls = 0;
}

-- What an interrupt adds to a transfer.
unfoldable pub advance : Progress → Served → Progress
advance p o = record {
  master = o.master;
  regs = o.regs;
  sent = p.sent ++ (elim o.sent [ none ↦ [] | some byte ↦ byte ∷ [] ]);
  calls = p.calls + (if o.called then 1 else 0);
}

abbrev pub after : Progress → List ℕ → Event → Progress
unfolding advance
after p buf e = advance p (isr p.master p.regs buf e)

-- Where a number of interrupts can lead a transfer.
pub data Reached (buf : List ℕ) (start : Progress) : ℕ → Progress → Type 0 where
  here : Reached buf start 0 start
  next :
      (n : ℕ) (p : Progress) (e : Event)
      → Reached buf start n p
      → Fires p.master p.regs e
      → Reached buf start (suc n) (after p buf e)

-- A transfer of `buf` that is under way.
pub record IsRunning (buf : List ℕ) (p : Progress) : Type 0 where
  pub busy : p.master.busy ≡ true
  pub len : p.master.tx_len ≡ length buf
  pub within : p.master.tx_idx ≤ length buf
  pub in_order : p.sent ≡ take p.master.tx_idx buf
  pub received : p.master.rx_count ≤ p.master.tx_idx
  pub missing : p.master.rx_count < length buf
  pub uncalled : p.calls ≡ 0
  pub rx_on : p.regs.rxneie ≡ true
  pub tx_off : p.regs.txeie ≡ false → p.master.tx_idx ≡ length buf

-- A transfer of `buf` that is over.
pub record IsFinished (buf : List ℕ) (p : Progress) : Type 0 where
  pub idle : p.master.busy ≡ false
  pub complete : p.sent ≡ buf
  pub called_once : p.calls ≡ 1
  pub tx_disabled : p.regs.txeie ≡ false
  pub rx_disabled : p.regs.rxneie ≡ false

-- The bytes written, the bytes received, and one once TXE is disabled: what each interrupt adds to.
unfoldable pub work : Master → Regs → ℕ
work s r = s.tx_idx + s.rx_count + (if r.txeie then 0 else 1)

pub take-suc :
    (xs : List ℕ) (i : ℕ) → i < length xs → take (suc i) xs ≡ take i xs ++ (get_or xs i 0 ∷ [])
take-suc [] i h = absurd (omega arith)
take-suc (x ∷ xs) zero h = refl
take-suc (x ∷ xs) (suc i) h = ap (λ t. x ∷ t) (take-suc xs i (omega arith))

module _ (s : Master) (r : Regs) (buf : List ℕ) where
  feed_idle :
      (txe : Bool)
      → (txe && r.txeie) ≡ false
      → feed s r buf txe ≡ record { master = s; regs = r; sent = none; called = false }
  unfolding feed
  feed_idle txe h = rw (feed, h) refl

  feed_next :
      (txe : Bool)
      → (txe && r.txeie) ≡ true
      → s.tx_idx < s.tx_len
      → s.tx_idx < 255
      → feed s r buf txe ≡ record {
        master = record s { tx_idx = suc s.tx_idx };
        regs = r;
        sent = some (get_or buf s.tx_idx 0);
        called = false;
      }
  unfolding feed
  feed_next txe h lt small =
      let e : u8 (s.tx_idx + 1) ≡ suc s.tx_idx = omega arith in
      rw (feed, h, lt→ltb s.tx_idx s.tx_len lt, e) refl

  feed_off :
      (txe : Bool)
      → (txe && r.txeie) ≡ true
      → s.tx_len ≤ s.tx_idx
      → feed s r buf txe
        ≡ record { master = s; regs = record r { txeie = false }; sent = none; called = false }
  unfolding feed
  feed_off txe h le = let e : ltb s.tx_idx s.tx_len ≡ false = ground arith in rw (feed, h, e) refl

-- An answer that keeps a transfer running, without undoing work, and that works when `on`.
abbrev pub Continues : List ℕ → Progress → Bool → Served → Type 0
Continues buf p on o =
    IsRunning buf (advance p o)
    × (work p.master p.regs ≤ work o.master o.regs)
    × (on ≡ true → work p.master p.regs < work o.master o.regs)

pub and_left : (a b : Bool) → (a && b) ≡ true → a ≡ true
and_left true b h = refl
and_left false b h = absurd (cc h)

pub and_right : (a b : Bool) → (a && b) ≡ true → b ≡ true
and_right true b h = h
and_right false b h = absurd (cc h)

pub feed-Continues :
    (buf : List ℕ) (p : Progress) (txe : Bool)
    → length buf < 256
    → IsRunning buf p
    → Continues buf p (txe && p.regs.txeie) (feed p.master p.regs buf txe)
unfolding advance work
feed-Continues buf p txe small R = elim (Bool-cases (txe && p.regs.txeie)) [
  | inl on ↦ elim (Bool-cases (ltb p.master.tx_idx (length buf))) [
    | inl t ↦
        let lt = ltb→lt p.master.tx_idx (length buf) t in
        subst (Continues buf p (txe && p.regs.txeie))
          (sym (feed_next p.master p.regs buf txe on (omega arith) (omega arith)))
          (
            record {
              busy = R.busy;
              len = R.len;
              within = omega arith;
              in_order =
                  ap (λ t. t ++ (get_or buf p.master.tx_idx 0 ∷ [])) R.in_order
                  ∙ sym (take-suc buf p.master.tx_idx lt);
              received = omega arith;
              missing = R.missing;
              uncalled = omega arith;
              rx_on = R.rx_on;
              tx_off = λ e. Bool-clash p.regs.txeie (and_right txe p.regs.txeie on) e;
            },
            omega arith,
            (λ _. omega arith),
          )
    | inr t ↦
        let le : length buf ≤ p.master.tx_idx = ground arith in
        let was_on = and_right txe p.regs.txeie on in
        subst (Continues buf p (txe && p.regs.txeie))
          (sym (feed_off p.master p.regs buf txe on (omega arith)))
          (
            record {
              busy = R.busy;
              len = R.len;
              within = R.within;
              in_order = append-nil p.sent ∙ R.in_order;
              received = R.received;
              missing = R.missing;
              uncalled = omega arith;
              rx_on = R.rx_on;
              tx_off = λ _. omega arith;
            },
            rw was_on (omega arith),
            (λ _. rw was_on (omega arith)),
          )
  ]
  | inr off ↦
      subst (Continues buf p (txe && p.regs.txeie)) (sym (feed_idle p.master p.regs buf txe off)) (
        record {
          busy = R.busy;
          len = R.len;
          within = R.within;
          in_order = append-nil p.sent ∙ R.in_order;
          received = R.received;
          missing = R.missing;
          uncalled = omega arith;
          rx_on = R.rx_on;
          tx_off = R.tx_off;
        },
        omega arith,
        (λ t. Bool-clash (txe && p.regs.txeie) t off),
      )
]
