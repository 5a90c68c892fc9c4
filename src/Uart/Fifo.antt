-- ===== src/Uart/Fifo.antt =====
-- The UART driver as two queues: nothing is reordered, duplicated or lost but a received byte that
-- finds the ring full, under every interleaving of the task's calls with the interrupt.
use mathlib.Core.Path.{subst}
use mathlib.Core.List.{append-nil, append_assoc}
use hilglebone.Base.{ℕ, zero, suc, ◌+◌, ◌-◌, ◌<◌, min, List, [], ◌∷◌, ◌++◌, ◌≡◌, refl}
use hilglebone.Base.{ap, sym, ◌∙◌, ◌⊎◌, inl, inr, arith, Bool, true, false, ltb}
use hilglebone.Base.{if◌then◌else◌, length, take, take-nil, Bool-cases, ==_iff}
use hilglebone.Base.ErrCode.{ErrCode}
use hilglebone.Uart.{Uart, tx_push, push_from}
use hilglebone.Ring.{Ring, size, is_full, is_empty, put, front, advance}
use hilglebone.Ring.Laws.{
  IsRing, count, contents, is_full_iff, is_empty_iff, put-IsRing, count-put, contents-put,
  contents-advance, contents_empty,
}

pub record IsUart (u : Uart) : Type 0 where
  pub rx_ring : IsRing u.rx
  pub tx_ring : IsRing u.tx

-- How many bytes the TX ring can still take.
abbrev pub room : Uart → ℕ
room u = size - 1 - count u.tx

count-lt : {r : Ring} → IsRing r → count r < size
count-lt v = omega arith

pub full_cases :
    {r : Ring}
    → IsRing r
    → ((is_full r ≡ true) × (count r ≡ size - 1)) ⊎ ((is_full r ≡ false) × (count r < size - 1))
full_cases {r} v = elim (Bool-cases (is_full r)) [
  | inl e ↦ inl (e, (==_iff (count r) (size - 1)).0 (sym (is_full_iff v) ∙ e))
  | inr e ↦ inr (e, ground (arith, is_full_iff v, count-lt v))
]

pub empty_cases :
    {r : Ring}
    → IsRing r
    → ((is_empty r ≡ true) × (contents r ≡ []))
      ⊎ ((is_empty r ≡ false) × (contents r ≡ front r ∷ contents (advance r)))
empty_cases {r} v = elim (Bool-cases (is_empty r)) [
  | inl e ↦ inl (e, contents_empty r ((==_iff (count r) 0).0 (sym (is_empty_iff v) ∙ e)))
  | inr e ↦ inr (e, contents-advance v (ground (arith, is_empty_iff v)))
]

-- What the loop of `uart_tx_push` has done when it stops.
record Pushed (r : Ring) (bytes : List ℕ) (done : ℕ) (out : Ring × ℕ) : Type 0 where
  ring : IsRing out.0
  number : out.1 ≡ done + min (length bytes) (size - 1 - count r)
  appended : contents out.0 ≡ contents r ++ take (size - 1 - count r) bytes

push_from-Pushed :
    (r : Ring) (bytes : List ℕ) (done : ℕ) → IsRing r → Pushed r bytes done (push_from r bytes done)
unfolding push_from
push_from-Pushed r [] done v = record {
  ring = v;
  number = omega arith;
  appended = rw (take-nil {0} {A = ℕ}) (sym (append-nil (contents r)));
}
push_from-Pushed r (b ∷ rest) done v = elim (full_cases v) [
  | inl (full, n) ↦
      let no_room : zero ≡ size - 1 - count r = omega (arith, n) in
      subst (Pushed r (b ∷ rest) done) (sym (ap (choose (r, done)) full)) (record {
        ring = v;
        number = omega (arith, n);
        appended =
            sym (append-nil (contents r)) ∙ ap (λ (k : ℕ). contents r ++ take k (b ∷ rest)) no_room;
      })
  | inr (space, n) ↦
      let ih = push_from-Pushed (put r b) rest (done + 1) (put-IsRing b v) in
      let less : size - 1 - count r ≡ suc (size - 1 - count (put r b)) =
        omega (arith, n, count-put b v n) in
      subst (Pushed r (b ∷ rest) done) (sym (ap (choose (r, done)) space)) (record {
        ring = ih.ring;
        number = omega (arith, ih.number, less, count-put b v n);
        appended =
            ih.appended
            ∙ ap (λ xs. xs ++ take (size - 1 - count (put r b)) rest) (contents-put b v n)
            ∙ append_assoc (contents r) (b ∷ []) (take (size - 1 - count (put r b)) rest)
            ∙ ap (λ (k : ℕ). contents r ++ take k (b ∷ rest)) (sym less);
      })
]
  where
    choose : Ring × ℕ → Bool → Ring × ℕ
    choose stop full = if full then stop else push_from (put r b) rest (done + 1)

-- `uart_tx_push` takes as many bytes as there is room for, reports that number, appends exactly
-- those bytes in order, and leaves the RX ring alone; if it takes any, the TX interrupt is on.
pub tx_push_lem :
    (u : Uart) (bytes : List ℕ)
    → IsUart u
    → let (status, pushed, u') = tx_push u bytes in
      (status ≡ ErrCode.success)
      × (pushed ≡ min (length bytes) (room u))
      × (contents u'.tx ≡ contents u.tx ++ take (room u) bytes)
      × IsUart u'
      × (u'.rx ≡ u.rx)
      × (u'.txeie ≡ (if ltb 0 pushed then true else u.txeie))
unfolding tx_push
tx_push_lem u bytes v =
    let done = push_from-Pushed u.tx bytes 0 v.tx_ring in
    (
      refl,
      omega (arith, done.number),
      done.appended,
      record { rx_ring = v.rx_ring; tx_ring = done.ring },
      refl,
      refl,
    )
