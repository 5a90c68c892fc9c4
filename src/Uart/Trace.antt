-- ===== src/Uart/Trace.antt =====
-- The UART under every interleaving of the task's calls with the interrupt: nothing is reordered,
-- duplicated or lost, but a received byte that finds the ring full.
use mathlib.Core.Path.{subst}
use mathlib.Core.List.{append-nil, append_assoc}
use hilglebone.Base.{ℕ, List, [], ◌∷◌, ◌++◌, ◌≡◌, refl}
use hilglebone.Base.{ap, sym, ◌∙◌, inl, inr, not, ◌&&◌, u8}
use hilglebone.Base.{Option, none, some, if◌then◌else◌, take, take-min, Bool-cases}
use hilglebone.Uart.{Uart, Usart, rx_pop, tx_push, irq_handler, irq_rx, irq_tx}
use hilglebone.Ring.{Ring, is_full}
use hilglebone.Ring.Laws.{IsRing, contents, put-IsRing, advance-IsRing, contents-put}
use hilglebone.Uart.Fifo.{IsUart, room, tx_push_lem, full_cases, empty_cases}

-- A run of the interrupt, or a call of the task.
pub data Event : Type 0 where
  irq : Usart → Event
  pop : Event
  push : List ℕ → Event

abbrev to_list : Option ℕ → List ℕ
to_list none = []
to_list (some x) = x ∷ []

-- What an event moves into and out of the rings.
pub record Moved : Type 0 where
  pub stored : List ℕ
  pub popped : List ℕ
  pub accepted : List ℕ
  pub transmitted : List ℕ

abbrev pub step : Uart → Event → Uart × Moved
step u (irq hw) =
    let (u', sent) = irq_handler u hw in
    (
      u',
      record {
        stored = if hw.rxne && not (is_full u.rx) then u8 hw.dr ∷ [] else [];
        popped = [];
        accepted = [];
        transmitted = to_list sent;
      },
    )
step u pop =
    let (status, byte, u') = rx_pop u in
    (u', record { stored = []; popped = to_list byte; accepted = []; transmitted = [] })
step u (push bytes) =
    let (status, pushed, u') = tx_push u bytes in
    (u', record { stored = []; popped = []; accepted = take pushed bytes; transmitted = [] })

abbrev pub run : Uart → List Event → Uart × Moved
run u [] = (u, record { stored = []; popped = []; accepted = []; transmitted = [] })
run u (e ∷ es) =
    let (u', m) = step u e in
    let (u'', rest) = run u' es in
    (
      u'',
      record {
        stored = m.stored ++ rest.stored;
        popped = m.popped ++ rest.popped;
        accepted = m.accepted ++ rest.accepted;
        transmitted = m.transmitted ++ rest.transmitted;
      },
    )

-- A ring that gave out `outs` and took in `ins`, in the order of a queue.
abbrev pub Balanced : Ring → List ℕ → List ℕ → Ring → Type 0
Balanced before ins outs after = contents before ++ ins ≡ outs ++ contents after

idle_Balanced : (r : Ring) → Balanced r [] [] r
idle_Balanced r = append-nil (contents r)

join_Balanced :
    (a b c : Ring) (i₁ o₁ i₂ o₂ : List ℕ)
    → Balanced a i₁ o₁ b
    → Balanced b i₂ o₂ c
    → Balanced a (i₁ ++ i₂) (o₁ ++ o₂) c
join_Balanced a b c i₁ o₁ i₂ o₂ p q =
    sym (append_assoc (contents a) i₁ i₂)
    ∙ ap (λ xs. xs ++ i₂) p
    ∙ append_assoc o₁ (contents b) i₂
    ∙ ap (λ xs. o₁ ++ xs) q
    ∙ sym (append_assoc o₁ o₂ (contents c))

record IsStep (u : Uart) (out : Uart × Moved) : Type 0 where
  uart : IsUart out.0
  rx : Balanced u.rx out.1.stored out.1.popped out.0.rx
  tx : Balanced u.tx out.1.accepted out.1.transmitted out.0.tx

-- The receiving half of the interrupt.
irq_rx-Balanced :
    (u : Uart) (hw : Usart)
    → IsUart u
    → IsRing (irq_rx u hw).rx
      × Balanced u.rx
          (if hw.rxne && not (is_full u.rx) then u8 hw.dr ∷ [] else [])
          []
          (irq_rx u hw).rx
      × ((irq_rx u hw).tx ≡ u.tx)
unfolding irq_rx
irq_rx-Balanced u hw v = elim (Bool-cases hw.rxne) [
  | inr quiet ↦ rw quiet (v.rx_ring, idle_Balanced u.rx, refl)
  | inl some_byte ↦ elim (full_cases v.rx_ring) [
    | inl (full, n) ↦ rw (some_byte, full) (v.rx_ring, idle_Balanced u.rx, refl)
    | inr (space, n) ↦
        rw (some_byte, space)
          (put-IsRing (u8 hw.dr) v.rx_ring, sym (contents-put (u8 hw.dr) v.rx_ring n), refl)
  ]
]

-- The transmitting half.
irq_tx-Balanced :
    (u : Uart) (hw : Usart)
    → IsRing u.tx
    → let (u', sent) = irq_tx u hw in
      IsRing u'.tx × Balanced u.tx [] (to_list sent) u'.tx × (u'.rx ≡ u.rx)
unfolding irq_tx
irq_tx-Balanced u hw v = elim (Bool-cases (hw.txe && u.txeie)) [
  | inr quiet ↦ rw quiet (v, idle_Balanced u.tx, refl)
  | inl ready ↦ elim (empty_cases v) [
    | inl (none_left, n) ↦ rw (ready, none_left) (v, idle_Balanced u.tx, refl)
    | inr (more, n) ↦ rw (ready, more) (advance-IsRing v, append-nil (contents u.tx) ∙ n, refl)
  ]
]

irq-IsStep : (u : Uart) (hw : Usart) → IsUart u → IsStep u (step u (irq hw))
unfolding irq_handler
irq-IsStep u hw v =
    let (rx_ok, rx_moved, tx_same) = irq_rx-Balanced u hw v in
    let (tx_ok, tx_moved, rx_same) =
      irq_tx-Balanced (irq_rx u hw) hw (subst IsRing (sym tx_same) v.tx_ring) in
    record {
      uart = record { rx_ring = subst IsRing (sym rx_same) rx_ok; tx_ring = tx_ok };
      rx = subst (Balanced u.rx _ []) (sym rx_same) rx_moved;
      tx =
          subst (λ r. Balanced r [] (to_list (irq_handler u hw).1) (irq_handler u hw).0.tx) tx_same
            tx_moved;
    }

pop-IsStep : (u : Uart) → IsUart u → IsStep u (step u pop)
unfolding rx_pop
pop-IsStep u v = elim (empty_cases v.rx_ring) [
  | inl (none_left, n) ↦
      rw none_left (record { uart = v; rx = idle_Balanced u.rx; tx = idle_Balanced u.tx })
  | inr (more, n) ↦ rw more (record {
    uart = record { rx_ring = advance-IsRing v.rx_ring; tx_ring = v.tx_ring };
    rx = append-nil (contents u.rx) ∙ n;
    tx = idle_Balanced u.tx;
  })
]

push-IsStep : (u : Uart) (bytes : List ℕ) → IsUart u → IsStep u (step u (push bytes))
push-IsStep u bytes v =
    let (fine, number, appended, valid, rx_same, irq_on) = tx_push_lem u bytes v in
    record {
      uart = valid;
      rx = rw rx_same (idle_Balanced u.rx);
      tx =
          ap (λ (n : ℕ). contents u.tx ++ take n bytes) number
          ∙ ap (λ xs. contents u.tx ++ xs) (take-min (room u) bytes)
          ∙ sym appended;
    }

step-IsStep : (u : Uart) (e : Event) → IsUart u → IsStep u (step u e)
step-IsStep u (irq hw) v = irq-IsStep u hw v
step-IsStep u pop v = pop-IsStep u v
step-IsStep u (push bytes) v = push-IsStep u bytes v

-- Under every sequence of interrupts and calls, what the task pops is, byte for byte and in order,
-- what the interrupt stored, up to what the RX ring still holds, and what goes out on DR is what
-- `uart_tx_push` accepted, up to what the TX ring still holds; the rings stay within bounds.
pub run-fifo :
    (u : Uart) (es : List Event)
    → IsUart u
    → let (u', m) = run u es in
      IsUart u'
      × Balanced u.rx m.stored m.popped u'.rx
      × Balanced u.tx m.accepted m.transmitted u'.tx
run-fifo u [] v = (v, idle_Balanced u.rx, idle_Balanced u.tx)
run-fifo u (e ∷ es) v =
    let (u', m) = step u e in
    let (u'', rest) = run u' es in
    let one = step-IsStep u e v in
    let (valid, rx, tx) = run-fifo (step u e).0 es one.uart in
    (
      valid,
      join_Balanced u.rx u'.rx u''.rx m.stored m.popped rest.stored rest.popped one.rx rx,
      join_Balanced u.tx u'.tx u''.tx m.accepted m.transmitted rest.accepted rest.transmitted one.tx
          tx,
    )
