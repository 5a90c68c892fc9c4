-- ===== src/Ring.antt =====
-- One ring of uart.c: 512 bytes, one index that the producer writes and one that the consumer
-- writes. `rx_buf` and `tx_buf` are handled by the same statements.
pub mod Laws
use hilglebone.Base.{ℕ, ◌+◌, ◌-◌, List, bit_and, u16, ◌==◌, Bool, get_or, set}

-- `UART_RX_BUFFER_SIZE`, `UART_TX_BUFFER_SIZE`
abbrev pub size : ℕ
size = 512

-- `UART_RX_BUFFER_MASK`, `UART_TX_BUFFER_MASK`
abbrev pub mask : ℕ
mask = size - 1

pub record Ring : Type 0 where
  pub buf : List ℕ
  pub head : ℕ
  pub tail : ℕ

-- `(uint16_t)((i + 1U) & MASK)`
unfoldable pub next : ℕ → ℕ
next i = u16 (bit_and (i + 1) mask)

-- `next == tail` for the slot behind `head`
unfoldable pub is_full : Ring → Bool
is_full r = next r.head == r.tail

-- `tail == head`
unfoldable pub is_empty : Ring → Bool
is_empty r = r.tail == r.head

-- `buf[head] = b; head = next;`
unfoldable pub put : Ring → ℕ → Ring
put r b = record r { buf = set r.buf r.head b; head = next r.head }

-- `buf[tail]`
unfoldable pub front : Ring → ℕ
front r = get_or r.buf r.tail 0

-- `tail = (uint16_t)((tail + 1U) & MASK);`
unfoldable pub advance : Ring → Ring
advance r = record r { tail = next r.tail }
