-- ===== src/Dispatcher/Stream.antt =====
-- The loop of `task_protocol` in stm32/project/app/src/app_init.c: bytes from the host become commands.
use mathlib.Core.Path.{subst}
use mathlib.Core.List.{append_assoc, append-nil}
use hilglebone.Base.{
  ℕ, suc, ◌-◌, ◌*◌, ◌≤◌, List, [], ◌∷◌, ◌++◌, ◌≡◌, refl, sym, ap, ◌∙◌, arith, inl, inr, Bool-cases,
  length, take_all, length-append, if◌then◌else◌,
}
use hilglebone.Base.ErrCode.{ErrCode}
use hilglebone.Manager.{Manager, id_none, id_in_use}
use hilglebone.Manager.Table.{IsManager}
use hilglebone.Manager.Laws.{register-Registered, register_full, release-Released}
use hilglebone.Protocol.Parser.{Parser, ParsedFrame, ParserState, feed, feed_all}
use hilglebone.Protocol.Parser.Stream.{
  Message, messages_of, message_of, IsStream, AllNoise, stream_bytes, sent, feed_all-stream,
}
use hilglebone.Protocol.Encoder.Send.{ack_bytes}
use hilglebone.Protocol.Proto
use hilglebone.Ring.Laws.{contents, length-contents}
use hilglebone.Uart.Fifo.{IsUart, room}
use hilglebone.Dispatcher.{Board, handle}
use hilglebone.Dispatcher.Laws.{IsBoard}
use hilglebone.Dispatcher.Outcome.{Outcome, Handled}
use hilglebone.Dispatcher.Answers.{handle-Handled}

-- One acknowledgement for each message, in order, with its type and sequence number.
pub data Acks : List Message → List ℕ → Type 0 where
  done : Acks [] []
  one :
      (m : Message) (err : ErrCode) (id : ℕ) (rest : List Message) (bytes : List ℕ)
      → Acks rest bytes
      → Acks (m ∷ rest) (ack_bytes m.type err id m.seq ++ bytes)

Outcome-IsManager :
    (type : ℕ) (err : ErrCode) (id : ℕ) (m m' : Manager)
    → IsManager m
    → Outcome type err id m m'
    → IsManager m'
Outcome-IsManager type err id m m' v (Outcome.enrolled p q t ok e live) =
    elim (Bool-cases (id_in_use m.slots id_none)) [
      | inl free ↦ subst IsManager (ap (λ r. r.1) e) (register-Registered m p q v free).valid
      | inr full ↦ absurd (live (ap (λ r. r.0) (sym e ∙ register_full m p q full)))
    ]
Outcome-IsManager type err id m m' v (Outcome.released t ok e) =
    subst IsManager (sym e) (release-Released m id v).valid
Outcome-IsManager type err id m m' v (Outcome.kept a b e) = subst IsManager (sym e) v

module _ {W : Type 0} (board : Board W) where
  -- The frames that the parser completes, one after the other.
  unfoldable pub handle_all : W → List ParsedFrame → W
  handle_all w [] = w
  handle_all w (f ∷ fs) = handle_all (handle board w f) fs

  -- The `while` loop of `task_protocol` over the bytes that it pops.
  unfoldable pub task_loop : W → Parser → List ℕ → W × Parser
  task_loop w p [] = (w, p)
  task_loop w p (b ∷ bs) =
      let (p', complete) = feed p b in
      task_loop (if complete then handle board w p'.frame else w) p' bs

  task_loop-feed_all :
      (w : W) (p : Parser) (bytes : List ℕ)
      → task_loop w p bytes ≡ (handle_all w (feed_all p bytes).1, (feed_all p bytes).0)
  unfolding task_loop feed_all handle_all
  task_loop-feed_all w p [] = refl
  task_loop-feed_all w p (b ∷ bs) = elim (Bool-cases (feed p b).1) [
    | inl complete ↦
        rw complete (task_loop-feed_all (handle board w (feed p b).0.frame) (feed p b).0 bs)
    | inr partial ↦ rw partial (task_loop-feed_all w (feed p b).0 bs)
  ]

length-messages_of : (fs : List ParsedFrame) → length (messages_of fs) ≡ length fs
length-messages_of [] = refl
length-messages_of (f ∷ fs) = ap suc (length-messages_of fs)

length-sent : (segments : List (List ℕ × Message)) → length (sent segments) ≡ length segments
length-sent [] = refl
length-sent ((noise, m) ∷ rest) = ap suc (length-sent rest)

module _ {W : Type 0} (board : Board W) (laws : IsBoard board) where
  -- What a sequence of commands puts into the TX ring.
  pub record Replies (w w' : W) (messages : List Message) : Type 0 where
    pub bytes : List ℕ
    pub acks : Acks messages bytes
    pub queued : contents (board.uart w').tx ≡ contents (board.uart w).tx ++ bytes
    pub uart : IsUart (board.uart w')
    pub manager : IsManager (board.manager w')

  room-queued :
      (w w' : W) (bytes : List ℕ)
      → contents (board.uart w').tx ≡ contents (board.uart w).tx ++ bytes
      → room (board.uart w') ≡ room (board.uart w) - length bytes
  room-queued w w' bytes e = omega (
    arith,
    sym (length-contents (board.uart w').tx) ∙ ap length e,
    length-append (contents (board.uart w).tx) bytes,
    length-contents (board.uart w).tx,
  )

  handle_all-Replies :
      (w : W) (fs : List ParsedFrame)
      → IsUart (board.uart w)
      → IsManager (board.manager w)
      → 10 * length fs ≤ room (board.uart w)
      → Replies w (handle_all board w fs) (messages_of fs)
  unfolding handle_all
  handle_all-Replies w [] v m h = record {
    bytes = [];
    acks = Acks.done;
    queued = sym (append-nil (contents (board.uart w).tx));
    uart = v;
    manager = m;
  }
  handle_all-Replies w (f ∷ fs) v m h =
      let H : Handled board w f.type f.seq (handle board w f) = handle-Handled board laws w f v m in
      let ack : List ℕ = ack_bytes f.type H.err H.id f.seq in
      let ten : length ack ≡ 10 = refl in
      let first : contents (board.uart (handle board w f)).tx ≡ contents (board.uart w).tx ++ ack =
        H.queued
        ∙ ap (λ t. contents (board.uart w).tx ++ t)
            (take_all (room (board.uart w)) ack (omega arith)) in
      let R =
        handle_all-Replies (handle board w f) fs H.uart
          (Outcome-IsManager f.type H.err H.id (board.manager w) (board.manager (handle board w f))
            m H.table)
          (omega (arith, h, room-queued w (handle board w f) ack first, ten)) in
      record {
        bytes = ack ++ R.bytes;
        acks = Acks.one (message_of f) H.err H.id (messages_of fs) R.bytes R.acks;
        queued =
            R.queued
            ∙ ap (λ t. t ++ R.bytes) first
            ∙ append_assoc (contents (board.uart w).tx) ack R.bytes;
        uart = R.uart;
        manager = R.manager;
      }

  -- Given backends that keep the laws of the board, a parser between two frames with its 256-byte
  -- payload array, a valid UART state with room for ten bytes per message in the TX ring, and a
  -- well-formed table of sensors, the loop of the task answers a stream of well-formed frames with
  -- noise between them by exactly one RSP_ACK for each message, in order, with the type and the
  -- sequence number of its message, repeated sequence numbers included; the UART stays valid and the
  -- table well formed.
  pub task_loop-Replies :
      (w : W) (p : Parser) (segments : List (List ℕ × Message)) (tail : List ℕ)
      → p.state ≡ ParserState.wait_start
      → length p.frame.payload ≡ Proto.max_payload
      → IsStream segments
      → AllNoise tail
      → IsUart (board.uart w)
      → IsManager (board.manager w)
      → 10 * length segments ≤ room (board.uart w)
      → Replies w (task_loop board w p (stream_bytes segments tail)).0 (sent segments)
  task_loop-Replies w p segments tail idle size stream noise v m h =
      let fs : List ParsedFrame = (feed_all p (stream_bytes segments tail)).1 in
      let e : messages_of fs ≡ sent segments =
        feed_all-stream p segments tail idle size stream noise in
      let number : length fs ≡ length segments =
        sym (length-messages_of fs) ∙ ap length e ∙ length-sent segments in
      subst (λ r. Replies w r.0 (sent segments))
        (sym (task_loop-feed_all board w p (stream_bytes segments tail)))
        (subst (Replies w (handle_all board w fs)) e
          (handle_all-Replies w fs v m (omega (arith, h, number))))
