-- ===== src/Protocol/Encoder/Send.antt =====
-- What `protocol_send_ack` and `protocol_send_error` put on the wire.
use mathlib.Core.Path.{subst}
use hilglebone.Base.{ℕ, ◌+◌, ◌^◌, ◌≤◌, ◌<◌, List, [], ◌∷◌, ◌++◌, ◌≡◌, refl}
use hilglebone.Base.{ap, sym, ◌∙◌, arith, leb, if◌then◌else◌, u8}
use hilglebone.Base.{length, take, replicate}
use hilglebone.Base.ErrCode.{ErrCode, code}
use hilglebone.Protocol.Proto
use hilglebone.Protocol.Wire.{frame_bytes}
use hilglebone.Protocol.Encoder.{build_frame, push_frame, send_ack, send_error}
use hilglebone.Protocol.Encoder.Frame.{build_frame_lem}
use hilglebone.Uart.{Uart}
use hilglebone.Uart.Fifo.{IsUart, room, tx_push_lem}
use hilglebone.Ring.Laws.{contents}

code-lt : (e : ErrCode) → code e < 256
unfolding code
code-lt e = ground arith

-- What sending the frame `bytes` does, by the room in the TX ring.
pub record Sends (u : Uart) (bytes : List ℕ) (out : ErrCode × Uart) : Type 0 where
  pub status :
      out.0 ≡ (if leb (length bytes) (room u) then ErrCode.success else ErrCode.out_of_resources)
  pub queued : contents out.1.tx ≡ contents u.tx ++ take (room u) bytes
  pub uart : IsUart out.1
  pub rx_same : out.1.rx ≡ u.rx

push_frame-Sends :
    (u : Uart) (frame : List ℕ) (n : ℕ)
    → length (take n frame) ≡ n
    → IsUart u
    → Sends u (take n frame) (push_frame u frame n)
unfolding push_frame
push_frame-Sends u frame n e v =
    let (fine, number, appended, valid, rx_same, irq_on) = tx_push_lem u (take n frame) v in
    rw fine (record {
      status = ground (arith, number, e);
      queued = appended;
      uart = valid;
      rx_same = rx_same;
    })

built-Sends :
    (u : Uart) (out payload : List ℕ) (type seq n : ℕ)
    → n ≡ length payload
    → n < 2 ^ 16
    → Proto.frame_overhead + n ≤ length out
    → length (frame_bytes type seq payload) ≡ Proto.frame_overhead + n
    → IsUart u
    → let (frame, size) = build_frame out type seq payload n in
      Sends u (frame_bytes type seq payload) (push_frame u frame size)
built-Sends u out payload type seq n len small fits total v =
    let (frame, size) = build_frame out type seq payload n in
    let (sized, bytes) = build_frame_lem out payload type seq n len small fits in
    subst (λ xs. Sends u xs (push_frame u frame size)) bytes
      (push_frame-Sends u frame size (ap (λ xs. length xs) bytes ∙ total ∙ sym sized) v)

-- The bytes of an RSP_ACK and of an RSP_ERROR.
abbrev pub ack_bytes : ℕ → ErrCode → ℕ → ℕ → List ℕ
ack_bytes cmd_type error_code sensor_id seq =
    frame_bytes Proto.type_rsp_ack seq (cmd_type ∷ code error_code ∷ sensor_id ∷ [])

abbrev pub error_bytes : ℕ → ErrCode → ℕ → List ℕ
error_bytes sensor_id error_code seq =
    frame_bytes Proto.type_rsp_error seq (sensor_id ∷ code error_code ∷ [])

-- `protocol_send_ack` queues the RSP_ACK frame behind what the TX ring holds and succeeds, if
-- there is room for its ten bytes; otherwise it reports ERR_OUT_OF_RESOURCES and queues the part
-- of the frame that there is room for. The RX side is left alone.
pub send_ack-Sends :
    (u : Uart) (cmd_type : ℕ) (error_code : ErrCode) (sensor_id seq : ℕ)
    → IsUart u
    → Sends u
        (ack_bytes cmd_type error_code sensor_id seq)
        (send_ack u cmd_type error_code sensor_id seq)
unfolding send_ack
send_ack-Sends u cmd_type error_code sensor_id seq v =
    subst
      (λ (e : ℕ).
        Sends u (frame_bytes Proto.type_rsp_ack seq (cmd_type ∷ e ∷ sensor_id ∷ []))
          (send_ack u cmd_type error_code sensor_id seq))
      (omega (arith, code-lt error_code))
      (built-Sends u (replicate 10 0) (cmd_type ∷ u8 (code error_code) ∷ sensor_id ∷ [])
        Proto.type_rsp_ack seq 3 refl (omega arith) (omega arith) refl v)

-- `protocol_send_error` does the same with the RSP_ERROR frame of nine bytes.
pub send_error-Sends :
    (u : Uart) (sensor_id : ℕ) (error_code : ErrCode) (seq : ℕ)
    → IsUart u
    → Sends u (error_bytes sensor_id error_code seq) (send_error u sensor_id error_code seq)
unfolding send_error
send_error-Sends u sensor_id error_code seq v =
    subst
      (λ (e : ℕ).
        Sends u (frame_bytes Proto.type_rsp_error seq (sensor_id ∷ e ∷ []))
          (send_error u sensor_id error_code seq))
      (omega (arith, code-lt error_code))
      (built-Sends u (replicate 9 0) (sensor_id ∷ u8 (code error_code) ∷ []) Proto.type_rsp_error
        seq 2 refl (omega arith) (omega arith) refl v)
