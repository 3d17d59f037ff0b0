-- ===== src/Transmitter/Append.antt =====
-- What the last steps of a send do: the frame goes to the end of the retransmission buffer and, as
-- it is, to the medium.
use omnixtend_c.Base.{
  ℕ, zero, suc, ◌+◌, ◌-◌, ◌*◌, ◌≤◌, ◌≡◌, ◌≢◌, refl, ap, ◌∙◌, arith, true, none, some, List, [], ◌∷◌,
  ◌++◌, length, set, get_or, get_or-set_self, take, drop, Outcome, ok, exits, ◌>>=◌, ◌>>◌, require,
  ne→==,
}
use omnixtend_c.Frame.{Frame, max_size_flit, zero_frame}
use omnixtend_c.Frame.Packet.{packet_of, frame_to_packet_lem}
use omnixtend_c.Memory.Laws.{le→leb}
use omnixtend_c.CircularQueue.{CircularQueue, enqueue, write_slot}
use omnixtend_c.CircularQueue.Contents.{IsValid, contents}
use omnixtend_c.CircularQueue.Laws.{is_queue_full_lem}
use omnixtend_c.Timeout.{get_current_timestamp}
use omnixtend_c.Endpoint.{
  Endpoint, RetransmitBufferElement, init, sent, tloe_fabric_send, tloe_seqnum_next_tx_seq_inc,
}
use omnixtend_c.Transmitter.{enqueue_retransmit_buffer, send_request_normal_frame, mark_sent}
use omnixtend_c.Receiver.Extract.{enqueue_room}

set-set {ℓ} : {A : Type ℓ} (xs : List A) (i : ℕ) (a b : A) → set (set xs i a) i b ≡ set xs i b
set-set [] i a b = refl
set-set (x ∷ xs) zero a b = refl
set-set (x ∷ xs) (suc i) a b = ap (◌∷◌ x) (set-set xs i a b)

-- An element that is rewritten right after it was put into a queue might as well have been put so.
write-enqueue {ℓ} :
    {A : Type ℓ} (q : CircularQueue A) (a b : A)
    → IsValid q
    → length (contents q) ≢ q.size - 1
    → write_slot (enqueue q a).1 q.rear b ≡ (enqueue q b).1
unfolding enqueue
write-enqueue q a b v h =
    let room = is_queue_full_lem q v ∙ ne→== _ _ h in
    rw (room, set-set q.slots q.rear (some a) (some b)) refl

at_rear {ℓ} :
    {A : Type ℓ} (q : CircularQueue A) (a : A)
    → IsValid q
    → length (contents q) ≢ q.size - 1
    → get_or (enqueue q a).1.slots q.rear none ≡ some a
unfolding enqueue
at_rear q a v h =
    let room = is_queue_full_lem q v ∙ ne→== _ _ h in
    rw room (get_or-set_self q.slots q.rear (some a) none (omega (arith, v.rear_in, v.storage)))

pub fabric_send_open :
    (e : Endpoint) (p : List ℕ)
    → e.handle_open ≡ true
    → tloe_fabric_send e p ≡ record e { wire = e.wire ++ p ∷ [] }
unfolding tloe_fabric_send
fabric_send_open e p open_ = rw open_ refl

mark_sent_lem :
    (e : Endpoint) (i : ℕ) (r : RetransmitBufferElement)
    → get_or e.retransmit_buffer.slots i none ≡ some r
    → mark_sent e i
      ≡ ok (record e {
        retransmit_buffer = write_slot e.retransmit_buffer i (record r { state = sent });
      })
unfolding mark_sent
mark_sent_lem e i r h = rw (h, mark_sent) refl

-- the element that a send leaves in the buffer
abbrev pub element_of : Endpoint → Frame → ℕ → RetransmitBufferElement
element_of e f size = record {
  state = sent;
  f_size = size;
  send_time = get_current_timestamp e.iteration_ts;
  tloe_frame = record f {
    flits = take (size - 8) f.flits ++ drop (size - 8) (zero_frame (max_size_flit * 8)).flits;
  };
}

-- the last five calls of `tx_frame`
abbrev pub append_and_send : Endpoint → Frame → ℕ → Outcome Endpoint
append_and_send e f size = do
  r ← enqueue_retransmit_buffer e f size
  require r.0 exits
  s ← send_request_normal_frame r.1 f size
  s ← mark_sent s e.retransmit_buffer.rear
  ok (tloe_seqnum_next_tx_seq_inc s)

pub append_and_send_lem :
    (e : Endpoint) (f : Frame) (size k : ℕ)
    → e.handle_open ≡ true
    → IsValid e.retransmit_buffer
    → length (contents e.retransmit_buffer) ≢ e.retransmit_buffer.size - 1
    → size ≡ 8 + k * 8
    → k ≤ max_size_flit
    → k * 8 ≤ length f.flits
    → append_and_send e f size
      ≡ ok (
          tloe_seqnum_next_tx_seq_inc (record e {
            retransmit_buffer = (enqueue e.retransmit_buffer (element_of e f size)).1;
            wire = e.wire ++ packet_of f k ∷ [];
          }))
unfolding enqueue_retransmit_buffer send_request_normal_frame
append_and_send_lem e f size k open_ v room whole small held =
    let fresh : RetransmitBufferElement = record (element_of e f size) { state = init } in
    let (added, now, w, s) = enqueue_room e.retransmit_buffer fresh v room in
    let queued : Endpoint = record e {
      retransmit_buffer = (enqueue e.retransmit_buffer fresh).1;
    } in
    let out : Endpoint = record queued { wire = e.wire ++ packet_of f k ∷ [] } in
    rw
      (
        le→leb size (8 + max_size_flit * 8) (omega arith),
        added,
        frame_to_packet_lem f size k whole (omega arith) held,
        fabric_send_open queued (packet_of f k) open_,
        mark_sent_lem out e.retransmit_buffer.rear fresh (at_rear e.retransmit_buffer fresh v room),
        write-enqueue e.retransmit_buffer fresh (element_of e f size) v room,
      )
      refl
