-- ===== src/Transmitter/Send.antt =====
-- A send as a whole: the frame is prepared, takes an acknowledgement and credits along, is kept and
-- goes out.
use omnixtend_c.Base.{
  ℕ, ◌+◌, ◌-◌, ◌*◌, ◌%◌, ◌^◌, ◌≤◌, ◌<◌, ◌≡◌, ◌≢◌, refl, sym, ap, ◌∙◌, arith, true, false, Option,
  some, List, [], ◌∷◌, ◌++◌, length, ok, ne→==, eq→==, ◌==◌, Bool-cases, ◌⊎◌, inl, inr,
}
use omnixtend_c.Fifo
use omnixtend_c.TlMsg.{TlMsg, channel_num}
use omnixtend_c.Frame.{Frame, tloe_ack, type_normal, max_size_flit, zero_frame, tloe_get_fsize}
use omnixtend_c.Frame.Packet.{packet_of}
use omnixtend_c.CircularQueue.{CircularQueue, enqueue, dequeue, is_queue_empty}
use omnixtend_c.CircularQueue.Contents.{IsValid, contents}
use omnixtend_c.CircularQueue.Laws.{dequeue_refines, is_queue_empty_lem}
use omnixtend_c.SeqNum.Order.{next_of_counter}
use omnixtend_c.SeqNum.{tloe_seqnum_next}
use omnixtend_c.FlowControl.{Flowcontrol}
use omnixtend_c.FlowControl.Outgoing.{outgoing_lem}
use omnixtend_c.Endpoint.{Endpoint, tloe_seqnum_next_tx_seq_inc, tloe_seqnum_set_frame_seq_num_ack}
use omnixtend_c.Transmitter.{prepare_normal_frame, tx_take_ack, tx_give_credit, tx_frame}
use omnixtend_c.Frame.Fields.{Fits}
use omnixtend_c.Transmitter.Prepare.{Sendable, Laid, prepare_lem}
use omnixtend_c.Transmitter.Append.{element_of, append_and_send_lem}
use omnixtend_c.Receiver.Extract.{enqueue_room}

-- A frame of `k` flits that a send hands to the medium.
pub record IsSent (e : Endpoint) (tlmsg : Option TlMsg) (k : ℕ) (f : Frame) : Type 0 where
  pub large : 6 ≤ k
  pub room : length f.flits ≡ k * 8
  pub seq_num : f.header.seq_num ≡ e.next_tx_seq % 2 ^ 22
  pub ack : f.header.ack ≡ tloe_ack
  pub type : f.header.type ≡ type_normal
  pub chan : f.header.chan < channel_num
  pub fits : Fits f.header
  pub laid : Laid tlmsg k f.flits

take_ack_lem :
    (e : Endpoint) (f : Frame)
    → IsValid e.ack_buffer
    → (x : ℕ) × (q : CircularQueue Frame) × (tx_take_ack e f
        ≡ ok (
          record f { header = record (f.header) { seq_num_ack = x } },
          record e { ack_buffer = q },
        ))
      × (f.header.seq_num_ack < 2 ^ 22 → x < 2 ^ 22)
      × (contents q ≡ (Fifo.pop (contents e.ack_buffer)).1)
      × IsValid q
unfolding tx_take_ack tloe_seqnum_set_frame_seq_num_ack
take_ack_lem e f v = go (contents e.ack_buffer) refl (dequeue_refines e.ack_buffer v)
  where
    go :
        (l : List Frame)
        → contents e.ack_buffer ≡ l
        → (((dequeue e.ack_buffer).0, contents (dequeue e.ack_buffer).1)
            ≡ Fifo.pop (contents e.ack_buffer))
          × IsValid (dequeue e.ack_buffer).1
          × ((dequeue e.ack_buffer).1.size ≡ e.ack_buffer.size)
        → (x : ℕ) × (q : CircularQueue Frame) × (tx_take_ack e f
            ≡ ok (
              record f { header = record (f.header) { seq_num_ack = x } },
              record e { ack_buffer = q },
            ))
          × (f.header.seq_num_ack < 2 ^ 22 → x < 2 ^ 22)
          × (contents q ≡ (Fifo.pop (contents e.ack_buffer)).1)
          × IsValid q
    go [] c (d, w, s) =
        let empty : is_queue_empty e.ack_buffer ≡ true =
          is_queue_empty_lem e.ack_buffer v ∙ eq→== _ _ (ap length c) in
        (
          f.header.seq_num_ack,
          e.ack_buffer,
          rw (empty, tx_take_ack) refl,
          λ h. h,
          c ∙ sym (ap (λ l. (Fifo.pop l).1) c),
          v,
        )
    go (a ∷ l) c (d, w, s) =
        let some_left : is_queue_empty e.ack_buffer ≡ false =
          is_queue_empty_lem e.ack_buffer v ∙ ne→== _ _ (omega (arith, ap length c)) in
        let front : (dequeue e.ack_buffer).0 ≡ some a =
          ap (λ p. p.0) d ∙ ap (λ l. (Fifo.pop l).0) c in
        (
          a.header.seq_num_ack % 2 ^ 22,
          (dequeue e.ack_buffer).1,
          rw (some_left, front, tx_take_ack) refl,
          λ h. omega arith,
          ap (λ p. p.1) d,
          w,
        )

give_credit_lem :
    (e : Endpoint) (f : Frame) (chan : ℕ)
    → chan < channel_num
    → (chan ≡ 0) ⊎ (0 < e.fc.tx_flow_credits chan)
    → e.fc.tx_flow_credits chan < 2 ^ 32
    → f.header.chan < channel_num
    → f.header.credit < 2 ^ 5
    → (c x : ℕ) × (fc : Flowcontrol) × (tx_give_credit e f chan
        ≡ ok (
          record f { header = record (f.header) { chan = c; credit = x } },
          record e { fc = fc },
        ))
      × (c < channel_num)
      × (x < 2 ^ 5)
      × (fc.credits ≡ e.fc.credits)
unfolding tx_give_credit
give_credit_lem e f chan inside (inl none_owed) bound hc hx =
    (f.header.chan, f.header.credit, e.fc, rw (eq→== chan 0 none_owed) refl, hc, hx, refl)
give_credit_lem e f chan inside (inr owed) bound hc hx = elim (Bool-cases (chan == 0)) [
  | inl nothing ↦ (f.header.chan, f.header.credit, e.fc, rw nothing refl, hc, hx, refl)
  | inr channel ↦
      let (r, fc, run, lt, paid, less, now, held) = outgoing_lem e.fc chan inside owed bound in
      (chan % 2 ^ 3, r % 2 ^ 5, fc, rw (channel, run) refl, omega arith, omega arith, held)
]

-- The endpoint that a send of the frame `f` leaves.
abbrev pub after_send : Endpoint → Frame → ℕ → CircularQueue Frame → Flowcontrol → Endpoint
after_send e f k q fc = record e {
  ack_buffer = q;
  fc = fc;
  retransmit_buffer = (enqueue e.retransmit_buffer (element_of e f (8 + k * 8))).1;
  wire = e.wire ++ packet_of f k ∷ [];
  next_tx_seq = tloe_seqnum_next e.next_tx_seq;
}

-- The frame goes out as it was prepared but for the fields of the acknowledgement and the credit.
pub tx_frame_run :
    (e : Endpoint) (tlmsg : Option TlMsg) (chan k : ℕ)
    → e.handle_open ≡ true
    → IsValid e.retransmit_buffer
    → length (contents e.retransmit_buffer) ≢ e.retransmit_buffer.size - 1
    → IsValid e.ack_buffer
    → Sendable tlmsg
    → tloe_get_fsize tlmsg ≡ 8 + k * 8
    → k ≤ max_size_flit
    → chan < channel_num
    → (chan ≡ 0) ⊎ (0 < e.fc.tx_flow_credits chan)
    → e.fc.tx_flow_credits chan < 2 ^ 32
    → (f : Frame) × (q : CircularQueue Frame) × (fc : Flowcontrol) × IsSent e tlmsg k f
      × (tx_frame e tlmsg chan ≡ ok (after_send e f k q fc))
      × (contents q ≡ (Fifo.pop (contents e.ack_buffer)).1)
      × IsValid q
      × (fc.credits ≡ e.fc.credits)
unfolding tx_frame tloe_seqnum_next_tx_seq_inc
tx_frame_run e tlmsg chan k open_ v space va w size small inside owed bound =
    let (f, prep, ready) = prepare_lem e tlmsg k w size in
    let prep' =
      ap (λ t. prepare_normal_frame e (zero_frame t) tlmsg (8 + k * 8)) {x = 8 + k * 8 - 8}
        {y = k * 8} (omega arith)
      ∙ prep in
    let (x, q, took, low, popped, vq) = take_ack_lem e f va in
    let g : Frame = record f { header = record (f.header) { seq_num_ack = x } } in
    let a : Endpoint = record e { ack_buffer = q } in
    let (c, y, fc, gave, hc, hy, held) =
      give_credit_lem a g chan inside owed bound (omega (arith, ready.chan)) (ready.fits.credit) in
    let h : Frame = record g { header = record (g.header) { chan = c; credit = y } } in
    let b : Endpoint = record a { fc = fc } in
    let run =
      append_and_send_lem b h (8 + k * 8) k open_ v space refl small (omega (arith, ready.room)) in
    (
      h,
      q,
      fc,
      record {
        large = ready.large;
        room = ready.room;
        seq_num = ready.seq_num;
        ack = ready.ack;
        type = ready.type;
        chan = hc;
        fits = omega (arith, ready.fits, low ready.fits.seq_num_ack, hc, hy);
        laid = ready.laid;
      },
      rw (size, prep', took, gave) run,
      popped,
      vq,
      held,
    )

-- A send with room in the window returns: the handle is open, the retransmission buffer and the
-- queue of acknowledgements are valid, the former has room, the message, if there is one, is as
-- long as its header says, the frame has the size that the code computes and at most 65 flits, and
-- the channel for credits is inside the arrays and is 0 or owed credits, in 32 bits. `tx_frame`
-- hands one packet to the medium, keeps its frame at the end of the buffer as sent under the next
-- sequence number, and advances that. The frame carries a positive acknowledgement, also where the
-- one at the head of the queue is negative, which is taken off; the credits held stay.
pub tx_frame_lem :
    (e : Endpoint) (tlmsg : Option TlMsg) (chan k n : ℕ)
    → e.handle_open ≡ true
    → IsValid e.retransmit_buffer
    → length (contents e.retransmit_buffer) ≢ e.retransmit_buffer.size - 1
    → IsValid e.ack_buffer
    → Sendable tlmsg
    → tloe_get_fsize tlmsg ≡ 8 + k * 8
    → k ≤ max_size_flit
    → chan < channel_num
    → (chan ≡ 0) ⊎ (0 < e.fc.tx_flow_credits chan)
    → e.fc.tx_flow_credits chan < 2 ^ 32
    → e.next_tx_seq ≡ n % 2 ^ 22
    → (e' : Endpoint) × (f : Frame) × (tx_frame e tlmsg chan ≡ ok e')
      × (f.header.seq_num ≡ n % 2 ^ 22)
      × (f.header.ack ≡ tloe_ack)
      × (e'.wire ≡ e.wire ++ packet_of f k ∷ [])
      × (contents e'.retransmit_buffer
          ≡ contents e.retransmit_buffer ++ element_of e f (8 + k * 8) ∷ [])
      × IsValid e'.retransmit_buffer
      × (e'.next_tx_seq ≡ (n + 1) % 2 ^ 22)
      × (contents e'.ack_buffer ≡ (Fifo.pop (contents e.ack_buffer)).1)
      × (e'.fc.credits ≡ e.fc.credits)
tx_frame_lem e tlmsg chan k n open_ v space va w size small inside owed bound en =
    let (f, q, fc, is_sent, run, popped, vq, held) =
      tx_frame_run e tlmsg chan k open_ v space va w size small inside owed bound in
    let (added, now, vb, s) =
      enqueue_room e.retransmit_buffer (element_of e f (8 + k * 8)) v space in
    (
      after_send e f k q fc,
      f,
      run,
      omega (arith, is_sent.seq_num, en),
      is_sent.ack,
      refl,
      now,
      vb,
      ap tloe_seqnum_next en ∙ next_of_counter n,
      popped,
      held,
    )
