-- ===== src/Receiver/Serve.antt =====
-- What a receiver does with a request of each kind.
use omnixtend_c.Base.{
  ℕ, ◌+◌, ◌-◌, ◌%◌, ◌^◌, ◌≤◌, ◌<◌, ◌≡◌, ◌≢◌, refl, ap, ◌∙◌, arith, [], ◌∷◌, ◌++◌, length, ok,
}
use omnixtend_c.TlMsg.{TlMsg, channel_num}
use omnixtend_c.Frame.{
  FrameHeader, Frame, tloe_nak, tloe_ack, mask_offset, tloe_get_mask, tloe_get_tlmsg,
  is_zero_tl_frame,
}
use omnixtend_c.Frame.Carry.{masked, set_mask_lem}
use omnixtend_c.CircularQueue.{enqueue}
use omnixtend_c.CircularQueue.Contents.{IsValid, contents}
use omnixtend_c.SeqNum.{half_max_seq_num, tloe_seqnum_prev, tloe_seqnum_next}
use omnixtend_c.SeqNum.Order.{next_of_counter}
use omnixtend_c.FlowControl.Credits.{credit_inc_lem}
use omnixtend_c.Endpoint.{
  Endpoint, tloe_seqnum_update_next_rx_seq, tloe_seqnum_update_acked_seq,
  tloe_seqnum_set_frame_seq_num_ack,
}
use omnixtend_c.Receiver.{
  req_normal, req_duplicate, req_oos, tloe_rx_get_req_type, serve_normal_request,
  serve_duplicate_request, serve_oos_request, serve_request,
}
use omnixtend_c.Receiver.Order.{req_type_ahead, req_type_behind}
use omnixtend_c.Receiver.Extract.{enqueue_room, extract_one}

-- A step that changes none of what the sending side keeps.
pub record SameSending (e e' : Endpoint) : Type 0 where
  pub wire : e'.wire ≡ e.wire
  pub retransmit_buffer : e'.retransmit_buffer ≡ e.retransmit_buffer
  pub next_tx_seq : e'.next_tx_seq ≡ e.next_tx_seq
  pub message_buffer : e'.message_buffer ≡ e.message_buffer
  pub response_buffer : e'.response_buffer ≡ e.response_buffer
  pub handle_open : e'.handle_open ≡ e.handle_open

pub serve_in_order :
    (e : Endpoint) (f : Frame) (size n : ℕ) (m : TlMsg)
    → IsValid e.tl_msg_buffer
    → length (contents e.tl_msg_buffer) ≢ e.tl_msg_buffer.size - 1
    → e.next_rx_seq ≡ n % 2 ^ 22
    → f.header.seq_num ≡ n % 2 ^ 22
    → f.header.chan < channel_num
    → tloe_get_mask f size ≡ ok 1
    → tloe_get_tlmsg f 0 ≡ ok m
    → (e' : Endpoint) × (serve_request (tloe_rx_get_req_type e f) e f size ≡ ok e')
      × (contents e'.tl_msg_buffer ≡ contents e.tl_msg_buffer ++ m ∷ [])
      × IsValid e'.tl_msg_buffer
      × (e'.tl_msg_buffer.size ≡ e.tl_msg_buffer.size)
      × (e'.next_rx_seq ≡ (n + 1) % 2 ^ 22)
      × (e'.ack_buffer ≡ e.ack_buffer)
      × SameSending e e'
unfolding serve_request serve_normal_request is_zero_tl_frame tloe_seqnum_update_next_rx_seq
    tloe_seqnum_update_acked_seq
serve_in_order e f size n m v room en fn hc mask msg =
    let (q, took, now, w, s) = extract_one f e.tl_msg_buffer m v room msg in
    let (r, fc', inc, gain, owed) = credit_inc_lem e.fc f.header hc in
    let kind : tloe_rx_get_req_type e f ≡ req_normal =
      req_type_ahead e f n 0 (omega arith) en (omega (arith, fn)) in
    (
      record (tloe_seqnum_update_acked_seq (tloe_seqnum_update_next_rx_seq e f) f) {
        tl_msg_buffer = q;
        fc = fc';
      },
      rw (kind, mask, took, inc),
      now,
      w,
      s,
      ap tloe_seqnum_next fn ∙ next_of_counter n,
      refl,
      record {
        wire = refl;
        retransmit_buffer = refl;
        next_tx_seq = refl;
        message_buffer = refl;
        response_buffer = refl;
        handle_open = refl;
      },
    )

-- A step that also leaves what the receiver has taken.
pub record SameTaken (e e' : Endpoint) : Type 0 where
  pub sending : SameSending e e'
  pub tl_msg_buffer : e'.tl_msg_buffer ≡ e.tl_msg_buffer
  pub next_rx_seq : e'.next_rx_seq ≡ e.next_rx_seq
  pub acked_seq : e'.acked_seq ≡ e.acked_seq
  pub fc : e'.fc ≡ e.fc

-- The header of the answer to a frame that is not taken.
abbrev pub answer_header : FrameHeader → ℕ → ℕ → FrameHeader
answer_header h ack seq_num_ack = record h {
  ack = ack;
  seq_num_ack = seq_num_ack;
  chan = 0;
  credit = 0;
}

abbrev pub answer : Frame → ℕ → ℕ → ℕ → Frame
answer f size ack seq_num_ack = record {
  header = answer_header f.header ack seq_num_ack;
  flits = masked f.flits 0 (mask_offset size);
}

module _ (e : Endpoint) (f : Frame) (size n d : ℕ) (v : IsValid e.ack_buffer)
    (room : length (contents e.ack_buffer) ≢ e.ack_buffer.size - 1) (whole : 16 ≤ size)
    (inside : mask_offset size + 8 ≤ length f.flits) (ahead : 0 < d)
    (near : d < half_max_seq_num) where
  -- A frame of at least 16 bytes whose number is d behind the one that is waited for, 0 < d <
  -- 2 ^ 21, is not taken again, if the queue of acknowledgements is valid and has room. A positive
  -- acknowledgement of its own number, with an empty mask and no credit, goes to the end of that
  -- queue, and the buffers, counters of sequence and credits stay.
  pub serve_duplicate :
      e.next_rx_seq ≡ (n + d) % 2 ^ 22
      → f.header.seq_num ≡ n % 2 ^ 22
      → (e' : Endpoint) × (serve_request (tloe_rx_get_req_type e f) e f size ≡ ok e')
        × (contents e'.ack_buffer
            ≡ contents e.ack_buffer ++ answer f size tloe_ack f.header.seq_num ∷ [])
        × IsValid e'.ack_buffer
        × SameTaken e e'
  unfolding serve_request serve_duplicate_request
  serve_duplicate en fn =
      let (added, now, w, s) =
        enqueue_room e.ack_buffer (answer f size tloe_ack f.header.seq_num) v room in
      let kind : tloe_rx_get_req_type e f ≡ req_duplicate =
        req_type_behind e f n d near en fn ∙ ground arith in
      let g : Frame = record f { header = answer_header f.header tloe_ack f.header.seq_num } in
      (
        record e {
          ack_buffer = (enqueue e.ack_buffer (answer f size tloe_ack f.header.seq_num)).1;
          dup_cnt = e.dup_cnt + 1;
        },
        rw (kind, set_mask_lem g 0 size whole inside, added),
        now,
        w,
        record {
          sending = record {
            wire = refl;
            retransmit_buffer = refl;
            next_tx_seq = refl;
            message_buffer = refl;
            response_buffer = refl;
            handle_open = refl;
          };
          tl_msg_buffer = refl;
          next_rx_seq = refl;
          acked_seq = refl;
          fc = refl;
        },
      )

  -- A frame of at least 16 bytes whose number is d ahead of the one that is waited for, 0 < d <
  -- 2 ^ 21, is not taken, if the queue of acknowledgements is valid and has room. A negative
  -- acknowledgement of the number before the one waited for, with an empty mask and no credit, goes
  -- to the end of that queue, and the buffers, counters of sequence and credits stay.
  pub serve_oos :
      e.next_rx_seq ≡ n % 2 ^ 22
      → f.header.seq_num ≡ (n + d) % 2 ^ 22
      → (e' : Endpoint) × (serve_request (tloe_rx_get_req_type e f) e f size ≡ ok e')
        × (contents e'.ack_buffer
            ≡ contents e.ack_buffer
              ++ answer f size tloe_nak (tloe_seqnum_prev e.next_rx_seq % 2 ^ 22) ∷ [])
        × IsValid e'.ack_buffer
        × SameTaken e e'
  unfolding serve_request serve_oos_request tloe_seqnum_set_frame_seq_num_ack
  serve_oos en fn =
      let last : ℕ = tloe_seqnum_prev e.next_rx_seq % 2 ^ 22 in
      let (added, now, w, s) = enqueue_room e.ack_buffer (answer f size tloe_nak last) v room in
      let kind : tloe_rx_get_req_type e f ≡ req_oos =
        req_type_ahead e f n d near en fn ∙ ground arith in
      let g : Frame = record f {
        header = record (f.header) { ack = tloe_nak; seq_num_ack = last };
      } in
      (
        record e {
          ack_buffer = (enqueue e.ack_buffer (answer f size tloe_nak last)).1;
          oos_cnt = e.oos_cnt + 1;
        },
        rw (kind, set_mask_lem g 0 size whole inside, added),
        now,
        w,
        record {
          sending = record {
            wire = refl;
            retransmit_buffer = refl;
            next_tx_seq = refl;
            message_buffer = refl;
            response_buffer = refl;
            handle_open = refl;
          };
          tl_msg_buffer = refl;
          next_rx_seq = refl;
          acked_seq = refl;
          fc = refl;
        },
      )
