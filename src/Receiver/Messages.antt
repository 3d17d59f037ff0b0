-- ===== src/Receiver/Messages.antt =====
-- tloe_receiver.c: a frame in sequence, with any number of messages or none.
use omnixtend_c.Base.{
  ℕ, ◌+◌, ◌%◌, ◌^◌, ◌<◌, ◌≡◌, refl, sym, ap, ◌∙◌, arith, Bool-cases, inl, inr, true, List, ◌++◌, [],
  append-nil, length, ok, ◌==◌, ==→eq, if◌then◌else◌,
}
use omnixtend_c.TlMsg.{TlMsg, channel_num}
use omnixtend_c.Frame.{Frame, tloe_get_mask, is_zero_tl_frame}
use omnixtend_c.CircularQueue.Contents.{IsValid, contents}
use omnixtend_c.SeqNum.{tloe_seqnum_next}
use omnixtend_c.SeqNum.Order.{next_of_counter}
use omnixtend_c.FlowControl.{fc_credit_inc}
use omnixtend_c.FlowControl.Credits.{credit_inc_lem}
use omnixtend_c.Endpoint.{Endpoint, tloe_seqnum_update_next_rx_seq, tloe_seqnum_update_acked_seq}
use omnixtend_c.Receiver.{
  req_normal, tloe_rx_get_req_type, serve_request, serve_normal_request, serve_zero_tlmsg_request,
}
use omnixtend_c.Receiver.Order.{req_type_ahead}
use omnixtend_c.Receiver.Rounds.{named, Carries, Carries-nil, extract_from_lem}
use omnixtend_c.Receiver.Serve.{SameSending}

-- What a frame with these messages in sequence has made of an endpoint.
pub record IsServed (e : Endpoint) (f : Frame) (mask n : ℕ) (ms : List TlMsg) (e' : Endpoint)
    : Type 0 where
  pub messages : contents e'.tl_msg_buffer ≡ contents e.tl_msg_buffer ++ ms
  pub valid : IsValid e'.tl_msg_buffer
  pub size : e'.tl_msg_buffer.size ≡ e.tl_msg_buffer.size
  pub next_rx_seq : e'.next_rx_seq ≡ (n + 1) % 2 ^ 22
  pub granted : ℕ
  pub credits : fc_credit_inc e.fc f.header ≡ ok (granted, e'.fc)
  pub answer :
      e'.should_send_ackonly_frame ≡ (if mask == 0 then true else e.should_send_ackonly_frame)
  pub ack_buffer : e'.ack_buffer ≡ e.ack_buffer
  pub sending : SameSending e e'

-- A frame with the sequence number that is waited for, a channel inside the arrays and a mask of 64
-- bits is taken, if a message can be read at every flit that the mask names and the buffer of
-- messages is valid and has room for them all. The messages go to the end of that buffer, in the
-- order of their flits and each once; the next number is waited for, and the credits of the frame
-- are added. Without a message, a frame that only acknowledges is asked for. The queue of
-- acknowledgements, the retransmission buffer, the next number to send, the queues of requests and
-- responses, what was sent, the handle and the size of the buffer stay.
pub serve_messages :
    (e : Endpoint) (f : Frame) (size n mask : ℕ) (ms : List TlMsg)
    → IsValid e.tl_msg_buffer
    → length (contents e.tl_msg_buffer) + length ms < e.tl_msg_buffer.size
    → e.next_rx_seq ≡ n % 2 ^ 22
    → f.header.seq_num ≡ n % 2 ^ 22
    → f.header.chan < channel_num
    → tloe_get_mask f size ≡ ok mask
    → mask < 2 ^ 64
    → Carries f (named mask) ms
    → (e' : Endpoint) × (serve_request (tloe_rx_get_req_type e f) e f size ≡ ok e')
      × IsServed e f mask n ms e'
unfolding serve_request serve_normal_request serve_zero_tlmsg_request is_zero_tl_frame
    tloe_seqnum_update_next_rx_seq tloe_seqnum_update_acked_seq
serve_messages e f size n mask ms v room en fn hc get small c =
    let (r, fc', inc, gain, owed) = credit_inc_lem e.fc f.header hc in
    let a : Endpoint = tloe_seqnum_update_acked_seq (tloe_seqnum_update_next_rx_seq e f) f in
    let (q, took, now, w, s) = extract_from_lem f mask 0 e.tl_msg_buffer ms small v room c in
    let kind : tloe_rx_get_req_type e f ≡ req_normal =
      req_type_ahead e f n 0 (omega arith) en (omega (arith, fn)) in
    let next : tloe_seqnum_next f.header.seq_num ≡ (n + 1) % 2 ^ 22 =
      ap tloe_seqnum_next fn ∙ next_of_counter n in
    elim (Bool-cases (mask == 0)) [
      | inl none_named ↦
          let empty : ms ≡ [] = Carries-nil f ms (rw (==→eq mask 0 none_named) at c) in
          (
            record a { should_send_ackonly_frame = true; fc = fc' },
            rw (kind, get, none_named, inc) refl,
            record {
              messages = rw empty (sym (append-nil (contents e.tl_msg_buffer)));
              valid = v;
              size = refl;
              next_rx_seq = next;
              granted = r;
              credits = inc;
              answer = rw none_named refl;
              ack_buffer = refl;
              sending = record {
                wire = refl;
                retransmit_buffer = refl;
                next_tx_seq = refl;
                message_buffer = refl;
                response_buffer = refl;
                handle_open = refl;
              };
            },
          )
      | inr some_named ↦ (
        record a { tl_msg_buffer = q; fc = fc' },
        rw (kind, get, some_named, took, inc) refl,
        record {
          messages = now;
          valid = w;
          size = s;
          next_rx_seq = next;
          granted = r;
          credits = inc;
          answer = rw some_named refl;
          ack_buffer = refl;
          sending = record {
            wire = refl;
            retransmit_buffer = refl;
            next_tx_seq = refl;
            message_buffer = refl;
            response_buffer = refl;
            handle_open = refl;
          };
        },
      )
    ]
