-- ===== src/Connection/Last.antt =====
-- tloe_connection.c with tloe_receiver.c: what `RX` does with the frame that each side sends last when it opens.
use omnixtend_c.Base.{ℕ, ◌≡◌, refl, ◌∙◌, arith, some, true, length, [], ok}
use omnixtend_c.Memory.{read_bytes, le_bytes, le_value}
use omnixtend_c.Frame.{
  Frame, type_normal, type_ackonly, tloe_get_mask, is_ackonly_frame, is_zero_tl_frame,
}
use omnixtend_c.Frame.Packet.{packet_of, length-packet_of, received}
use omnixtend_c.CircularQueue.Contents.{IsValid, contents}
use omnixtend_c.SeqNum.Order.{next_lem}
use omnixtend_c.FlowControl.Credits.{credit_inc_lem}
use omnixtend_c.Endpoint.{Endpoint, tloe_seqnum_update_next_rx_seq, tloe_seqnum_update_acked_seq}
use omnixtend_c.Retransmission.{slide_window}
use omnixtend_c.Retransmission.Window.{slide_window_acked}
use omnixtend_c.Receiver.{
  rx, serve_ack, serve_request, serve_zero_tlmsg_request, tloe_rx_get_req_type, req_normal,
}
use omnixtend_c.Receiver.Order.{req_type_ahead}
use omnixtend_c.Link.DataFrame.{cleared}
use omnixtend_c.Link.Receive.{slid}
use omnixtend_c.Link.Reply.{rx_reply}
use omnixtend_c.Connection.{conn_frame}
use omnixtend_c.Connection.Frames.{sent_frame, heard}

abbrev last_master : Frame
last_master = sent_frame type_normal 5 4 0 0

abbrev heard_master : Frame
heard_master = received last_master 6 cleared

no_message : tloe_get_mask heard_master 56 ≡ ok 0
unfolding conn_frame tloe_get_mask read_bytes le_bytes le_value
no_message = refl

whole : length (packet_of last_master 6) ≡ 56
unfolding conn_frame le_bytes
whole = length-packet_of last_master 6 (omega arith)

-- The receipt of such a frame by an endpoint with an empty window.
pub record Settled (e e' : Endpoint) (next_rx : ℕ) : Type 0 where
  pub handle_open : e'.handle_open ≡ e.handle_open
  pub next_tx_seq : e'.next_tx_seq ≡ e.next_tx_seq
  pub next_rx_seq : e'.next_rx_seq ≡ next_rx
  pub valid : IsValid e'.retransmit_buffer
  pub slots : e'.retransmit_buffer.size ≡ e.retransmit_buffer.size
  pub empty : contents e'.retransmit_buffer ≡ []
  pub ack_buffer : e'.ack_buffer ≡ e.ack_buffer
  pub tl_msg_buffer : e'.tl_msg_buffer ≡ e.tl_msg_buffer
  pub credits : e'.fc.credits ≡ e.fc.credits

slides_nothing :
    (e : Endpoint) (f : Frame)
    → IsValid e.retransmit_buffer
    → contents e.retransmit_buffer ≡ []
    → f.header.seq_num_ack ≡ 4
    → let q = (slide_window e f).retransmit_buffer in
      IsValid q × (contents q ≡ []) × (q.size ≡ e.retransmit_buffer.size)
slides_nothing e f v empty_ a =
    let (w, d, c, s) =
      slide_window_acked e f 5 0 v (rw empty_ tt) (rw empty_ (omega arith)) (omega arith)
        (omega (arith, a)) in
    (w, d ∙ empty_, s)

module _ (e : Endpoint) (five : e.next_rx_seq ≡ 5) (v : IsValid e.retransmit_buffer)
    (empty_ : contents e.retransmit_buffer ≡ []) where
  pub rx-last_master :
      (e' : Endpoint) × (rx e (some (packet_of last_master 6)) ≡ ok e') × Settled e e' 6
  unfolding rx serve_ack serve_request serve_zero_tlmsg_request is_ackonly_frame is_zero_tl_frame
      slide_window tloe_seqnum_update_next_rx_seq tloe_seqnum_update_acked_seq conn_frame
  rx-last_master =
      let (r, fc', inc, gain, owed) = credit_inc_lem e.fc heard_master.header (omega arith) in
      let kind : tloe_rx_get_req_type (slid e heard_master) heard_master ≡ req_normal =
        req_type_ahead (slid e heard_master) heard_master 5 0 (omega arith) five refl in
      let (w, d, s) = slides_nothing e heard_master v empty_ refl in
      (
        record (tloe_seqnum_update_acked_seq
            (tloe_seqnum_update_next_rx_seq (slid e heard_master) heard_master) heard_master) {
              should_send_ackonly_frame = true;
              fc = fc';
            },
        rw (heard type_normal 5 4 0 0, kind, whole, no_message, inc) refl,
        record {
          handle_open = refl;
          next_tx_seq = refl;
          next_rx_seq = next_lem 5;
          valid = w;
          slots = s;
          empty = d;
          ack_buffer = refl;
          tl_msg_buffer = refl;
          credits = gain;
        },
      )

  pub rx-last_slave :
      (e' : Endpoint) × (rx e (some (packet_of (sent_frame type_ackonly 5 4 0 0) 6)) ≡ ok e')
      × Settled e e' 5
  unfolding slide_window tloe_seqnum_update_acked_seq conn_frame le_bytes
  rx-last_slave =
      let f = sent_frame type_ackonly 5 4 0 0 in
      let g = received f 6 cleared in
      let (w, d, s) = slides_nothing e g v empty_ refl in
      (
        tloe_seqnum_update_acked_seq (slid e g) g,
        rx_reply e 5 f (record {
          fits = omega arith;
          held = omega arith;
          seq_num_ack = refl;
          ack = refl;
          type = refl;
        }),
        record {
          handle_open = refl;
          next_tx_seq = refl;
          next_rx_seq = five;
          valid = w;
          slots = s;
          empty = d;
          ack_buffer = refl;
          tl_msg_buffer = refl;
          credits = refl;
        },
      )
