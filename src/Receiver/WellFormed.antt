-- ===== src/Receiver/WellFormed.antt =====
-- `RX` keeps what holds of an endpoint.
use omnixtend_c.Base.{
  ℕ, zero, suc, ◌+◌, ◌/◌, ◌%◌, ◌^◌, ◌*◌, ◌<◌, arith, Bool, true, false, Option, none, some, List,
  length, ok, exits, ◌==◌, if◌then◌else◌, is_positive, Ensures, Ensures-bind, Ensures-skip,
  Ensures-if, Ensures-elim, ◌-◌, Ensures-require,
}
use omnixtend_c.Memory.{read_bytes, write_bytes}
use omnixtend_c.TlMsg.{TlMsg}
use omnixtend_c.Frame.{
  Frame, tloe_nak, max_size_flit, zero_frame, swap_words, word_header, packet_to_tloe_frame,
  is_ackonly_frame, is_zero_tl_frame, tloe_get_mask, tloe_get_tlmsg,
}
use omnixtend_c.SeqNum.{tloe_seqnum_cmp, tloe_seqnum_next, tloe_seqnum_prev}
use omnixtend_c.SeqNum.Order.{next_lem}
use omnixtend_c.FlowControl.{fc_credit_inc}
use omnixtend_c.CircularQueue.{CircularQueue, enqueue}
use omnixtend_c.CircularQueue.Contents.{IsValid}
use omnixtend_c.Endpoint.{Endpoint, tloe_seqnum_update_next_rx_seq, tloe_seqnum_update_acked_seq}
use omnixtend_c.Endpoint.WellFormed.{
  IsWellFormed, with_acks, with_taken, with_next_rx, with_acked, enqueue-IsValid,
}
use omnixtend_c.Retransmission.{retransmit, slide_window}
use omnixtend_c.Retransmission.WellFormed.{retransmit-IsWellFormed, slide_window-IsWellFormed}
use omnixtend_c.Receiver.{
  RxReqType, req_normal, req_duplicate, req_oos, rx, serve_ack, serve_request, serve_normal_request,
  serve_zero_tlmsg_request, enqueue_ack, serve_duplicate_request, serve_oos_request, extract_from,
}

-- The acknowledgement in a frame that came as a packet is a sequence number.
abbrev pub HasAck : Frame → Type 0
HasAck f = f.header.seq_num_ack < 2 ^ 22

pub packet-HasAck : (p : List ℕ) (r : Frame) → Ensures HasAck (packet_to_tloe_frame p r)
unfolding packet_to_tloe_frame word_header
packet-HasAck p r =
    let n = length p / 8 - 1 in
    Ensures-skip HasAck (read_bytes p 0 8) _ (λ word.
      Ensures-skip HasAck (read_bytes p 8 (n * 8)) _ (λ bytes.
        Ensures-skip HasAck (write_bytes r.flits 0 (swap_words n bytes)) _ (λ flits. omega arith)))

pub next_rx-IsWellFormed :
    (e : Endpoint) (f : Frame) → IsWellFormed e → IsWellFormed (tloe_seqnum_update_next_rx_seq e f)
unfolding tloe_seqnum_update_next_rx_seq
next_rx-IsWellFormed e f w = with_next_rx w (omega (arith, next_lem f.header.seq_num))

pub acked-IsWellFormed :
    (e : Endpoint) (f : Frame)
    → HasAck f
    → IsWellFormed e
    → IsWellFormed (tloe_seqnum_update_acked_seq e f)
unfolding tloe_seqnum_update_acked_seq
acked-IsWellFormed e f h w =
    with_acked w (go (is_positive (tloe_seqnum_cmp f.header.seq_num_ack e.acked_seq)))
  where
    go : (b : Bool) → (if b then f.header.seq_num_ack else e.acked_seq) < 2 ^ 22
    go true = h
    go false = w.acked_small

serve_ack-IsWellFormed :
    (e : Endpoint) (f : Frame) → IsWellFormed e → Ensures IsWellFormed (serve_ack e f)
unfolding serve_ack
serve_ack-IsWellFormed e f w =
    let v = slide_window-IsWellFormed e f w in
    Ensures-bind IsWellFormed IsWellFormed
      (if f.header.ack == tloe_nak
        then retransmit (slide_window e f) (tloe_seqnum_next f.header.seq_num_ack)
        else ok (slide_window e f))
      _
      (Ensures-if IsWellFormed (f.header.ack == tloe_nak) _ _
        (retransmit-IsWellFormed (slide_window e f) _ v) v)
      (λ e' w'. w')

extract-IsValid :
    (fuel mask i : ℕ) (f : Frame) (q : CircularQueue TlMsg)
    → IsValid q
    → Ensures IsValid (extract_from fuel mask i f q)
unfolding extract_from
extract-IsValid zero mask i f q v = v
extract-IsValid (suc fuel) mask i f q v = Ensures-elim IsValid (mask == 0) _ _ v (
    Ensures-elim IsValid (mask % 2 == 1) _ _
      (Ensures-skip IsValid (tloe_get_tlmsg f i) _ (λ m.
        Ensures-require IsValid (enqueue q m).0 exits _
          (extract-IsValid fuel (mask / 2) (i + 1) f (enqueue q m).1 (enqueue-IsValid q v m))))
      (extract-IsValid fuel (mask / 2) (i + 1) f q v))

-- The requests of each kind.
module _ (e : Endpoint) (f : Frame) (w : IsWellFormed e) where
  module _ (h : HasAck f) where
    numbered : IsWellFormed (tloe_seqnum_update_acked_seq (tloe_seqnum_update_next_rx_seq e f) f)
    numbered =
        acked-IsWellFormed (tloe_seqnum_update_next_rx_seq e f) f h (next_rx-IsWellFormed e f w)

    normal-IsWellFormed : (size : ℕ) → Ensures IsWellFormed (serve_normal_request e f size)
    unfolding serve_normal_request
    normal-IsWellFormed size =
        let e' = tloe_seqnum_update_acked_seq (tloe_seqnum_update_next_rx_seq e f) f in
        Ensures-skip IsWellFormed (tloe_get_mask f size) _ (λ mask.
          Ensures-bind IsValid IsWellFormed (extract_from 64 mask 0 f e'.tl_msg_buffer) _
            (extract-IsValid 64 mask 0 f e'.tl_msg_buffer (numbered.taken_valid))
            (λ q v.
              Ensures-skip IsWellFormed (fc_credit_inc e'.fc f.header) _
                (λ r. with_taken numbered v)))

    zero-IsWellFormed : Ensures IsWellFormed (serve_zero_tlmsg_request e f)
    unfolding serve_zero_tlmsg_request
    zero-IsWellFormed =
        Ensures-skip IsWellFormed
          (fc_credit_inc (tloe_seqnum_update_acked_seq (tloe_seqnum_update_next_rx_seq e f) f).fc
            f.header)
          _ (λ r. numbered)

  enqueue_ack-IsWellFormed : (g : Frame) → Ensures IsWellFormed (enqueue_ack e g)
  unfolding enqueue_ack
  enqueue_ack-IsWellFormed g =
      Ensures-require IsWellFormed (enqueue e.ack_buffer g).0 exits _
        (with_acks w (enqueue-IsValid e.ack_buffer (w.acks_valid) g))

  duplicate-IsWellFormed : (size : ℕ) → Ensures IsWellFormed (serve_duplicate_request e f size)
  unfolding serve_duplicate_request
  duplicate-IsWellFormed size = Ensures-skip IsWellFormed _ _ (λ g.
      Ensures-bind IsWellFormed IsWellFormed (enqueue_ack e g) _ (enqueue_ack-IsWellFormed g)
        (λ e' w'. w'))

  oos-IsWellFormed : (size n : ℕ) → Ensures IsWellFormed (serve_oos_request e f size n)
  unfolding serve_oos_request
  oos-IsWellFormed size n = Ensures-skip IsWellFormed _ _ (λ g.
      Ensures-bind IsWellFormed IsWellFormed (enqueue_ack e _) _ (enqueue_ack-IsWellFormed _)
        (λ e' w'. w'))

request-IsWellFormed :
    (kind : RxReqType) (e : Endpoint) (f : Frame) (size : ℕ)
    → HasAck f
    → IsWellFormed e
    → Ensures IsWellFormed (serve_request kind e f size)
unfolding serve_request
request-IsWellFormed req_normal e f size h w =
    Ensures-skip IsWellFormed (is_zero_tl_frame f size) _ (λ zero_tl.
      Ensures-if IsWellFormed zero_tl _ _ (zero-IsWellFormed e f w h)
        (normal-IsWellFormed e f w h size))
request-IsWellFormed req_duplicate e f size h w = duplicate-IsWellFormed e f w size
request-IsWellFormed req_oos e f size h w =
    oos-IsWellFormed e f w size (tloe_seqnum_prev e.next_rx_seq)

pub rx-IsWellFormed :
    (e : Endpoint) (packet : Option (List ℕ)) → IsWellFormed e → Ensures IsWellFormed (rx e packet)
unfolding rx
rx-IsWellFormed e none w = w
rx-IsWellFormed e (some packet) w =
    Ensures-bind HasAck IsWellFormed (packet_to_tloe_frame packet (zero_frame (max_size_flit * 8)))
      _ (packet-HasAck packet _)
      (λ f h.
        Ensures-bind IsWellFormed IsWellFormed (serve_ack e f) _ (serve_ack-IsWellFormed e f w)
          (λ e' w'.
            Ensures-if IsWellFormed (is_ackonly_frame f) _ _
              (acked-IsWellFormed (record e' { ackonly_frame_sent = false }) f h w')
              (request-IsWellFormed _ (record e' { ackonly_frame_sent = false }) f (length packet) h
                w')))
