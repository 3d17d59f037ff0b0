-- ===== src/Connection/Frames.antt =====
-- tloe_connection.c: the frames that open a connection, from `send_frame` to the peer.
use omnixtend_c.Base.{
  ℕ, zero, suc, ◌+◌, ◌-◌, ◌*◌, ◌≡◌, refl, sym, ap, ◌∙◌, arith, true, List, [], ◌∷◌, ◌++◌,
  append_assoc, append-nil, length, length-replicate, ok, ◌>>=◌, if◌then◌else◌, ◌==◌,
}
use omnixtend_c.TlMsg.{channel_a}
use omnixtend_c.Frame.{
  Frame, max_size_flit, zero_frame, mask_offset, type_normal, packet_to_tloe_frame,
}
use omnixtend_c.Frame.Fields.{Fits}
use omnixtend_c.Frame.Packet.{packet_of, packet_to_frame_lem, frame_to_packet_lem, received}
use omnixtend_c.Frame.Carry.{masked, set_mask_lem, length-masked}
use omnixtend_c.SeqNum.{tloe_seqnum_prev}
use omnixtend_c.FlowControl.{credit_default}
use omnixtend_c.Endpoint.{Endpoint}
use omnixtend_c.Transmitter.Append.{fabric_send_open}
use omnixtend_c.Connection.{conn_frame, send_frame, serve_from}

-- The frame with its empty mask.
abbrev pub sent_frame : ℕ → ℕ → ℕ → ℕ → ℕ → Frame
sent_frame type seq_num seq_num_ack chan credit =
    let f = conn_frame type seq_num seq_num_ack chan credit in
    record f { flits = masked f.flits 0 (mask_offset 56) }

length-conn_frame :
    (type seq_num seq_num_ack chan credit : ℕ)
    → length (conn_frame type seq_num seq_num_ack chan credit).flits ≡ 520
unfolding conn_frame
length-conn_frame type seq_num seq_num_ack chan credit = length-replicate {A = ℕ} 520 0

conn_frame-Fits :
    (type seq_num seq_num_ack chan credit : ℕ)
    → Fits (conn_frame type seq_num seq_num_ack chan credit).header
unfolding conn_frame
conn_frame-Fits type seq_num seq_num_ack chan credit = omega arith

pub send_frame_lem :
    (e : Endpoint) (type seq_num seq_num_ack chan credit : ℕ)
    → e.handle_open ≡ true
    → send_frame e type seq_num seq_num_ack chan credit
      ≡ ok (record e {
        wire = e.wire ++ packet_of (sent_frame type seq_num seq_num_ack chan credit) 6 ∷ [];
      })
unfolding send_frame
send_frame_lem e type seq_num seq_num_ack chan credit open_ =
    let f = conn_frame type seq_num seq_num_ack chan credit in
    let n = length-conn_frame type seq_num seq_num_ack chan credit in
    let g = sent_frame type seq_num seq_num_ack chan credit in
    rw
      (
        set_mask_lem f 0 56 (omega arith) (omega (arith, n)),
        frame_to_packet_lem g 56 6 refl (omega arith)
            (omega (arith, n, length-masked f.flits 0 (mask_offset 56) (omega (arith, n)))),
        fabric_send_open e (packet_of g 6) open_,
      )
      refl

pub heard :
    (type seq_num seq_num_ack chan credit : ℕ)
    → packet_to_tloe_frame
        (packet_of (sent_frame type seq_num seq_num_ack chan credit) 6)
        (zero_frame (max_size_flit * 8))
      ≡ ok (
          received
            (sent_frame type seq_num seq_num_ack chan credit)
            6
            (zero_frame (max_size_flit * 8)))
heard type seq_num seq_num_ack chan credit =
    let f = conn_frame type seq_num seq_num_ack chan credit in
    let n = length-conn_frame type seq_num seq_num_ack chan credit in
    packet_to_frame_lem (sent_frame type seq_num seq_num_ack chan credit) (zero_frame 520) 6
      (conn_frame-Fits type seq_num seq_num_ack chan credit)
      (omega (arith, n, length-masked f.flits 0 (mask_offset 56) (omega (arith, n)))) (omega arith)

-- The frames of `serve_from`.
abbrev pub conn_packets : ℕ → ℕ → ℕ → ℕ → List (List ℕ)
conn_packets opens zero i ack = []
conn_packets opens (suc n) i ack =
    packet_of
      (sent_frame (if i == channel_a then opens else type_normal) (i - 1) ack i credit_default) 6
    ∷ conn_packets opens n (i + 1) ack

abbrev pub last_seq : ℕ → ℕ → ℕ → ℕ
last_seq zero i before = before
last_seq (suc n) i before = last_seq n (i + 1) i

pub serve_from_lem :
    (opens n i : ℕ) (e : Endpoint)
    → e.handle_open ≡ true
    → serve_from opens n i e
      ≡ ok (record e {
        wire = e.wire ++ conn_packets opens n i (tloe_seqnum_prev e.next_rx_seq);
        next_tx_seq = last_seq n i e.next_tx_seq;
      })
unfolding serve_from
serve_from_lem opens zero i e open_ = ap (λ w. ok (record e { wire = w })) (sym (append-nil e.wire))
serve_from_lem opens (suc n) i e open_ =
    let type = if i == channel_a then opens else type_normal in
    let ack = tloe_seqnum_prev e.next_rx_seq in
    let p = packet_of (sent_frame type (i - 1) ack i credit_default) 6 in
    ap (λ r. r >>= λ e'. serve_from opens n (i + 1) (record e' { next_tx_seq = i }))
      (send_frame_lem e type (i - 1) ack i credit_default open_)
    ∙ serve_from_lem opens n (i + 1) (record e { wire = e.wire ++ p ∷ []; next_tx_seq = i }) open_
    ∙ ap (λ w. ok (record e { wire = w; next_tx_seq = last_seq n (i + 1) i }))
        (append_assoc e.wire (p ∷ []) (conn_packets opens n (i + 1) ack))
