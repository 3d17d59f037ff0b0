-- ===== src/Link/Reply.antt =====
-- A frame that carries only an acknowledgement, from `send_ackonly_frame` to `RX`.
use omnixtend_c.Base.{
  ℕ, ◌+◌, ◌-◌, ◌%◌, ◌^◌, ◌≤◌, ◌≡◌, refl, ap, ◌∙◌, arith, true, some, [], ◌∷◌, ◌++◌, length, ok,
}
use omnixtend_c.Frame.{Frame, tloe_ack, type_ackonly, mask_offset, is_ackonly_frame, tloe_get_fsize}
use omnixtend_c.Frame.Fields.{Fits}
use omnixtend_c.Frame.Packet.{packet_of, packet_to_frame_lem, frame_to_packet_lem, received}
use omnixtend_c.Frame.Carry.{masked, set_mask_lem, length-masked}
use omnixtend_c.SeqNum.{tloe_seqnum_prev}
use omnixtend_c.SeqNum.Order.{prev_of_counter}
use omnixtend_c.Endpoint.{
  Endpoint, tloe_seqnum_set_next_and_acked_seq, tloe_seqnum_update_acked_seq,
}
use omnixtend_c.Retransmission.{slide_window}
use omnixtend_c.Receiver.{rx, serve_ack}
use omnixtend_c.Transmitter.{send_ackonly_frame}
use omnixtend_c.Transmitter.Append.{fabric_send_open}
use omnixtend_c.Link.DataFrame.{cleared}
use omnixtend_c.Link.Receive.{slid}

-- A frame that acknowledges all before the counter `v`.
pub record IsReply (v : ℕ) (f : Frame) : Type 0 where
  pub fits : Fits f.header
  pub held : 48 ≤ length f.flits
  pub seq_num_ack : f.header.seq_num_ack ≡ (v + 2 ^ 22 - 1) % 2 ^ 22
  pub ack : f.header.ack ≡ tloe_ack
  pub type : f.header.type ≡ type_ackonly

module _ (garbage : Frame) (b : Endpoint) (fits : Fits garbage.header)
    (held : 48 ≤ length garbage.flits) where
  reply : Frame
  unfolding tloe_seqnum_set_next_and_acked_seq
  reply =
      let f =
        tloe_seqnum_set_next_and_acked_seq
          (record garbage { header = record (garbage.header) { type = type_ackonly } }) b in
      record {
        header = record (f.header) { ack = tloe_ack; chan = 0; credit = 0 };
        flits = masked garbage.flits 0 (mask_offset 56);
      }

  length-reply : length reply.flits ≡ length garbage.flits
  unfolding reply
  length-reply = length-masked garbage.flits 0 (mask_offset 56) (omega arith)

  pub send_ackonly_lem :
      (v : ℕ)
      → b.handle_open ≡ true
      → b.next_rx_seq ≡ v % 2 ^ 22
      → (f : Frame) × IsReply v f
        × (send_ackonly_frame garbage b ≡ ok (record b { wire = b.wire ++ packet_of f 6 ∷ [] }))
  unfolding send_ackonly_frame tloe_get_fsize reply tloe_seqnum_set_next_and_acked_seq
  send_ackonly_lem v open_ en = (
    reply,
    record {
      fits = omega (arith, fits);
      held = omega (arith, length-reply);
      seq_num_ack = ap (λ t. tloe_seqnum_prev t % 2 ^ 22) en ∙ prev_of_counter v;
      ack = refl;
      type = refl;
    },
    rw
        (
          set_mask_lem
              (record (tloe_seqnum_set_next_and_acked_seq
                (record garbage { header = record (garbage.header) { type = type_ackonly } }) b) {
                  header =
                      record ((tloe_seqnum_set_next_and_acked_seq
                        (record garbage {
                          header = record (garbage.header) { type = type_ackonly };
                        })
                        b).header) { ack = tloe_ack };
                })
              0 56 (omega arith) (omega arith),
          frame_to_packet_lem reply 56 6 refl (omega arith) (omega (arith, length-reply)),
          fabric_send_open b (packet_of reply 6) open_,
        )
        refl,
  )

-- The sender's state behind the receipt of such a frame.
pub rx_reply :
    (a : Endpoint) (v : ℕ) (f : Frame)
    → IsReply v f
    → rx a (some (packet_of f 6))
      ≡ ok (tloe_seqnum_update_acked_seq (slid a (received f 6 cleared)) (received f 6 cleared))
unfolding rx serve_ack is_ackonly_frame slide_window
rx_reply a v f r =
    rw (packet_to_frame_lem f cleared 6 r.fits (omega (arith, r.held)) (omega arith), r.ack, r.type)
      refl
