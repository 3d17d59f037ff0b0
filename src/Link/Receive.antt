-- ===== src/Link/Receive.antt =====
-- `RX` on the packet of a frame with one short message.
use omnixtend_c.Base.{
  ℕ, ◌+◌, ◌-◌, ◌*◌, ◌%◌, ◌^◌, ◌≤◌, ◌<◌, ◌≡◌, ◌≢◌, refl, ap, ◌∙◌, arith, false, some, [], ◌∷◌, ◌++◌,
  length, length-append, length-take, take, drop, ok,
}
use omnixtend_c.TlMsg.{TlMsg}
use omnixtend_c.Frame.{Frame, mask_offset, is_ackonly_frame}
use omnixtend_c.Frame.Packet.{packet_of, length-packet_of, received}
use omnixtend_c.CircularQueue.Contents.{IsValid, contents}
use omnixtend_c.SeqNum.{half_max_seq_num}
use omnixtend_c.Endpoint.{Endpoint}
use omnixtend_c.Retransmission.{slide_window}
use omnixtend_c.Receiver.{rx, serve_ack, serve_request, tloe_rx_get_req_type}
use omnixtend_c.Receiver.Serve.{serve_in_order, serve_duplicate, serve_oos}
use omnixtend_c.Link.DataFrame.{IsData, cleared, data_arrives}

-- The endpoint behind `serve_ack`, for a positive acknowledgement.
abbrev pub slid : Endpoint → Frame → Endpoint
slid b g = record (slide_window b g) { ack_cnt = b.ack_cnt + 1; ackonly_frame_sent = false }

-- What the receiver has taken stays.
pub record KeepsTaken (b b' : Endpoint) : Type 0 where
  pub tl_msg_buffer : b'.tl_msg_buffer ≡ b.tl_msg_buffer
  pub next_rx_seq : b'.next_rx_seq ≡ b.next_rx_seq
  pub acks : IsValid b'.ack_buffer
  pub handle_open : b'.handle_open ≡ b.handle_open

module _ (b : Endpoint) (k c : ℕ) (m : TlMsg) (f : Frame) (d : IsData k c m f) where
  g : Frame
  g = received f k cleared

  whole : length (packet_of f k) ≡ 8 + k * 8
  whole = length-packet_of f k d.held

  rx_data :
      rx b (some (packet_of f k))
      ≡ serve_request (tloe_rx_get_req_type (slid b g) g) (slid b g) g (8 + k * 8)
  unfolding rx serve_ack is_ackonly_frame slide_window g
  rx_data = rw (data_arrives k c m f d, whole, d.ack, d.type) refl

  inside : mask_offset (8 + k * 8) + 8 ≤ length g.flits
  unfolding g
  inside = omega (
    arith,
    d.large,
    d.held,
    length-append (take (k * 8) f.flits) (drop (k * 8) cleared.flits),
    length-take (k * 8) f.flits,
  )

  module _ (va : IsValid b.ack_buffer) where
    pub rx_awaited :
        IsValid b.tl_msg_buffer
        → length (contents b.tl_msg_buffer) ≢ b.tl_msg_buffer.size - 1
        → b.next_rx_seq ≡ c % 2 ^ 22
        → (b' : Endpoint) × (rx b (some (packet_of f k)) ≡ ok b')
          × (contents b'.tl_msg_buffer ≡ contents b.tl_msg_buffer ++ m ∷ [])
          × IsValid b'.tl_msg_buffer
          × (b'.tl_msg_buffer.size ≡ b.tl_msg_buffer.size)
          × (b'.next_rx_seq ≡ (c + 1) % 2 ^ 22)
          × IsValid b'.ack_buffer
          × (b'.handle_open ≡ b.handle_open)
    unfolding slide_window g
    rx_awaited v room en =
        let (b', run, now, w, size, next, acks, same) =
          serve_in_order (slid b g) g (8 + k * 8) c m v room en d.seq_num d.chan d.mask d.message in
        (b', rx_data ∙ run, now, w, size, next, rw acks va, same.handle_open)

    module _ (space : length (contents b.ack_buffer) ≢ b.ack_buffer.size - 1) (j : ℕ)
        (ahead : 0 < j) (near : j < half_max_seq_num) where
      pub rx_old :
          b.next_rx_seq ≡ (c + j) % 2 ^ 22
          → (b' : Endpoint) × (rx b (some (packet_of f k)) ≡ ok b') × KeepsTaken b b'
      unfolding slide_window g
      rx_old en =
          let (b', run, now, w, same) =
            serve_duplicate (slid b g) g (8 + k * 8) c j va space (omega (arith, d.large)) inside
              ahead near en d.seq_num in
          (
            b',
            rx_data ∙ run,
            record {
              tl_msg_buffer = same.tl_msg_buffer;
              next_rx_seq = same.next_rx_seq;
              acks = w;
              handle_open = same.sending.handle_open;
            },
          )

      pub rx_early :
          (n : ℕ)
          → c ≡ n + j
          → b.next_rx_seq ≡ n % 2 ^ 22
          → (b' : Endpoint) × (rx b (some (packet_of f k)) ≡ ok b') × KeepsTaken b b'
      unfolding slide_window g
      rx_early n e en =
          let (b', run, now, w, same) =
            serve_oos (slid b g) g (8 + k * 8) n j va space (omega (arith, d.large)) inside ahead
              near en (d.seq_num ∙ ap (λ t. t % 2 ^ 22) e) in
          (
            b',
            rx_data ∙ run,
            record {
              tl_msg_buffer = same.tl_msg_buffer;
              next_rx_seq = same.next_rx_seq;
              acks = w;
              handle_open = same.sending.handle_open;
            },
          )
