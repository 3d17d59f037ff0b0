-- ===== src/Link/DataFrame.antt =====
-- A frame that carries one short message, from the sender's buffer to the receiver's queue.
use omnixtend_c.Base.{
  ℕ, ◌+◌, ◌-◌, ◌*◌, ◌%◌, ◌^◌, ◌≤◌, ◌<◌, ◌≡◌, refl, sym, ap, ap₂, ◌∙◌, arith, some, List, ◌++◌,
  append_assoc, length, length-append, length-take, take, drop, take_all, take-append, ok,
}
use omnixtend_c.TlMsg.{TlMsg, channel_num, tlmsg_get_total_size}
use omnixtend_c.Frame.{
  Frame, tloe_ack, type_normal, max_size_flit, mask_offset, zero_frame, msg_bytes, tloe_get_mask,
  tloe_get_tlmsg, packet_to_tloe_frame,
}
use omnixtend_c.Frame.Fields.{Fits}
use omnixtend_c.Frame.Packet.{packet_of, packet_to_frame_lem, received}
use omnixtend_c.Frame.Carry.{IsWellSized, masked, masked-append, get_mask_lem, get_tlmsg_clear}
use omnixtend_c.Endpoint.{Endpoint, tloe_seqnum_set_seq_num_ack}
use omnixtend_c.Retransmission.Resend.{IsSendable}
use omnixtend_c.Transmitter.Append.{element_of}
use omnixtend_c.Transmitter.Send.{IsSent}

-- the frame that `RX` clears for a packet
abbrev pub cleared : Frame
cleared = zero_frame (max_size_flit * 8)

-- A frame of `k` flits with the sequence number of the counter `c`: whatever the header, a receiver
-- reads the message `m` in the flits.
pub record IsData (k c : ℕ) (m : TlMsg) (f : Frame) : Type 0 where
  pub large : 6 ≤ k
  pub small : k ≤ max_size_flit
  pub held : k * 8 ≤ length f.flits
  pub seq_num : f.header.seq_num ≡ c % 2 ^ 22
  pub ack : f.header.ack ≡ tloe_ack
  pub type : f.header.type ≡ type_normal
  pub chan : f.header.chan < channel_num
  pub fits : Fits f.header
  pub mask : tloe_get_mask (received f k cleared) (8 + k * 8) ≡ ok 1
  pub message : tloe_get_tlmsg (received f k cleared) 0 ≡ ok m

module _ (e : Endpoint) (m : TlMsg) (k : ℕ) (f : Frame) (w : IsWellSized m)
    (short : tlmsg_get_total_size m ≤ 40) (s : IsSent e (some m) k f) where
  tail : List ℕ
  tail = s.laid.0

  laid : List ℕ
  unfolding tail
  laid = msg_bytes m ++ tail

  arrived :
      (received f k cleared).flits
      ≡ masked (msg_bytes m ++ (tail ++ drop (k * 8) cleared.flits)) 1 (mask_offset (8 + k * 8))
  unfolding tail laid
  arrived = rw (
    take_all f.flits (k * 8) (omega (arith, s.room)),
    s.laid.2,
    masked-append laid (drop (k * 8) cleared.flits) 1 (mask_offset (8 + k * 8))
        (omega (arith, s.laid.1, s.large)),
    append_assoc (msg_bytes m) tail (drop (k * 8) cleared.flits),
  )

  space : k * 8 ≤ length (msg_bytes m ++ (tail ++ drop (k * 8) cleared.flits))
  unfolding tail
  space = omega (
    arith,
    s.laid.1,
    length-append (msg_bytes m) tail,
    length-append (msg_bytes m) (tail ++ drop (k * 8) cleared.flits),
    length-append tail (drop (k * 8) cleared.flits),
  )

  pub sent-IsData : (c : ℕ) → k ≤ max_size_flit → e.next_tx_seq ≡ c % 2 ^ 22 → IsData k c m f
  sent-IsData c small en = record {
    large = s.large;
    small = small;
    held = omega (arith, s.room);
    seq_num = s.seq_num ∙ omega (arith, en);
    ack = s.ack;
    type = s.type;
    chan = s.chan;
    fits = s.fits;
    mask =
        get_mask_lem (received f k cleared) _ 1 (8 + k * 8) (omega arith) (omega (arith, s.large))
          (omega (arith, space, s.large)) arrived;
    message =
        get_tlmsg_clear m w (tail ++ drop (k * 8) cleared.flits) 1 (mask_offset (8 + k * 8))
          (received f k cleared) arrived (omega (arith, s.large)) (omega (arith, space, s.large));
  }

-- Frames with the same header, of which the first `k` flits agree.
same-IsData :
    (k c : ℕ) (m : TlMsg) (f g : Frame)
    → g.header ≡ f.header
    → take (k * 8) g.flits ≡ take (k * 8) f.flits
    → k * 8 ≤ length g.flits
    → IsData k c m f
    → IsData k c m g
same-IsData k c m f g eh ef room d = record {
  large = d.large;
  small = d.small;
  held = room;
  seq_num = ap (λ h. h.seq_num) eh ∙ d.seq_num;
  ack = ap (λ h. h.ack) eh ∙ d.ack;
  type = ap (λ h. h.type) eh ∙ d.type;
  chan = rw (ap (λ h. h.chan) eh) d.chan;
  fits = rw eh d.fits;
  mask = ap (λ x. tloe_get_mask x (8 + k * 8)) same ∙ d.mask;
  message = ap (λ x. tloe_get_tlmsg x 0) same ∙ d.message;
}
  where
    same : received g k cleared ≡ received f k cleared
    same = ap₂ (λ h l. record { header = h; flits = l ++ drop (k * 8) cleared.flits }) eh ef

-- The copy in the retransmission buffer carries the same.
pub element-IsData :
    (e : Endpoint) (k c : ℕ) (m : TlMsg) (f : Frame)
    → IsData k c m f
    → IsData k c m (element_of e f (8 + k * 8)).tloe_frame
element-IsData e k c m f d =
    same-IsData k c m f (element_of e f (8 + k * 8)).tloe_frame refl front (omega (arith, size)) d
  where
    eight : 8 + k * 8 - 8 ≡ k * 8
    eight = omega arith

    whole : length (take (k * 8) f.flits) ≡ k * 8
    whole = omega (arith, length-take (k * 8) f.flits, d.held)

    front : take (k * 8) (element_of e f (8 + k * 8)).tloe_frame.flits ≡ take (k * 8) f.flits
    front = rw eight (take-append (take (k * 8) f.flits) _ (k * 8) (sym whole))

    size : k * 8 ≤ length (element_of e f (8 + k * 8)).tloe_frame.flits
    size =
        rw eight
          (omega (arith, whole, length-append (take (k * 8) f.flits) (drop (k * 8) cleared.flits)))

-- So does a frame with another acknowledgement.
pub reacked-IsData :
    (e : Endpoint) (k c : ℕ) (m : TlMsg) (f : Frame)
    → IsData k c m f
    → IsData k c m (tloe_seqnum_set_seq_num_ack f e)
unfolding tloe_seqnum_set_seq_num_ack tloe_get_mask tloe_get_tlmsg
reacked-IsData e k c m f d = record {
  large = d.large;
  small = d.small;
  held = d.held;
  seq_num = d.seq_num;
  ack = d.ack;
  type = d.type;
  chan = d.chan;
  fits = omega (arith, d.fits);
  mask = d.mask;
  message = d.message;
}

-- Such a frame can be sent again, and the packet is that of the frame with the new acknowledgement.
pub data-IsSendable : (k c : ℕ) (m : TlMsg) (f : Frame) → IsData k c m f → IsSendable (8 + k * 8) f
data-IsSendable k c m f d = record {
  whole = omega arith;
  small = omega (arith, d.small);
  held = omega (arith, d.held);
}

-- What a receiver makes of the packet.
pub data_arrives :
    (k c : ℕ) (m : TlMsg) (f : Frame)
    → IsData k c m f
    → packet_to_tloe_frame (packet_of f k) cleared ≡ ok (received f k cleared)
data_arrives k c m f d = packet_to_frame_lem f cleared k d.fits d.held (omega (arith, d.small))
