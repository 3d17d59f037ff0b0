-- ===== src/Frame/Delivery.antt =====
-- A TileLink message on its whole way: laid into a frame with its mask, sent as a packet, received
-- into another frame and taken out again.
use omnixtend_c.Base.{
  ℕ, ◌+◌, ◌-◌, ◌*◌, ◌≤◌, ◌≡◌, ◌∙◌, arith, some, List, ◌++◌, append_assoc, length, take, drop,
  length-append, length-drop, take_all, Outcome, ok, ◌>>=◌,
}
use omnixtend_c.Memory.{le_bytes}
use omnixtend_c.TlMsg.{TlMsg, tlmsg_get_total_size}
use omnixtend_c.Frame.{
  Frame, mask_offset, max_buffer_size, tloe_set_mask, tloe_get_mask, tloe_get_fsize, tloe_get_tlmsg,
  tloe_set_tlmsg, msg_bytes, tloe_frame_to_packet, packet_to_tloe_frame,
}
use omnixtend_c.Frame.Fields.{Fits}
use omnixtend_c.Frame.Packet.{length-packet_of, frame_to_packet_lem, packet_to_frame_lem, received}
use omnixtend_c.Frame.Carry.{
  IsWellSized, length-msg_bytes, masked, set_tlmsg_lem, set_mask_lem, length-masked, get_mask_lem,
  masked-append, get_tlmsg_clear, get_tlmsg_hit,
}

-- A frame that carries `m` as `prepare_normal_frame` and `send_request_normal_frame` make it, and
-- the mask and the first message that a receiver reads.
abbrev pub deliver : TlMsg → Frame → Frame → Outcome (ℕ × TlMsg)
deliver m f r = do
  laid ← tloe_set_tlmsg f m
  g ← tloe_set_mask laid 1 (tloe_get_fsize (some m))
  p ← tloe_frame_to_packet g (tloe_get_fsize (some m))
  h ← packet_to_tloe_frame p r
  mask ← tloe_get_mask h (length p)
  m' ← tloe_get_tlmsg h 0
  ok (mask, m')

module _ (m : TlMsg) (w : IsWellSized m) (f r : Frame) (n : ℕ) (v : Fits f.header)
    (size : tloe_get_fsize (some m) ≡ 8 + n * 8) (fits : tloe_get_fsize (some m) ≤ max_buffer_size)
    (room : length f.flits ≡ n * 8) (space : n * 8 ≤ length r.flits) where
  big : (6 ≤ n) × (tlmsg_get_total_size m ≤ n * 8)
  unfolding tloe_get_fsize
  big = ground (arith, size)

  tail : List ℕ
  tail = drop (tlmsg_get_total_size m) f.flits

  flits : List ℕ
  unfolding tail
  flits = masked (msg_bytes m ++ tail) 1 (mask_offset (tloe_get_fsize (some m)))

  off : mask_offset (tloe_get_fsize (some m)) ≡ n * 8 - 8
  off = omega (arith, size)

  length-laid : length (msg_bytes m ++ tail) ≡ n * 8
  unfolding tail
  length-laid = omega (
    arith,
    length-append (msg_bytes m) tail,
    length-msg_bytes m,
    w.sized,
    length-drop (tlmsg_get_total_size m) f.flits,
    room,
    big,
  )

  length-flits : length flits ≡ n * 8
  unfolding flits
  length-flits =
      length-masked (msg_bytes m ++ tail) 1 _ (omega (arith, off, length-laid, big)) ∙ length-laid

  sent : Frame
  unfolding flits
  sent = record f { flits = flits }

  arrived : Frame
  unfolding sent
  arrived = received sent n r

  -- The flits that arrive are those laid down, with the receiver's own behind them.
  flits-arrived :
      arrived.flits
      ≡ masked
          (msg_bytes m ++ (tail ++ drop (n * 8) r.flits))
          1
          (mask_offset (tloe_get_fsize (some m)))
  unfolding arrived
  flits-arrived = rw (
    take_all flits (n * 8) (omega (arith, length-flits)),
    masked-append (msg_bytes m ++ tail) (drop (n * 8) r.flits) 1
        (mask_offset (tloe_get_fsize (some m))) (omega (arith, off, length-laid, big)),
    append_assoc (msg_bytes m) tail (drop (n * 8) r.flits),
  )

  mask_room :
      mask_offset (tloe_get_fsize (some m)) + 8
      ≤ length (msg_bytes m ++ (tail ++ drop (n * 8) r.flits))
  mask_room = omega (
    arith,
    off,
    big,
    length-laid,
    length-append (msg_bytes m) tail,
    length-append (msg_bytes m) (tail ++ drop (n * 8) r.flits),
    length-append tail (drop (n * 8) r.flits),
  )

  deliver_lem : (m' : TlMsg) → tloe_get_tlmsg arrived 0 ≡ ok m' → deliver m f r ≡ ok (1, m')
  unfolding sent arrived flits
  deliver_lem m' e = rw (
    set_tlmsg_lem f m w (omega (arith, big, room)),
    set_mask_lem (record f { flits = msg_bytes m ++ tail }) 1 (tloe_get_fsize (some m))
        (omega (arith, size, big)) (omega (arith, off, length-laid, big)),
    frame_to_packet_lem sent (tloe_get_fsize (some m)) n size fits (omega (arith, length-flits)),
    packet_to_frame_lem sent r n v (omega (arith, length-flits)) space,
    length-packet_of sent n (omega (arith, length-flits)),
    ← size,
    get_mask_lem arrived (msg_bytes m ++ (tail ++ drop (n * 8) r.flits)) 1 (tloe_get_fsize (some m))
        (omega arith) (omega (arith, size, big)) mask_room flits-arrived,
    e,
  )

  -- A message of at most 40 bytes, whose memory is as long as its header says, is laid into a frame
  -- of whole flits and of the size that the code computes, at most 1500, with the mask 1, sent as a
  -- packet, received into a frame with room and taken out: the receiver reads the mask 1 and the
  -- message that was sent.
  pub deliver_small : tlmsg_get_total_size m ≤ 40 → deliver m f r ≡ ok (1, m)
  deliver_small h = deliver_lem m (
      get_tlmsg_clear m w (tail ++ drop (n * 8) r.flits) 1 (mask_offset (tloe_get_fsize (some m)))
        arrived flits-arrived (omega (arith, off, big)) mask_room)

  whole : 48 ≤ tlmsg_get_total_size m → tlmsg_get_total_size m ≡ n * 8
  unfolding tloe_get_fsize
  whole h = ground (arith, size)

  -- A message of at least 48 bytes, under the same conditions as a smaller one, arrives with the
  -- mask 1 but with the last eight bytes of its memory replaced by the mask.
  pub deliver_large :
      48 ≤ tlmsg_get_total_size m
      → deliver m f r
        ≡ ok
            (1, record m { payload = take (tlmsg_get_total_size m - 16) m.payload ++ le_bytes 8 1 })
  deliver_large h = deliver_lem _ (
      get_tlmsg_hit m w (tail ++ drop (n * 8) r.flits) 1 (mask_offset (tloe_get_fsize (some m)))
        arrived flits-arrived (omega (arith, off, whole h)) (omega (arith, off, big)))
