-- ===== src/Tests/Messages.antt =====
-- A read, and a write of 32 bytes, on their way through a frame and through the memory.
use omnixtend_c.Base.{ℕ, ◌≡◌, refl, arith, inl, List, [], ◌∷◌, ◌++◌, length, take, ok}
use omnixtend_c.Memory.{le_bytes, le_value}
use omnixtend_c.TlMsg.{
  tlmsg_get_header_size, tlmsg_get_data_size, tlmsg_get_total_size, convert_size_to_flits,
  tlmsg_get_flits_cnt,
}
use omnixtend_c.Frame.{
  Frame, zero_frame, tloe_get_fsize, tloe_frame_to_packet, packet_to_tloe_frame,
}
use omnixtend_c.Frame.Fields.{Fits}
use omnixtend_c.Frame.Packet.{received, packet_round_trip}
use omnixtend_c.Frame.Carry.{IsWellSized}
use omnixtend_c.Frame.Delivery.{deliver, deliver_small, deliver_large}
use omnixtend_c.Handler.{Memory, respond, response_header, tl_handler_table}
use omnixtend_c.Handler.Storage.{write_then_read}
use omnixtend_c.Tests.Data.{put, get, large_put, frame_header, get_frame, endpoint}

flits_of_put : tlmsg_get_flits_cnt put ≡ 3
unfolding tlmsg_get_flits_cnt tlmsg_get_header_size tlmsg_get_data_size convert_size_to_flits
flits_of_put = refl

Fits-header : Fits (frame_header 4194303 10)
Fits-header = omega arith

packet_round_trip_example :
    (p : List ℕ) × (tloe_frame_to_packet (get_frame 4194303 10) 56 ≡ ok p)
    × (length p ≡ 56)
    × (packet_to_tloe_frame p (zero_frame 520)
        ≡ ok (received (get_frame 4194303 10) 6 (zero_frame 520)))
packet_round_trip_example =
    packet_round_trip (get_frame 4194303 10) (zero_frame 520) 56 6 Fits-header refl (omega arith)
      (omega arith) (omega arith)

get-IsWellSized : IsWellSized get
unfolding tlmsg_get_total_size tlmsg_get_header_size tlmsg_get_data_size
get-IsWellSized = record { fits = omega arith; known = omega arith; sized = refl }

large_put-IsWellSized : IsWellSized large_put
unfolding tlmsg_get_total_size tlmsg_get_header_size tlmsg_get_data_size
large_put-IsWellSized = record { fits = omega arith; known = omega arith; sized = refl }

abbrev sending : Frame
sending = record (zero_frame 48) { header = frame_header 4194303 10 }

deliver_small_example : deliver get sending (zero_frame 520) ≡ ok (1, get)
unfolding tloe_get_fsize tlmsg_get_total_size tlmsg_get_header_size tlmsg_get_data_size
deliver_small_example =
    deliver_small get get-IsWellSized sending (zero_frame 520) 6 Fits-header refl (omega arith) refl
      (omega arith) (omega arith)

-- The last of the 32 bytes of data are lost.
deliver_large_example :
    deliver large_put sending (zero_frame 520)
    ≡ ok (1, record large_put { payload = take 32 large_put.payload ++ le_bytes 8 1 })
unfolding tloe_get_fsize tlmsg_get_total_size tlmsg_get_header_size tlmsg_get_data_size
deliver_large_example =
    deliver_large large_put large_put-IsWellSized sending (zero_frame 520) 6 Fits-header refl
      (omega arith) refl (omega arith) (omega arith)

abbrev clear_memory : Memory
clear_memory i = 0

write_then_read_example :
    (mem : Memory) × (tl_handler_table 1 0 endpoint clear_memory put
      ≡ ok (respond endpoint (record { header = response_header 0 0 3; payload = [] }), mem))
    × (tl_handler_table 1 4 endpoint mem get
        ≡ ok (
          respond endpoint (record {
            header = response_header 1 3 3;
            payload = 1 ∷ 2 ∷ 3 ∷ 4 ∷ 5 ∷ 6 ∷ 7 ∷ 8 ∷ [];
          }),
          mem,
        ))
    × (mem 63 ≡ 0)
unfolding le_value
write_then_read_example =
    write_then_read endpoint endpoint clear_memory put get 63 refl refl refl (omega arith) refl refl
      refl (omega arith) refl (inl (omega arith))
