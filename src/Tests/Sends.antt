-- ===== src/Tests/Sends.antt =====
-- An endpoint with room in its window, a negative acknowledgement in its queue and credits to give.
use omnixtend_c.Base.{◌≡◌, refl, arith, inr, Option, some, none, [], ◌∷◌, ◌++◌, ok}
use omnixtend_c.TlMsg.{tlmsg_get_total_size, tlmsg_get_header_size, tlmsg_get_data_size}
use omnixtend_c.Frame.{Frame, tloe_ack, tloe_nak, tloe_get_fsize}
use omnixtend_c.Frame.Carry.{IsWellSized}
use omnixtend_c.Frame.Packet.{packet_of}
use omnixtend_c.CircularQueue.{CircularQueue}
use omnixtend_c.CircularQueue.Contents.{IsValid, contents}
use omnixtend_c.Endpoint.{Endpoint}
use omnixtend_c.Transmitter.{tx_frame}
use omnixtend_c.Transmitter.Append.{element_of}
use omnixtend_c.Transmitter.Send.{tx_frame_lem}
use omnixtend_c.Transmitter.Requested.{IsMessage}
use omnixtend_c.Transmitter.Numbered.{IsNumbered}
use omnixtend_c.Transmitter.Turn.{Turn, tx_lem}
use omnixtend_c.Tests.Resends.{element-IsSendable}
use omnixtend_c.Transmitter.{tx}
use omnixtend_c.TlMsg.{TlMsg}
use omnixtend_c.Endpoint.WellFormed.{IsWellFormed}
use omnixtend_c.Tests.Data.{get, get_frame, three_sent, endpoint}

abbrev nak_frame : Frame
nak_frame = record (get_frame 12 9) { header = record ((get_frame 12 9).header) { ack = tloe_nak } }

abbrev one_nak : CircularQueue Frame
one_nak = record { front = 1; rear = 2; size = 3; slots = none ∷ some nak_frame ∷ none ∷ [] }

abbrev sender : Endpoint
sender = record endpoint { ack_buffer = one_nak }

three_sent-IsValid : IsValid three_sent
three_sent-IsValid = record {
  front_in = omega arith;
  rear_in = omega arith;
  storage = refl;
  filled = refl;
}

one_nak-IsValid : IsValid one_nak
one_nak-IsValid = record {
  front_in = omega arith;
  rear_in = omega arith;
  storage = refl;
  filled = refl;
}

pub get-IsWellSized : IsWellSized get
unfolding tlmsg_get_total_size tlmsg_get_header_size tlmsg_get_data_size
get-IsWellSized = record { fits = omega arith; known = omega arith; sized = refl }

tx_frame_lem_example :
    (e : Endpoint) × (f : Frame) × (tx_frame sender (some get) 2 ≡ ok e)
    × (f.header.seq_num ≡ 2)
    × (f.header.ack ≡ tloe_ack)
    × (e.wire ≡ packet_of f 6 ∷ [])
    × (contents e.retransmit_buffer ≡ contents three_sent ++ element_of sender f 56 ∷ [])
    × IsValid e.retransmit_buffer
    × (e.next_tx_seq ≡ 3)
    × (contents e.ack_buffer ≡ [])
    × (e.fc.credits ≡ endpoint.fc.credits)
unfolding tloe_get_fsize tlmsg_get_total_size tlmsg_get_header_size tlmsg_get_data_size
tx_frame_lem_example =
    tx_frame_lem sender (some get) 2 6 2 refl three_sent-IsValid (omega arith) one_nak-IsValid
      get-IsWellSized refl (omega arith) (omega arith) (inr (omega arith)) (omega arith) refl

empty-IsValid : IsValid (endpoint.message_buffer)
empty-IsValid = record {
  front_in = omega arith;
  rear_in = omega arith;
  storage = refl;
  filled = refl;
}

sender-IsWellFormed : IsWellFormed sender
sender-IsWellFormed = record {
  window_valid = three_sent-IsValid;
  window_slots = refl;
  messages_valid = empty-IsValid;
  acks_valid = one_nak-IsValid;
  taken_valid = empty-IsValid;
  responses_valid = empty-IsValid;
  next_tx_small = omega arith;
  next_rx_small = omega arith;
  acked_small = omega arith;
}

get-IsMessage : IsMessage sender get
unfolding tloe_get_fsize tlmsg_get_total_size tlmsg_get_header_size tlmsg_get_data_size
get-IsMessage = record {
  sized = get-IsWellSized;
  chan = omega arith;
  few = omega arith;
  k = 6;
  size = refl;
  small = omega arith;
}

sender-IsNumbered : IsNumbered 4194303 (contents sender.retransmit_buffer) sender.next_tx_seq
sender-IsNumbered = record {
  numbers = (refl, (refl, (refl, tt)));
  sendable = (element-IsSendable 4194303, (element-IsSendable 0, (element-IsSendable 1, tt)));
  next_number = refl;
}

-- The oldest frame is late.
tx_lem_example :
    (back : Option TlMsg) × (e : Endpoint) × (tx (get_frame 12 9) (get_frame 3 7) sender (some get)
      ≡ ok (back, e))
    × Turn 4194303 sender (some get) back e
tx_lem_example =
    tx_lem (get_frame 12 9) (get_frame 3 7) 4194303 sender (some get) (omega arith) (omega arith)
      (omega arith) (omega arith) refl sender-IsWellFormed sender-IsNumbered (λ c. omega arith)
      get-IsMessage
