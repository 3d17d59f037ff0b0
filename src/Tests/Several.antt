-- ===== src/Tests/Several.antt =====
-- A frame with two messages, and an endpoint that waits for it.
use omnixtend_c.Base.{◌≡◌, refl, arith, [], ◌∷◌, ◌++◌, replicate, ok}
use omnixtend_c.Memory.{le_value, read_bytes}
use omnixtend_c.TlMsg.{TlMsg, tlmsg_get_total_size, tlmsg_get_header_size, tlmsg_get_data_size}
use omnixtend_c.TlMsg.Header.{of_word}
use omnixtend_c.Frame.{Frame, tloe_get_mask, tloe_get_tlmsg}
use omnixtend_c.CircularQueue.{CircularQueue}
use omnixtend_c.CircularQueue.Contents.{IsValid, contents}
use omnixtend_c.Receiver.{extract_from}
use omnixtend_c.Receiver.Rounds.{Carries, named, extract_from_lem}
use omnixtend_c.Tests.Data.{get_frame, get, address, empty_queue, endpoint}
use omnixtend_c.Tests.Requests.{empty_queue-IsValid}
use omnixtend_c.Endpoint.{Endpoint}
use omnixtend_c.Receiver.{serve_request, tloe_rx_get_req_type}
use omnixtend_c.Receiver.Messages.{IsServed, serve_messages}

-- Flits 0 and 2 of this frame start a message each: the mask 5.
abbrev two_messages : Frame
two_messages = record {
  header = (get_frame 10 9).header;
  flits =
      (3 ∷ 0 ∷ 0 ∷ 0 ∷ 0 ∷ 0 ∷ 3 ∷ 24 ∷ [])
      ++ (address
          ++ ((3 ∷ 0 ∷ 0 ∷ 0 ∷ 0 ∷ 0 ∷ 3 ∷ 24 ∷ [])
              ++ (address ++ (replicate 8 0 ++ 5 ∷ replicate 7 0))));
}

two_messages-Carries : Carries two_messages (named 5) (get ∷ get ∷ [])
unfolding tloe_get_tlmsg read_bytes le_value of_word tlmsg_get_total_size tlmsg_get_header_size
    tlmsg_get_data_size
two_messages-Carries = refl

extract_from_lem_example :
    (q : CircularQueue TlMsg) × (extract_from 64 5 0 two_messages empty_queue ≡ ok q)
    × (contents q ≡ get ∷ get ∷ [])
    × IsValid q
    × (q.size ≡ 4)
extract_from_lem_example =
    extract_from_lem two_messages 5 0 empty_queue (get ∷ get ∷ []) (omega arith) empty_queue-IsValid
      (omega arith) two_messages-Carries

mask-two_messages : tloe_get_mask two_messages 56 ≡ ok 5
unfolding tloe_get_mask read_bytes le_value
mask-two_messages = refl

serve_messages_example :
    (e : Endpoint) × (serve_request
        (tloe_rx_get_req_type endpoint two_messages)
        endpoint
        two_messages
        56
      ≡ ok e)
    × IsServed endpoint two_messages 5 10 (get ∷ get ∷ []) e
serve_messages_example =
    serve_messages endpoint two_messages 56 10 5 (get ∷ get ∷ []) empty_queue-IsValid (omega arith)
      (omega arith) (omega arith) (omega arith) mask-two_messages (omega arith) two_messages-Carries
