-- ===== src/Tests/Requests.antt =====
-- An endpoint that waits for the frame 10, and the frames 10, 8 and 12.
use omnixtend_c.Base.{◌≡◌, refl, arith, [], ◌∷◌, ok}
use omnixtend_c.Frame.{tloe_ack, tloe_nak}
use omnixtend_c.CircularQueue.Contents.{IsValid, contents}
use omnixtend_c.SeqNum.{tloe_seqnum_prev}
use omnixtend_c.Endpoint.{Endpoint}
use omnixtend_c.Receiver.{tloe_rx_get_req_type, serve_request}
use omnixtend_c.Receiver.Serve.{SameTaken, answer, serve_duplicate, serve_oos}
use omnixtend_c.Tests.Data.{get_frame, empty_queue, endpoint}

pub empty_queue-IsValid {ℓ} : {A : Type ℓ} → IsValid (empty_queue {A = A})
empty_queue-IsValid = record {
  front_in = omega arith;
  rear_in = omega arith;
  storage = refl;
  filled = refl;
}

serve_duplicate_example :
    (e : Endpoint) × (serve_request
        (tloe_rx_get_req_type endpoint (get_frame 8 9))
        endpoint
        (get_frame 8 9)
        56
      ≡ ok e)
    × (contents e.ack_buffer ≡ answer (get_frame 8 9) 56 tloe_ack 8 ∷ [])
    × IsValid e.ack_buffer
    × SameTaken endpoint e
serve_duplicate_example =
    serve_duplicate endpoint (get_frame 8 9) 56 8 2 empty_queue-IsValid (omega arith) (omega arith)
      (omega arith) (omega arith) (omega arith) (omega arith) (omega arith)

serve_oos_example :
    (e : Endpoint) × (serve_request
        (tloe_rx_get_req_type endpoint (get_frame 12 9))
        endpoint
        (get_frame 12 9)
        56
      ≡ ok e)
    × (contents e.ack_buffer ≡ answer (get_frame 12 9) 56 tloe_nak 9 ∷ [])
    × IsValid e.ack_buffer
    × SameTaken endpoint e
unfolding tloe_seqnum_prev
serve_oos_example =
    serve_oos endpoint (get_frame 12 9) 56 10 2 empty_queue-IsValid (omega arith) (omega arith)
      (omega arith) (omega arith) (omega arith) (omega arith) (omega arith)
