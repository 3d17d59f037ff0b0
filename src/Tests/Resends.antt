-- ===== src/Tests/Resends.antt =====
-- Three frames that wait for an acknowledgement, with the numbers 4194303, 0 and 1.
use omnixtend_c.Base.{ℕ, ◌≡◌, refl, arith, [], ◌∷◌, ok}
use omnixtend_c.CircularQueue.{CircularQueue}
use omnixtend_c.CircularQueue.Contents.{IsValid, contents}
use omnixtend_c.Endpoint.{RetransmitBufferElement}
use omnixtend_c.Retransmission.{slide_window, retransmit}
use omnixtend_c.Retransmission.Window.{Consecutive, slide_window_acked, slide_window_stale}
use omnixtend_c.Retransmission.Resend.{IsSendable, packet_again, mark_resent, retransmit_lem}
use omnixtend_c.Tests.Data.{get_frame, element, three_sent, endpoint}

three_sent-IsValid : IsValid three_sent
three_sent-IsValid = record {
  front_in = omega arith;
  rear_in = omega arith;
  storage = refl;
  filled = refl;
}

three_sent-Consecutive : Consecutive 4194303 (contents three_sent)
three_sent-Consecutive = (refl, (refl, (refl, tt)))

-- The frame acknowledges the frames 4194303 and 0.
slide_window_acked_example :
    let q = (slide_window endpoint (get_frame 10 0)).retransmit_buffer in
    IsValid q × (contents q ≡ element 1 ∷ []) × Consecutive 4194305 (contents q) × (q.size ≡ 5)
slide_window_acked_example =
    slide_window_acked endpoint (get_frame 10 0) 4194303 2 three_sent-IsValid three_sent-Consecutive
      (omega arith) (omega arith) (omega arith)

slide_window_stale_example :
    let q = (slide_window endpoint (get_frame 10 4194301)).retransmit_buffer in
    IsValid q × (contents q ≡ contents three_sent) × (q.size ≡ 5)
slide_window_stale_example =
    slide_window_stale endpoint (get_frame 10 4194301) 4194303 1 three_sent-IsValid
      three_sent-Consecutive (omega arith) (omega arith) (omega arith)

pub element-IsSendable : (a : ℕ) → IsSendable 56 (get_frame a 9)
element-IsSendable a = record { whole = refl; small = omega arith; held = omega arith }

retransmit_lem_example :
    (q : CircularQueue RetransmitBufferElement) × (retransmit endpoint 0
      ≡ ok (record endpoint {
        retransmit_buffer = q;
        wire = packet_again endpoint (element 0) ∷ packet_again endpoint (element 1) ∷ [];
      }))
    × IsValid q
    × (q.size ≡ 5)
    × (contents q
        ≡ element 4194303
          ∷ mark_resent endpoint (element 0)
          ∷ mark_resent endpoint (element 1)
          ∷ [])
retransmit_lem_example =
    retransmit_lem 0 endpoint 4194303 1 refl three_sent-IsValid three_sent-Consecutive
      (element-IsSendable 4194303, (element-IsSendable 0, (element-IsSendable 1, tt))) (omega arith)
      (omega arith) (omega arith)
