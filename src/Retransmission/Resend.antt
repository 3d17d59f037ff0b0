-- ===== src/Retransmission/Resend.antt =====
-- What `retransmit` sends again.
use native.Mathlib.Nat.{add-zero}
use omnixtend_c.Base.{
  ℕ, zero, suc, ◌+◌, ◌-◌, ◌*◌, ◌/◌, ◌%◌, ◌^◌, ◌≤◌, ◌<◌, ◌≡◌, refl, ap, ap₂, ◌∙◌, arith, Bool, true,
  false, List, [], ◌∷◌, ◌++◌, append-nil, append_assoc, map, length, take, drop, if◌then◌else◌,
  is_negative, pos, ◌==◌, ok,
}
use omnixtend_c.SeqNum.{half_max_seq_num, tloe_seqnum_cmp}
use omnixtend_c.SeqNum.Order.{cmp_of_counters}
use omnixtend_c.CircularQueue.{CircularQueue}
use omnixtend_c.CircularQueue.Contents.{IsValid, contents}
use omnixtend_c.CircularQueue.Traverse.{map_accum, traverse_lem}
use omnixtend_c.Frame.{Frame, max_buffer_size}
use omnixtend_c.Frame.Packet.{packet_of, frame_to_packet_lem}
use omnixtend_c.Timeout.{get_current_timestamp}
use omnixtend_c.Endpoint.{
  Endpoint, RetransmitBufferElement, resent, tloe_fabric_send, tloe_seqnum_set_seq_num_ack,
}
use omnixtend_c.Retransmission.{retransmit_one, retransmit}
use omnixtend_c.Retransmission.Window.{seq_of, Consecutive}

-- A frame of whole flits that fits a send buffer.
pub record IsSendable (size : ℕ) (f : Frame) : Type 0 where
  pub whole : size ≡ 8 + (size - 8) / 8 * 8
  pub small : size ≤ max_buffer_size
  pub held : (size - 8) / 8 * 8 ≤ length f.flits

abbrev pub AllSendable : List RetransmitBufferElement → Type 0
AllSendable [] = Unit {0}
AllSendable (r ∷ l) = IsSendable r.f_size r.tloe_frame × AllSendable l

-- the packet that goes out again, with the present acknowledgement
abbrev pub packet_again : Endpoint → RetransmitBufferElement → List ℕ
packet_again e r = packet_of (tloe_seqnum_set_seq_num_ack r.tloe_frame e) ((r.f_size - 8) / 8)

abbrev pub mark_resent : Endpoint → RetransmitBufferElement → RetransmitBufferElement
mark_resent e r = record r { state = resent; send_time = get_current_timestamp e.iteration_ts }

abbrev pub with_wire : Endpoint → List (List ℕ) → Endpoint
with_wire e w = record e { wire = w }

one_behind :
    (s : ℕ) (r : RetransmitBufferElement) (e : Endpoint)
    → is_negative (tloe_seqnum_cmp (seq_of r) s) ≡ true
    → retransmit_one s r e ≡ ok (r, e)
unfolding retransmit_one
one_behind s r e h = rw h

held :
    (f : Frame) (e : Endpoint) {n : ℕ}
    → n ≤ length f.flits
    → n ≤ length (tloe_seqnum_set_seq_num_ack f e).flits
unfolding tloe_seqnum_set_seq_num_ack
held f e h = h

again-with_wire :
    (e : Endpoint) (w : List (List ℕ)) (r : RetransmitBufferElement)
    → packet_again (with_wire e w) r ≡ packet_again e r
unfolding tloe_seqnum_set_seq_num_ack
again-with_wire e w r = refl

one_ahead :
    (s : ℕ) (r : RetransmitBufferElement) (e : Endpoint)
    → e.handle_open ≡ true
    → is_negative (tloe_seqnum_cmp (seq_of r) s) ≡ false
    → IsSendable r.f_size r.tloe_frame
    → retransmit_one s r e ≡ ok (mark_resent e r, with_wire e (e.wire ++ packet_again e r ∷ []))
unfolding retransmit_one tloe_fabric_send
one_ahead s r e open_ h v = rw (
  h,
  frame_to_packet_lem (tloe_seqnum_set_seq_num_ack r.tloe_frame e) r.f_size ((r.f_size - 8) / 8)
      v.whole v.small (held r.tloe_frame e v.held),
  open_,
)

-- From the sequence number `s` on, all elements are sent again.
resend_all :
    (s : ℕ) (e : Endpoint) (i d : ℕ) (l : List RetransmitBufferElement) (w : List (List ℕ))
    → e.handle_open ≡ true
    → s ≡ i % 2 ^ 22
    → Consecutive (i + d) l
    → d + length l < half_max_seq_num
    → AllSendable l
    → map_accum (retransmit_one s) l (with_wire e w)
      ≡ ok (map (mark_resent e) l, with_wire e (w ++ map (packet_again e) l))
unfolding map_accum
resend_all s e i d [] w open_ es c h v = rw append-nil
resend_all s e i d (r ∷ l) w open_ es (c, cs) h (v, vs) =
    let rest =
      resend_all s e i (suc d) l (w ++ packet_again e r ∷ []) open_ es
        (let q : i + suc d ≡ suc (i + d) = omega arith in rw q cs) (omega arith) vs in
    rw (
      one_ahead s r (with_wire e w) open_ late v,
      again-with_wire e w r,
      rest,
      append_assoc w (packet_again e r ∷ []) (map (packet_again e) l),
    )
  where
    not_behind : (t : Bool) → is_negative (if t then pos 0 else pos 1) ≡ false
    not_behind true = refl
    not_behind false = refl

    late : is_negative (tloe_seqnum_cmp (seq_of r) s) ≡ false
    late =
        ap is_negative (ap₂ tloe_seqnum_cmp c es ∙ (cmp_of_counters i d (omega arith)).0)
        ∙ not_behind (d == 0)

-- Before the `k`-th element nothing is sent again.
resend_from :
    (s : ℕ) (e : Endpoint) (i k : ℕ) (l : List RetransmitBufferElement)
    → e.handle_open ≡ true
    → s ≡ (i + k) % 2 ^ 22
    → Consecutive i l
    → k ≤ length l
    → length l < half_max_seq_num
    → AllSendable l
    → map_accum (retransmit_one s) l e
      ≡ ok (
        take k l ++ map (mark_resent e) (drop k l),
        with_wire e (e.wire ++ map (packet_again e) (drop k l)),
      )
unfolding map_accum
resend_from s e i zero l open_ es c h b v =
    resend_all s e i 0 l e.wire open_ (omega (arith, es)) (rw add-zero c) (omega arith) v
resend_from s e i (suc k) [] open_ es c h b v = absurd (omega arith)
resend_from s e i (suc k) (r ∷ l) open_ es (c, cs) h b (v, vs) = rw (
  one_behind s r e early,
  resend_from s e (suc i) k l open_ (omega (arith, es)) cs (omega arith) (omega arith) vs,
)
  where
    early : is_negative (tloe_seqnum_cmp (seq_of r) s) ≡ true
    early =
        ap is_negative (ap₂ tloe_seqnum_cmp c es ∙ (cmp_of_counters i (suc k) (omega arith)).1)
        ∙ ground arith

-- Go-back-N: with the handle open, a valid buffer of fewer than 2 ^ 21 frames that can be sent and
-- carry the sequence numbers from a counter on, a retransmission from the number of the k-th frame
-- returns. It has sent every frame from the k-th on, in order, with the present acknowledgement,
-- and marked these as sent again at the present time; the frames in front, the size of the buffer
-- and the rest of the endpoint are as before.
pub retransmit_lem :
    (s : ℕ) (e : Endpoint) (i k : ℕ)
    → e.handle_open ≡ true
    → IsValid e.retransmit_buffer
    → Consecutive i (contents e.retransmit_buffer)
    → AllSendable (contents e.retransmit_buffer)
    → length (contents e.retransmit_buffer) < half_max_seq_num
    → k ≤ length (contents e.retransmit_buffer)
    → s ≡ (i + k) % 2 ^ 22
    → let l = contents e.retransmit_buffer in
      (q : CircularQueue RetransmitBufferElement) × (retransmit e s
        ≡ ok (record e { retransmit_buffer = q; wire = e.wire ++ map (packet_again e) (drop k l) }))
      × IsValid q
      × (q.size ≡ e.retransmit_buffer.size)
      × (contents q ≡ take k l ++ map (mark_resent e) (drop k l))
unfolding retransmit
retransmit_lem s e i k open_ v c a b h es =
    let (q, run, valid, now, size, front, rear) =
      rw (resend_from s e i k (contents e.retransmit_buffer) open_ es c h b a) at
        (traverse_lem (retransmit_one s) e.retransmit_buffer e v) in
    (q, rw run, valid, size, now)
