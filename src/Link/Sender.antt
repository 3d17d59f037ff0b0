-- ===== src/Link/Sender.antt =====
-- The sender's window under its steps: a send, a timeout and an acknowledgement (tloe_transmitter.c,
-- tloe_receiver.c, retransmission.c).
use omnixtend_c.Base.{
  ℕ, ◌+◌, ◌-◌, ◌*◌, ◌%◌, ◌^◌, ◌≤◌, ◌<◌, ◌≡◌, refl, sym, ap, ◌∙◌, arith, false, some, none, List, [],
  ◌∷◌, ◌++◌, append-nil, map, length, length-append, length-drop, length-map, drop-append, ok, ◌⊎◌,
  inl, inr, same_result, get_elem?-append_end, ==→ne, Bool-cases,
}
use omnixtend_c.Fifo
use omnixtend_c.TlMsg.{TlMsg, channel_num, tlmsg_get_total_size}
use omnixtend_c.Frame.{Frame, tloe_get_fsize}
use omnixtend_c.Frame.Packet.{packet_of, received}
use omnixtend_c.Frame.Carry.{IsWellSized}
use omnixtend_c.CircularQueue.{CircularQueue, is_queue_full, getfront}
use omnixtend_c.CircularQueue.Contents.{IsValid, contents, length-contents-lt}
use omnixtend_c.CircularQueue.Laws.{is_queue_full_lem, getfront_lem}
use omnixtend_c.SeqNum.{tloe_seqnum_next}
use omnixtend_c.SeqNum.Order.{next_of_counter}
use omnixtend_c.Timeout.{is_timeout_tx}
use omnixtend_c.Endpoint.{Endpoint, RetransmitBufferElement, tloe_seqnum_update_acked_seq}
use omnixtend_c.Retransmission.{retransmit, slide_window}
use omnixtend_c.Retransmission.Window.{slide_window_acked}
use omnixtend_c.Retransmission.Resend.{packet_again, mark_resent, retransmit_lem}
use omnixtend_c.Receiver.{rx}
use omnixtend_c.Receiver.Extract.{enqueue_room}
use omnixtend_c.Transmitter.{tx_frame, tx_timeout}
use omnixtend_c.Transmitter.Append.{element_of}
use omnixtend_c.Transmitter.Send.{tx_frame_run}
use omnixtend_c.Link.{new_packets}
use omnixtend_c.Link.DataFrame.{IsData, sent-IsData, element-IsData, cleared}
use omnixtend_c.Link.Reply.{IsReply, rx_reply}
use omnixtend_c.Link.Stored.{
  Stored-Consecutive, Stored-AllSendable, Stored-append, Stored-given, Stored-drop, Stored-resent,
}
use omnixtend_c.Link.Invariant.{IsSender}

short_frame : (m : TlMsg) → tlmsg_get_total_size m ≤ 40 → tloe_get_fsize (some m) ≡ 8 + 6 * 8
unfolding tloe_get_fsize
short_frame m h = ground arith

module _ (first : ℕ) (a : Endpoint) (given : List TlMsg) (base : ℕ)
    (s : IsSender first a given base) where
  -- The window has at most four frames.
  pub window_bound : length given ≤ base + 4
  window_bound =
      omega (arith, length-contents-lt a.retransmit_buffer s.window, s.slots, s.all_given)

  pub send-IsSender :
      (m : TlMsg) (chan : ℕ) {a' : Endpoint}
      → IsWellSized m
      → tlmsg_get_total_size m ≤ 40
      → is_queue_full a.retransmit_buffer ≡ false
      → chan < channel_num
      → (chan ≡ 0) ⊎ (0 < a.fc.tx_flow_credits chan)
      → a.fc.tx_flow_credits chan < 2 ^ 32
      → tx_frame a (some m) chan ≡ ok a'
      → IsSender first a' (given ++ m ∷ []) base
        × (f : Frame) × (new_packets a a' ≡ packet_of f 6 ∷ [])
        × IsData 6 (first + length given) m f
  send-IsSender m chan w short notfull inside owed bound h =
      let space = ==→ne _ _ (sym (is_queue_full_lem a.retransmit_buffer s.window) ∙ notfull) in
      let (f, q, fc, is_sent, run, popped, vq, held) =
        tx_frame_run a (some m) chan 6 s.handle_open s.window space s.acks w (short_frame m short)
          (omega arith) inside owed bound in
      let d =
        sent-IsData a m 6 f w short is_sent (first + length given) (omega arith) s.next_tx_seq in
      let (added, now, v, size) =
        enqueue_room a.retransmit_buffer (element_of a f (8 + 6 * 8)) s.window space in
      rw (same_result h run) (
        record {
          handle_open = s.handle_open;
          window = v;
          slots = size ∙ s.slots;
          acks = vq;
          next_tx_seq =
              ap tloe_seqnum_next (s.next_tx_seq)
              ∙ next_of_counter (first + length given)
              ∙ ap (λ t. t % 2 ^ 22) (omega (arith, length-append given (m ∷ [])));
          stored = rw now (
              Stored-append first (given ++ m ∷ []) base (contents a.retransmit_buffer) _
                (Stored-given first given m base (contents a.retransmit_buffer) s.stored)
                (rw (s.all_given) (
                  m,
                  6,
                  get_elem?-append_end given m,
                  refl,
                  element-IsData a 6 (first + length given) m f d,
                )));
          all_given = omega (
            arith,
            ap length now,
            length-append (contents a.retransmit_buffer) (element_of a f (8 + 6 * 8) ∷ []),
            length-append given (m ∷ []),
            s.all_given,
          );
        },
        f,
        drop-append a.wire (packet_of f 6 ∷ []) (length a.wire) refl,
        d,
      )

  nothing_sent :
      {a' : Endpoint}
      → tx_timeout a ≡ ok a'
      → tx_timeout a ≡ ok a
      → IsSender first a' given base
        × ((new_packets a a' ≡ [])
            ⊎ (new_packets a a' ≡ map (packet_again a) (contents a.retransmit_buffer)))
  nothing_sent h run =
      rw (same_result h run)
        (s, inl (rw append-nil at (drop-append a.wire [] (length a.wire) refl)))

  -- The whole window is sent again.
  pub window_again :
      (r : RetransmitBufferElement) (l : List RetransmitBufferElement)
      → contents a.retransmit_buffer ≡ r ∷ l
      → let w = contents a.retransmit_buffer in
        (q : CircularQueue RetransmitBufferElement) × (retransmit a r.tloe_frame.header.seq_num
          ≡ ok (record a { retransmit_buffer = q; wire = a.wire ++ map (packet_again a) w }))
        × IsValid q
        × (q.size ≡ a.retransmit_buffer.size)
        × (contents q ≡ map (mark_resent a) w)
  window_again r l e =
      let w = contents a.retransmit_buffer in
      let front : r.tloe_frame.header.seq_num ≡ (first + base + 0) % 2 ^ 22 =
        (rw e at (Stored-Consecutive first given base w s.stored)).0 ∙ omega arith in
      retransmit_lem r.tloe_frame.header.seq_num a (first + base) 0 s.handle_open s.window
        (Stored-Consecutive first given base w s.stored)
        (Stored-AllSendable first given base w s.stored) (omega (arith, window_bound, s.all_given))
        (omega arith) front

  all_sent :
      {a' : Endpoint} (r : RetransmitBufferElement) (l : List RetransmitBufferElement)
      → contents a.retransmit_buffer ≡ r ∷ l
      → retransmit a r.tloe_frame.header.seq_num ≡ ok a'
      → IsSender first a' given base
        × ((new_packets a a' ≡ [])
            ⊎ (new_packets a a' ≡ map (packet_again a) (contents a.retransmit_buffer)))
  all_sent r l e h =
      let w = contents a.retransmit_buffer in
      let (q, run, v, size, all) = window_again r l e in
      rw (same_result h run) (
        record {
          handle_open = s.handle_open;
          window = v;
          slots = size ∙ s.slots;
          acks = s.acks;
          next_tx_seq = s.next_tx_seq;
          stored = rw all (Stored-resent first a given base w s.stored);
          all_given = rw (all, length-map (mark_resent a) w) (s.all_given);
        },
        inr (drop-append a.wire (map (packet_again a) w) (length a.wire) refl),
      )

  -- A resend hands all frames of the window to the medium, or none.
  pub resend-IsSender :
      {a' : Endpoint}
      → tx_timeout a ≡ ok a'
      → IsSender first a' given base
        × ((new_packets a a' ≡ [])
            ⊎ (new_packets a a' ≡ map (packet_again a) (contents a.retransmit_buffer)))
  unfolding tx_timeout
  resend-IsSender {a'} h = go (contents a.retransmit_buffer) refl
    where
      go :
          (l : List RetransmitBufferElement)
          → contents a.retransmit_buffer ≡ l
          → IsSender first a' given base
            × ((new_packets a a' ≡ [])
                ⊎ (new_packets a a' ≡ map (packet_again a) (contents a.retransmit_buffer)))
      go [] e =
          let f : getfront a.retransmit_buffer ≡ none =
            getfront_lem a.retransmit_buffer s.window ∙ ap (λ l. (Fifo.pop l).0) e in
          nothing_sent h (rw (f, tx_timeout) refl)
      go (r ∷ l) e =
          let f : getfront a.retransmit_buffer ≡ some r =
            getfront_lem a.retransmit_buffer s.window ∙ ap (λ l. (Fifo.pop l).0) e in
          elim (Bool-cases (is_timeout_tx a.iteration_ts r.send_time)) [
            | inl late ↦ all_sent r l e (rw (f, tx_timeout, late) at h)
            | inr early ↦ nothing_sent h (rw (f, tx_timeout, early) refl)
          ]

  pub acknowledged-IsSender :
      (v : ℕ) (f : Frame) {a' : Endpoint}
      → IsReply (first + v) f
      → base ≤ v
      → v ≤ length given
      → rx a (some (packet_of f 6)) ≡ ok a'
      → IsSender first a' given v
  unfolding tloe_seqnum_update_acked_seq slide_window
  acknowledged-IsSender v f r old few h =
      let (w, now, c, size) =
        slide_window_acked a (received f 6 cleared) (first + base) (v - base) s.window
          (Stored-Consecutive first given base _ s.stored)
          (omega (arith, window_bound, s.all_given)) (omega (arith, s.all_given))
          (omega (arith, r.seq_num_ack)) in
      let there : base + (v - base) ≡ v = omega arith in
      let left = Stored-drop first given base (v - base) (contents a.retransmit_buffer) s.stored in
      rw (same_result h (rx_reply a (first + v) f r)) record {
        handle_open = s.handle_open;
        window = w;
        slots = size ∙ s.slots;
        acks = s.acks;
        next_tx_seq = s.next_tx_seq;
        stored = rw now (rw there at left);
        all_given =
            rw now
              (omega (arith, s.all_given, length-drop (v - base) (contents a.retransmit_buffer)));
      }
