-- ===== src/Transmitter/Numbered.antt =====
-- The numbers of the frames in the window, and that each can be sent again: through a send of `TX`,
-- and through its resend.
use omnixtend_c.Base.{
  ℕ, suc, ◌+◌, ◌-◌, ◌*◌, ◌%◌, ◌^◌, ◌≤◌, ◌≡◌, ap, refl, sym, ◌∙◌, arith, Bool-cases, true, false,
  Option, none, some, List, [], ◌∷◌, ◌++◌, length, length-append, length-map, length-take, map,
  take, drop, ok, inl, inr,
}
use omnixtend_c.Fifo
use omnixtend_c.TlMsg.{TlMsg}
use omnixtend_c.Frame.{Frame, max_size_flit, zero_frame}
use omnixtend_c.CircularQueue.{CircularQueue, getfront}
use omnixtend_c.CircularQueue.Contents.{contents, length-contents-lt}
use omnixtend_c.CircularQueue.Laws.{getfront_lem}
use omnixtend_c.SeqNum.{tloe_seqnum_next}
use omnixtend_c.SeqNum.Order.{next_of_counter}
use omnixtend_c.Timeout.{is_timeout_tx}
use omnixtend_c.Endpoint.{Endpoint, RetransmitBufferElement}
use omnixtend_c.Endpoint.WellFormed.{IsWellFormed}
use omnixtend_c.Retransmission.Window.{Consecutive}
use omnixtend_c.Retransmission.Resend.{
  IsSendable, AllSendable, packet_again, mark_resent, retransmit_lem,
}
use omnixtend_c.Transmitter.{tx_timeout}
use omnixtend_c.Transmitter.Append.{element_of}
use omnixtend_c.Transmitter.Requested.{
  Sent, Requested, window_full, nothing_due, no_credit, without_message, due, paid,
}

-- The frames of a window are numbered one by one up to the next number, from a counter on, and each
-- can be sent again.
pub record IsNumbered (i : ℕ) (l : List RetransmitBufferElement) (next : ℕ) : Type 0 where
  pub numbers : Consecutive i l
  pub sendable : AllSendable l
  pub next_number : next ≡ (i + length l) % 2 ^ 22

Consecutive-append :
    (i : ℕ) (l : List RetransmitBufferElement) (r : RetransmitBufferElement)
    → Consecutive i l
    → r.tloe_frame.header.seq_num ≡ (i + length l) % 2 ^ 22
    → Consecutive i (l ++ r ∷ [])
Consecutive-append i [] r c h = (omega (arith, h), tt)
Consecutive-append i (x ∷ l) r (cx, c) h = (cx, Consecutive-append (suc i) l r c (omega (arith, h)))

AllSendable-append :
    (l : List RetransmitBufferElement) (r : RetransmitBufferElement)
    → AllSendable l
    → IsSendable r.f_size r.tloe_frame
    → AllSendable (l ++ r ∷ [])
AllSendable-append [] r v h = (h, tt)
AllSendable-append (x ∷ l) r (vx, v) h = (vx, AllSendable-append l r v h)

Consecutive-resent :
    (e : Endpoint) (i : ℕ) (l : List RetransmitBufferElement)
    → Consecutive i l
    → Consecutive i (map (mark_resent e) l)
Consecutive-resent e i [] c = tt
Consecutive-resent e i (r ∷ l) (cr, c) = (cr, Consecutive-resent e (suc i) l c)

AllSendable-resent :
    (e : Endpoint) (l : List RetransmitBufferElement)
    → AllSendable l
    → AllSendable (map (mark_resent e) l)
AllSendable-resent e [] v = tt
AllSendable-resent e (r ∷ l) (vr, v) = (vr, AllSendable-resent e l v)

-- The frame that a send keeps can be sent again.
element-IsSendable :
    (e : Endpoint) (k : ℕ) (f : Frame)
    → k ≤ max_size_flit
    → length f.flits ≡ k * 8
    → IsSendable (8 + k * 8) (element_of e f (8 + k * 8)).tloe_frame
element-IsSendable e k f small room = record {
  whole = omega arith;
  small = omega arith;
  held = omega (
    arith,
    length-append (take (8 + k * 8 - 8) f.flits)
        (drop (8 + k * 8 - 8) (zero_frame (max_size_flit * 8)).flits),
    length-take (8 + k * 8 - 8) f.flits,
    room,
  );
}

Sent-IsNumbered :
    (i : ℕ) {e e' : Endpoint} {tlmsg : Option TlMsg}
    → IsNumbered i (contents e.retransmit_buffer) e.next_tx_seq
    → Sent e tlmsg e'
    → IsNumbered i (contents e'.retransmit_buffer) e'.next_tx_seq
Sent-IsNumbered i {e} n s =
    let l = contents e.retransmit_buffer in
    let r = element_of e s.f (8 + s.k * 8) in
    rw (s.kept, s.next_tx_seq)
      record {
        numbers =
            Consecutive-append i l r n.numbers (omega (arith, s.is_sent.seq_num, n.next_number));
        sendable =
            AllSendable-append l r n.sendable
              (element-IsSendable e s.k s.f s.small (s.is_sent.room));
        next_number =
            ap tloe_seqnum_next n.next_number
            ∙ next_of_counter (i + length l)
            ∙ ap (λ t. t % 2 ^ 22) (omega (arith, length-append l (r ∷ [])));
      }

pub Requested-IsNumbered :
    (i : ℕ) {e e' : Endpoint} {tlmsg back : Option TlMsg}
    → IsNumbered i (contents e.retransmit_buffer) e.next_tx_seq
    → Requested e tlmsg back e'
    → IsNumbered i (contents e'.retransmit_buffer) e'.next_tx_seq
Requested-IsNumbered i n (window_full h) = n
Requested-IsNumbered i n (nothing_due h k) = n
Requested-IsNumbered i n (no_credit h k) = n
Requested-IsNumbered i n (without_message h k s) = Sent-IsNumbered i n s
Requested-IsNumbered i n (due h s) = Sent-IsNumbered i n s
Requested-IsNumbered i n (paid h k s) = Sent-IsNumbered i n s

pub Requested-handle_open :
    {e e' : Endpoint} {tlmsg back : Option TlMsg}
    → Requested e tlmsg back e'
    → e'.handle_open ≡ e.handle_open
Requested-handle_open (window_full h) = refl
Requested-handle_open (nothing_due h k) = refl
Requested-handle_open (no_credit h k) = refl
Requested-handle_open (without_message h k s) = s.handle_open
Requested-handle_open (due h s) = s.handle_open
Requested-handle_open (paid h k s) = s.handle_open

-- What the code behind `out` may do to an endpoint: nothing, as long as the oldest frame is not
-- late, or else a resend of the whole window.
pub data Timed (e : Endpoint) : Endpoint → Type 0 where
  in_time :
      ((r : RetransmitBufferElement)
        → getfront e.retransmit_buffer ≡ some r
        → is_timeout_tx e.iteration_ts r.send_time ≡ false)
      → Timed e e
  late :
      {r : RetransmitBufferElement} {q : CircularQueue RetransmitBufferElement}
      → getfront e.retransmit_buffer ≡ some r
      → is_timeout_tx e.iteration_ts r.send_time ≡ true
      → contents q ≡ map (mark_resent e) (contents e.retransmit_buffer)
      → Timed e (record e {
        retransmit_buffer = q;
        wire = e.wire ++ map (packet_again e) (contents e.retransmit_buffer);
      })

pub Timed-IsNumbered :
    (i : ℕ) {e e' : Endpoint}
    → IsNumbered i (contents e.retransmit_buffer) e.next_tx_seq
    → Timed e e'
    → IsNumbered i (contents e'.retransmit_buffer) e'.next_tx_seq
Timed-IsNumbered i n (in_time h) = n
Timed-IsNumbered i {e} n (late h k all) =
    let l = contents e.retransmit_buffer in
    rw all record {
      numbers = Consecutive-resent e i l n.numbers;
      sendable = AllSendable-resent e l n.sendable;
      next_number = n.next_number ∙ ap (λ t. (i + t) % 2 ^ 22) (sym (length-map (mark_resent e) l));
    }

pub timeout_lem :
    (i : ℕ) (e : Endpoint)
    → e.handle_open ≡ true
    → IsWellFormed e
    → IsNumbered i (contents e.retransmit_buffer) e.next_tx_seq
    → (e' : Endpoint) × (tx_timeout e ≡ ok e') × Timed e e'
unfolding tx_timeout
timeout_lem i e open_ w n = go (contents e.retransmit_buffer) refl
  where
    go :
        (l : List RetransmitBufferElement)
        → contents e.retransmit_buffer ≡ l
        → (e' : Endpoint) × (tx_timeout e ≡ ok e') × Timed e e'
    go [] c =
        let f : getfront e.retransmit_buffer ≡ none =
          getfront_lem e.retransmit_buffer w.window_valid ∙ ap (λ l. (Fifo.pop l).0) c in
        (e, rw (f, tx_timeout) refl, in_time (λ r h. cc))
    go (r ∷ l) c =
        let f : getfront e.retransmit_buffer ≡ some r =
          getfront_lem e.retransmit_buffer w.window_valid ∙ ap (λ l. (Fifo.pop l).0) c in
        elim (Bool-cases (is_timeout_tx e.iteration_ts r.send_time)) [
          | inl is_late ↦
              let (again, run, v, size, all) =
                retransmit_lem r.tloe_frame.header.seq_num e i 0 open_ w.window_valid n.numbers
                  n.sendable
                  (omega
                    (arith, length-contents-lt e.retransmit_buffer w.window_valid, w.window_slots))
                  (omega arith) (omega (arith, (rw c at n.numbers).0)) in
              (
                record e {
                  retransmit_buffer = again;
                  wire = e.wire ++ map (packet_again e) (contents e.retransmit_buffer);
                },
                rw (f, tx_timeout, is_late) run,
                late f is_late all,
              )
          | inr early ↦ (e, rw (f, tx_timeout, early) refl, in_time (λ x h. cc))
        ]
