-- ===== src/Link/Recovery.antt =====
-- A link behind a timeout of the sender (tloe_transmitter.c): what is sent again, and what becomes
-- of it.
use omnixtend_c.Base.{
  ℕ, suc, ◌+◌, ◌-◌, ◌/◌, ◌≤◌, ◌≡◌, refl, ap, ◌∙◌, arith, true, some, List, [], ◌∷◌, ◌++◌, map,
  length, length-take, drop-append, take_all, ok,
}
use omnixtend_c.Fifo
use omnixtend_c.TlMsg.{TlMsg}
use omnixtend_c.Frame.Packet.{packet_of}
use omnixtend_c.CircularQueue.{getfront}
use omnixtend_c.CircularQueue.Contents.{contents}
use omnixtend_c.CircularQueue.Laws.{getfront_lem}
use omnixtend_c.Timeout.{Timespec, is_timeout_tx, get_current_timestamp, timeout_time}
use omnixtend_c.Endpoint.{Endpoint, RetransmitBufferElement, tloe_seqnum_set_seq_num_ack}
use omnixtend_c.Retransmission.Resend.{packet_again}
use omnixtend_c.Transmitter.{tx_timeout}
use omnixtend_c.Link.{Link, resend, work_a, KeepsWindow, Reach, Steps, here, further, new_packets}
use omnixtend_c.Link.DataFrame.{reacked-IsData}
use omnixtend_c.Link.Stored.{Stored}
use omnixtend_c.Link.Invariant.{IsSender, Inv}
use omnixtend_c.Link.Sender.{window_bound, window_again}
use omnixtend_c.Link.Preserve.{work-IsSender}
use omnixtend_c.Link.Delivery.{Reach-Inv}
use omnixtend_c.Link.Progress.{
  Steps-trans, Reach-Steps, emptied, drained, received, Runs, run_received,
}

-- A time at which a frame of the time `t` is over.
abbrev late : ℕ → Timespec
late t = record { tv_sec = t + timeout_time; tv_nsec = 0 }

is_timeout_tx-late : (t : ℕ) → is_timeout_tx (late t) t ≡ true
unfolding is_timeout_tx get_current_timestamp
is_timeout_tx-late t = ground arith

module _ (first : ℕ) where
  -- What is sent again is a run.
  again-Runs :
      (e : Endpoint) (given : List TlMsg) (i : ℕ) (l : List RetransmitBufferElement)
      → i + length l ≡ length given
      → Stored first given i l
      → Runs first given i (map (packet_again e) l)
  again-Runs e given i [] h s = omega arith
  again-Runs e given i (r ∷ l) h ((m, k, g, size, d), s) =
      let flits : (r.f_size - 8) / 8 ≡ k = omega (arith, size) in
      (
        (
          m,
          k,
          tloe_seqnum_set_seq_num_ack r.tloe_frame e,
          g,
          ap (packet_of (tloe_seqnum_set_seq_num_ack r.tloe_frame e)) flits,
          reacked-IsData e k (first + i) m r.tloe_frame d,
        ),
        again-Runs e given (suc i) l (omega arith) s,
      )

  -- When the oldest frame's time is over, all that wait are sent again.
  timeout_resends :
      (a : Endpoint) (given : List TlMsg) (base : ℕ) (r : RetransmitBufferElement)
      (l : List RetransmitBufferElement)
      → IsSender first a given base
      → contents a.retransmit_buffer ≡ r ∷ l
      → is_timeout_tx a.iteration_ts r.send_time ≡ true
      → (a' : Endpoint) × (tx_timeout a ≡ ok a')
        × (new_packets a a' ≡ map (packet_again a) (contents a.retransmit_buffer))
  unfolding tx_timeout
  timeout_resends a given base r l s e over =
      let w = contents a.retransmit_buffer in
      let f : getfront a.retransmit_buffer ≡ some r =
        getfront_lem a.retransmit_buffer s.window ∙ ap (λ l. (Fifo.pop l).0) e in
      let (q, run, v, size, now) = window_again first a given base s r l e in
      (
        record a { retransmit_buffer = q; wire = a.wire ++ map (packet_again a) w },
        rw (f, tx_timeout, over) run,
        drop-append a.wire (map (packet_again a) w) (length a.wire) refl,
      )

  received-got : (l : Link) (i : Inv first l) → received l ≡ i.got
  received-got l i =
      omega (arith, ap length (i.receiver.delivered), length-take i.got l.given, i.got-le-given)

  -- After a timeout the receiver gets all that it misses.
  all_received :
      (l : Link)
      → Reach first l
      → (l' : Link) × Steps l l' × (l'.given ≡ l.given) × (length l.given ≤ received l')
  all_received l r = go (contents l.a.retransmit_buffer) refl
    where
      i : Inv first l
      i = Reach-Inv first r

      go :
          (w : List RetransmitBufferElement)
          → contents l.a.retransmit_buffer ≡ w
          → (l' : Link) × Steps l l' × (l'.given ≡ l.given) × (length l.given ≤ received l')
      go [] e = (
        l,
        here,
        refl,
        omega (arith, ap length e, i.sender.all_given, i.base-le-got, received-got l i),
      )
      go (f ∷ w) e =
          let a1 : Endpoint = record (l.a) { iteration_ts = late f.send_time } in
          let keeps : KeepsWindow l.a a1 = record {
            retransmit_buffer = refl;
            next_tx_seq = refl;
            handle_open = refl;
            acks = i.sender.acks;
          } in
          let s = work-IsSender first l i keeps in
          let (a2, run, out) =
            timeout_resends a1 l.given i.base f w s e (is_timeout_tx-late f.send_time) in
          let lost = emptied first l.to_b l refl in
          let all : Steps l (record l { a = a2; to_b = [] ++ new_packets a1 a2 }) =
            further (further lost (work_a keeps)) (resend run) in
          let (l', more, eg, got) =
            run_received first l.given (map (packet_again a1) (contents l.a.retransmit_buffer))
              i.base (record l { a = a2; to_b = [] ++ new_packets a1 a2 }) refl out
              (again-Runs a1 l.given i.base (contents l.a.retransmit_buffer) s.all_given s.stored)
              (omega (arith, i.base-le-got, received-got l i))
              (window_bound first l.a l.given i.base i.sender) (Reach-Steps first r all) in
          (l', Steps-trans all more, eg, got)

  -- A link in any state that it reaches from such a start can go on, with no further message given,
  -- to a state in which the receiver's handlers have taken all messages that the sender was given,
  -- in order. On the way the media may lose what is under way, time passes until the oldest frame
  -- is due, and the receiver's queues are emptied.
  pub recovers :
      (l : Link)
      → Reach first l
      → (l' : Link) × Steps l l' × (l'.given ≡ l.given) × (l'.taken ≡ l.given)
  recovers l r =
      let (l1, s1, eg, all) = all_received l r in
      let r1 = Reach-Steps first r s1 in
      let i = Reach-Inv first r1 in
      let (l2, s2, eg', eb, ec, ek) =
        drained first (contents l1.b.tl_msg_buffer) l1 refl (i.receiver.messages) in
      (
        l2,
        Steps-trans s1 s2,
        eg' ∙ eg,
        ek
            ∙ i.receiver.delivered
            ∙ take_all l1.given i.got (omega (arith, all, ap length eg, received-got l1 i))
            ∙ eg,
      )
