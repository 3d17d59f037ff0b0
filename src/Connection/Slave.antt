-- ===== src/Connection/Slave.antt =====
-- tloe_connection.c: `open_conn_slave` with a master that sends its frames in order.
use omnixtend_c.Base.{
  ℕ, zero, suc, ◌+◌, ◌-◌, ◌%◌, ◌^◌, ◌≤◌, ◌≡◌, refl, sym, ap, ◌∙◌, arith, Bool, true, false, ◌||◌,
  some, List, [], ◌∷◌, ◌++◌, append-nil, none, Outcome, ok, if◌then◌else◌, ◌==◌, Option-cases, inl,
  inr,
}
use omnixtend_c.TlMsg.{channel_a}
use omnixtend_c.Frame.{type_normal, type_ackonly, type_open_connection}
use omnixtend_c.Frame.Packet.{packet_of}
use omnixtend_c.SeqNum.{tloe_seqnum_prev}
use omnixtend_c.FlowControl.{credit_default, check_all_channels}
use omnixtend_c.Endpoint.{Endpoint}
use omnixtend_c.Connection.{
  Round, recv_conn_slave, serve_conn_slave, open_slave_loop, open_conn_slave, serve_from,
  conn_frame,
}
use omnixtend_c.Connection.Frames.{sent_frame, heard, conn_packets, send_frame_lem}
use omnixtend_c.Connection.Waiting.{
  packets_in, Opening, check_waits, check_ends, burst, serves, may_serve, takes, initial-Opening,
  finish, IsInitial, IsOpened, next_packet, Opened, Opened-before, round_lem,
}

abbrev pub opens_of : ℕ → ℕ
opens_of i = if i == channel_a then type_open_connection else type_normal

abbrev pub master_packet : ℕ → ℕ → List ℕ
master_packet i ack = packet_of (sent_frame (opens_of i) (i - 1) ack i credit_default) 6

-- The slave takes a frame if it opens the connection, or another has.
slave_hears :
    (flag : Bool) (ack i : ℕ) (s e : Endpoint)
    → 1 ≤ i
    → i ≤ 5
    → (opens_of i % 2 ^ 4 == type_open_connection || flag) ≡ true
    → Opening s i e
    → (e' : Endpoint) × (recv_conn_slave e flag (some (master_packet i ack)) ≡ ok (true, e'))
      × Opening s (suc i) e'
      × (e'.next_tx_seq ≡ e.next_tx_seq)
      × (e'.wire ≡ e.wire)
unfolding recv_conn_slave conn_frame
slave_hears flag ack i s e h h' known o =
    let (e', run, o', five, w) = takes (opens_of i) ack i s e h h' o in
    (e', rw (heard (opens_of i) (i - 1) ack i credit_default, known, run) refl, o', five, w)

or_true : (b : Bool) → (b || true) ≡ true
or_true true = refl
or_true false = refl

-- The slave's loop behind a receive.
abbrev after_receive : Bool → Bool → List Round → Bool × Endpoint → Outcome (Bool × Endpoint)
after_receive wde timer rounds c = elim (check_all_channels wde c.1.fc) [
  | true ↦ ok (true, c.1)
  | false ↦ open_slave_loop wde c.1 c.0 timer rounds
]

receive_ends :
    (wde timer flag : Bool) (rounds : List Round) (s e : Endpoint)
    → Opening s 6 e
    → after_receive wde timer rounds (flag, e) ≡ ok (true, e)
receive_ends wde timer flag rounds s e o = rw (check_ends wde o, after_receive) refl

receive_goes_on :
    (wde timer flag : Bool) (i : ℕ) (rounds : List Round) (s e : Endpoint)
    → i ≤ 5
    → Opening s i e
    → after_receive wde timer rounds (flag, e) ≡ open_slave_loop wde e flag timer rounds
receive_goes_on wde timer flag i rounds s e h o = rw (check_waits wde i h o, after_receive) refl

serve_slave_lem : (e : Endpoint) → serve_conn_slave e ≡ serve_from type_normal 5 1 e
unfolding serve_conn_slave
serve_slave_lem e = refl

-- A round in which nothing comes.
slave_waits :
    (wde timer : Bool) (i : ℕ) (r : Round) (rounds : List Round) (s e e1 : Endpoint)
    → i ≤ 5
    → (if timer then serve_conn_slave e else ok e) ≡ ok e1
    → Opening s i e1
    → r.packet ≡ none
    → open_slave_loop wde e true timer (r ∷ rounds) ≡ open_slave_loop wde e1 true r.expired rounds
unfolding open_slave_loop recv_conn_slave
slave_waits wde timer i r rounds s e e1 h run1 o1 nothing =
    round_lem (λ e'. recv_conn_slave e' true r.packet) (after_receive wde r.expired rounds) run1
      (rw nothing refl)
    ∙ receive_goes_on wde r.expired true i rounds s e1 h o1

-- The rounds of a slave that knows of the opening, from channel `i` on.
slave_rest :
    (wde timer : Bool) (ack n i : ℕ) (rounds : List Round) (s e : Endpoint)
    → s.handle_open ≡ true
    → i + suc n ≡ 6
    → 1 ≤ i
    → packets_in rounds ≡ conn_packets type_open_connection (suc n) i ack
    → Opening s i e
    → e.next_tx_seq ≡ 5
    → Opened s e (open_slave_loop wde e true timer rounds)
unfolding open_slave_loop
slave_rest wde timer ack n i [] s e open_ low h ps o five = cc
slave_rest wde timer ack zero i (r ∷ rounds) s e open_ low h ps o five =
    let (e1, sent1, run1, o1, five1, w1) =
      may_serve type_normal i serve_conn_slave timer s e open_ (serve_slave_lem e) o five in
    elim (next_packet r rounds (master_packet i ack) [] ps) [
      | inl (nothing, later) ↦
          Opened-before sent1
            (slave_waits wde timer i r rounds s e e1 (omega arith) run1 o1 nothing) w1
            (slave_rest wde r.expired ack zero i rounds s e1 open_ low h later o1 five1)
      | inr (comes, later) ↦
          let (e2, run2, o2, five2, w2) =
            slave_hears true ack i s e1 h (omega arith) (or_true _) o1 in
          let end_ : suc i ≡ 6 = omega arith in
          let all = rw end_ at o2 in
          record {
            last = e2;
            sent = sent1;
            ends =
                round_lem (λ e'. recv_conn_slave e' true r.packet)
                  (after_receive wde r.expired rounds) run1 (rw comes run2)
                ∙ receive_ends wde r.expired true rounds s e2 all;
            all = all;
            next_tx_seq = five2 ∙ five1;
            wire = w2 ∙ w1;
          }
    ]
slave_rest wde timer ack (suc n) i (r ∷ rounds) s e open_ low h ps o five =
    let (e1, sent1, run1, o1, five1, w1) =
      may_serve type_normal i serve_conn_slave timer s e open_ (serve_slave_lem e) o five in
    elim (next_packet r rounds (master_packet i ack)
      (conn_packets type_open_connection (suc n) (i + 1) ack) ps) [
        | inl (nothing, later) ↦
            Opened-before sent1
              (slave_waits wde timer i r rounds s e e1 (omega arith) run1 o1 nothing) w1
              (slave_rest wde r.expired ack (suc n) i rounds s e1 open_ low h later o1 five1)
        | inr (comes, later) ↦
            let (e2, run2, o2, five2, w2) =
              slave_hears true ack i s e1 h (omega arith) (or_true _) o1 in
            let next : suc i ≡ i + 1 = omega arith in
            let o2' = rw next at o2 in
            Opened-before sent1
              (round_lem (λ e'. recv_conn_slave e' true r.packet)
                  (after_receive wde r.expired rounds) run1 (rw comes run2)
                ∙ receive_goes_on wde r.expired true (i + 1) rounds s e2 (omega arith) o2')
              (w2 ∙ w1)
              (slave_rest wde r.expired ack n (i + 1) rounds s e2 open_ (omega arith) (omega arith)
                later o2' (five2 ∙ five1))
      ]

-- Before the first frame nothing happens, whatever the timer says.
slave_idles :
    (wde timer : Bool) (waits rounds : List Round) (s : Endpoint)
    → packets_in waits ≡ []
    → Opening s 1 s
    → (timer' : Bool) × (open_slave_loop wde s false timer (waits ++ rounds)
        ≡ open_slave_loop wde s false timer' rounds)
unfolding open_slave_loop recv_conn_slave
slave_idles wde timer [] rounds s h o = (timer, refl)
slave_idles wde timer (r ∷ waits) rounds s h o = elim (Option-cases (r.packet)) [
  | inl nothing ↦
      let (timer', run) =
        slave_idles wde r.expired waits rounds s (rw (nothing, packets_in) at h) o in
      (
        timer',
        round_lem {served = ok s} (λ e'. recv_conn_slave e' false r.packet)
              (after_receive wde r.expired (waits ++ rounds)) refl (rw nothing refl)
            ∙ receive_goes_on wde r.expired false 1 (waits ++ rounds) s s (omega arith) o
            ∙ run,
      )
  | inr (p, comes) ↦ absurd (let h' : p ∷ packets_in waits ≡ [] = rw (comes, packets_in) at h in cc)
]

served_loop :
    (wde : Bool) (rounds : List Round) (e e1 : Endpoint) (p : List ℕ) (ps : List (List ℕ))
    → packets_in rounds ≡ p ∷ ps
    → serve_conn_slave e ≡ ok e1
    → open_slave_loop wde e true true rounds ≡ open_slave_loop wde e1 true false rounds
unfolding open_slave_loop
served_loop wde [] e e1 p ps h run = cc
served_loop wde (r ∷ rounds) e e1 p ps h run = rw run refl

-- The loop, from the first frame on and over the waits before it.
slave_loop :
    (wde : Bool) (ack : ℕ) (waits : List Round) (r : Round) (rounds : List Round) (s : Endpoint)
    → IsInitial s
    → packets_in waits ≡ []
    → r.packet ≡ some (master_packet 1 ack)
    → r.expired ≡ true
    → packets_in rounds ≡ conn_packets type_open_connection 4 2 ack
    → (e : Endpoint) × (e.wire ≡ s.wire ++ burst type_normal 0)
      × Opened s e (open_slave_loop wde s false true (waits ++ r ∷ rounds))
unfolding open_slave_loop tloe_seqnum_prev
slave_loop wde ack waits r rounds s f idle comes late later =
    let o = initial-Opening f in
    let (timer, run0) = slave_idles wde true waits (r ∷ rounds) s idle o in
    let (e1, run1, o1, five1, w1) =
      slave_hears false ack 1 s s (omega arith) (omega arith) refl o in
    let (e2, run2, o2, five2, w2) = serves type_normal 2 s e1 f.handle_open o1 in
    let heard1 : recv_conn_slave s false r.packet ≡ ok (true, e1) = rw comes run1 in
    let run3 =
      round_lem {served = ok s} (λ e'. recv_conn_slave e' false r.packet)
        (after_receive wde r.expired rounds) refl heard1 in
    let run4 = receive_goes_on wde r.expired true 2 rounds s e1 (omega arith) o1 in
    let run5 = ap (λ t. open_slave_loop wde e1 true t rounds) late in
    let run6 =
      served_loop wde rounds e1 e2 (master_packet 2 ack) (conn_packets type_open_connection 3 3 ack)
        later (serve_slave_lem e1 ∙ run2) in
    (
      e2,
      w2
          ∙ ap (λ w. w ++ burst type_normal (tloe_seqnum_prev e1.next_rx_seq)) w1
          ∙ ap (λ n. s.wire ++ burst type_normal (tloe_seqnum_prev n)) o1.next_rx_seq,
      Opened-before {e = e2} {e1 = e2} [] (run0 ∙ run3 ∙ run4 ∙ run5 ∙ run6)
          (sym (append-nil e2.wire))
          (slave_rest wde false ack 3 2 rounds s e2 f.handle_open refl (omega arith) later o2
            five2),
    )

-- The frame behind the loop.
slave_ends :
    (wde : Bool) (rounds : List Round) {s e : Endpoint}
    → s.handle_open ≡ true
    → (o : Opened s e (open_slave_loop wde s false true rounds))
    → open_conn_slave wde s rounds
      ≡ ok (
        true,
        record (o.last) {
          wire = o.last.wire ++ packet_of (sent_frame type_ackonly 5 4 0 0) 6 ∷ [];
        },
      )
unfolding open_conn_slave tloe_seqnum_prev
slave_ends wde rounds open_ o =
    rw
      (
        o.ends,
        send_frame_lem (o.last) type_ackonly (o.last.next_tx_seq)
            (tloe_seqnum_prev (o.last.next_rx_seq)) 0 0 (o.all.queues.handle_open ∙ open_),
      )
      (ap (λ p. ok (true, record (o.last) { wire = o.last.wire ++ p ∷ [] }))
        (rw (o.next_tx_seq, o.all.next_rx_seq) refl))

-- todo
pub slave_opens :
    (wde : Bool) (ack : ℕ) (waits : List Round) (r : Round) (rounds : List Round) (s : Endpoint)
    → IsInitial s
    → packets_in waits ≡ []
    → r.packet ≡ some (master_packet 1 ack)
    → r.expired ≡ true
    → packets_in rounds ≡ conn_packets type_open_connection 4 2 ack
    → (s' : Endpoint) × (open_conn_slave wde s (waits ++ r ∷ rounds) ≡ ok (true, s'))
      × IsOpened s s' 5 (burst type_normal 0) (packet_of (sent_frame type_ackonly 5 4 0 0) 6)
slave_opens wde ack waits r rounds s f idle comes late later =
    let (e, w, o) = slave_loop wde ack waits r rounds s f idle comes late later in
    let last = packet_of (sent_frame type_ackonly 5 4 0 0) 6 in
    (
      record (o.last) { wire = o.last.wire ++ last ∷ [] },
      slave_ends wde (waits ++ r ∷ rounds) (f.handle_open) o,
      finish (burst type_normal 0) last (o.next_tx_seq) w o,
    )
