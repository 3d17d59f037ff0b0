-- ===== src/Connection/Master.antt =====
-- tloe_connection.c: `open_conn_master` with a slave that sends its frames in order.
use omnixtend_c.Base.{
  ℕ, zero, suc, ◌+◌, ◌-◌, ◌%◌, ◌^◌, ◌≤◌, ◌≡◌, refl, sym, ap, ◌∙◌, arith, Bool, true, false, ◌||◌,
  some, none, List, [], ◌∷◌, ◌++◌, append-nil, Outcome, ok, if◌then◌else◌, is_negative, is_positive,
  inl, inr, ◌==◌,
}
use omnixtend_c.TlMsg.{channel_a}
use omnixtend_c.Frame.{type_normal, type_open_connection}
use omnixtend_c.Frame.Packet.{packet_of}
use omnixtend_c.SeqNum.{tloe_seqnum_cmp, tloe_seqnum_prev, tloe_seqnum_next, max_seq_num}
use omnixtend_c.SeqNum.Order.{next_lem}
use omnixtend_c.FlowControl.{credit_default, check_all_channels}
use omnixtend_c.Endpoint.{Endpoint, tloe_seqnum_next_tx_seq_inc}
use omnixtend_c.Connection.{
  Round, recv_conn_master, serve_conn_master, open_master_loop, open_conn_master, serve_from,
  conn_frame,
}
use omnixtend_c.Connection.Frames.{sent_frame, heard, conn_packets, send_frame_lem}
use omnixtend_c.Connection.Waiting.{
  packets_in, Opening, check_waits, check_ends, burst, serves, may_serve, takes, initial-Opening,
  finish, IsInitial, IsOpened, next_packet, Opened, Opened-before, round_lem,
}

abbrev slave_packet : ℕ → ℕ → List ℕ
slave_packet i ack =
    packet_of
      (sent_frame (if i == channel_a then type_normal else type_normal) (i - 1) ack i
        credit_default)
      6

cmp_same :
    (a : ℕ) → (is_negative (tloe_seqnum_cmp a a) || is_positive (tloe_seqnum_cmp a a)) ≡ false
unfolding tloe_seqnum_cmp
cmp_same a = let none_ : (a + 2 ^ 32 - a) % 2 ^ 32 ≡ 0 = omega arith in rw none_ refl

-- The frame with the number that is waited for is taken.
master_hears :
    (ack i : ℕ) (s e : Endpoint)
    → 1 ≤ i
    → i ≤ 5
    → Opening s i e
    → (e' : Endpoint) × (recv_conn_master e (some (slave_packet i ack)) ≡ ok e')
      × Opening s (suc i) e'
      × (e'.next_tx_seq ≡ e.next_tx_seq)
      × (e'.wire ≡ e.wire)
unfolding recv_conn_master conn_frame
master_hears ack i s e h h' o =
    let type = if i == channel_a then type_normal else type_normal in
    let (e', run, o', five, w) = takes type ack i s e h h' o in
    let number : (i - 1) % 2 ^ 22 ≡ e.next_rx_seq = omega (arith, o.next_rx_seq) in
    let order = tloe_seqnum_cmp ((i - 1) % 2 ^ 22) e.next_rx_seq in
    let in_order : (is_negative order || is_positive order) ≡ false =
      rw number (cmp_same e.next_rx_seq) in
    (e', rw (heard type (i - 1) ack i credit_default, in_order, run) refl, o', five, w)

-- The master's loop behind a receive.
abbrev after_receive : Bool → Bool → List Round → Endpoint → Outcome (Bool × Endpoint)
after_receive wde timer rounds e = elim (check_all_channels wde e.fc) [
  | true ↦ ok (true, e)
  | false ↦ open_master_loop wde e timer rounds
]

receive_ends :
    (wde timer : Bool) (rounds : List Round) (s e : Endpoint)
    → Opening s 6 e
    → after_receive wde timer rounds e ≡ ok (true, e)
receive_ends wde timer rounds s e o = rw (check_ends wde o, after_receive) refl

receive_goes_on :
    (wde timer : Bool) (i : ℕ) (rounds : List Round) (s e : Endpoint)
    → i ≤ 5
    → Opening s i e
    → after_receive wde timer rounds e ≡ open_master_loop wde e timer rounds
receive_goes_on wde timer i rounds s e h o = rw (check_waits wde i h o, after_receive) refl

serve_master_lem : (e : Endpoint) → serve_conn_master e ≡ serve_from type_open_connection 5 1 e
unfolding serve_conn_master
serve_master_lem e = refl

-- A round in which nothing comes.
master_waits :
    (wde timer : Bool) (i : ℕ) (r : Round) (rounds : List Round) (s e e1 : Endpoint)
    → i ≤ 5
    → (if timer then serve_conn_master e else ok e) ≡ ok e1
    → Opening s i e1
    → r.packet ≡ none
    → open_master_loop wde e timer (r ∷ rounds) ≡ open_master_loop wde e1 r.expired rounds
unfolding open_master_loop recv_conn_master
master_waits wde timer i r rounds s e e1 h run1 o1 nothing =
    round_lem (λ e'. recv_conn_master e' r.packet) (after_receive wde r.expired rounds) run1
      (rw nothing refl)
    ∙ receive_goes_on wde r.expired i rounds s e1 h o1

-- The rounds of a master that has sent its frames, from channel `i` on.
master_rest :
    (wde timer : Bool) (ack n i : ℕ) (rounds : List Round) (s e : Endpoint)
    → s.handle_open ≡ true
    → i + suc n ≡ 6
    → 1 ≤ i
    → packets_in rounds ≡ conn_packets type_normal (suc n) i ack
    → Opening s i e
    → e.next_tx_seq ≡ 5
    → Opened s e (open_master_loop wde e timer rounds)
unfolding open_master_loop
master_rest wde timer ack n i [] s e open_ low h ps o five = cc
master_rest wde timer ack zero i (r ∷ rounds) s e open_ low h ps o five =
    let (e1, sent1, run1, o1, five1, w1) =
      may_serve type_open_connection i serve_conn_master timer s e open_ (serve_master_lem e) o
        five in
    elim (next_packet r rounds (slave_packet i ack) [] ps) [
      | inl (nothing, later) ↦
          Opened-before sent1
            (master_waits wde timer i r rounds s e e1 (omega arith) run1 o1 nothing) w1
            (master_rest wde r.expired ack zero i rounds s e1 open_ low h later o1 five1)
      | inr (comes, later) ↦
          let (e2, run2, o2, five2, w2) = master_hears ack i s e1 h (omega arith) o1 in
          let end_ : suc i ≡ 6 = omega arith in
          let all = rw end_ at o2 in
          record {
            last = e2;
            sent = sent1;
            ends =
                round_lem (λ e'. recv_conn_master e' r.packet) (after_receive wde r.expired rounds)
                  run1 (rw comes run2)
                ∙ receive_ends wde r.expired rounds s e2 all;
            all = all;
            next_tx_seq = five2 ∙ five1;
            wire = w2 ∙ w1;
          }
    ]
master_rest wde timer ack (suc n) i (r ∷ rounds) s e open_ low h ps o five =
    let (e1, sent1, run1, o1, five1, w1) =
      may_serve type_open_connection i serve_conn_master timer s e open_ (serve_master_lem e) o
        five in
    elim (next_packet r rounds (slave_packet i ack) (conn_packets type_normal (suc n) (i + 1) ack)
      ps) [
        | inl (nothing, later) ↦
            Opened-before sent1
              (master_waits wde timer i r rounds s e e1 (omega arith) run1 o1 nothing) w1
              (master_rest wde r.expired ack (suc n) i rounds s e1 open_ low h later o1 five1)
        | inr (comes, later) ↦
            let (e2, run2, o2, five2, w2) = master_hears ack i s e1 h (omega arith) o1 in
            let next : suc i ≡ i + 1 = omega arith in
            let o2' = rw next at o2 in
            Opened-before sent1
              (round_lem (λ e'. recv_conn_master e' r.packet) (after_receive wde r.expired rounds)
                  run1 (rw comes run2)
                ∙ receive_goes_on wde r.expired (i + 1) rounds s e2 (omega arith) o2')
              (w2 ∙ w1)
              (master_rest wde r.expired ack n (i + 1) rounds s e2 open_ (omega arith) (omega arith)
                later o2' (five2 ∙ five1))
      ]

served_loop :
    (wde : Bool) (rounds : List Round) (e e1 : Endpoint) (p : List ℕ) (ps : List (List ℕ))
    → packets_in rounds ≡ p ∷ ps
    → serve_conn_master e ≡ ok e1
    → open_master_loop wde e true rounds ≡ open_master_loop wde e1 false rounds
unfolding open_master_loop
served_loop wde [] e e1 p ps h run = cc
served_loop wde (r ∷ rounds) e e1 p ps h run = rw run refl

-- The frame behind the loop.
master_ends :
    (wde : Bool) (rounds : List Round) {s e : Endpoint}
    → s.handle_open ≡ true
    → (o : Opened s e (open_master_loop wde s true rounds))
    → open_conn_master wde s rounds
      ≡ ok (
        true,
        record (o.last) {
          wire = o.last.wire ++ packet_of (sent_frame type_normal 5 4 0 0) 6 ∷ [];
          next_tx_seq = tloe_seqnum_next (o.last.next_tx_seq);
        },
      )
unfolding open_conn_master tloe_seqnum_prev tloe_seqnum_next_tx_seq_inc
master_ends wde rounds open_ o =
    let e = o.last in
    rw
      (
        o.ends,
        send_frame_lem e type_normal e.next_tx_seq (tloe_seqnum_prev e.next_rx_seq) 0 0
            (o.all.queues.handle_open ∙ open_),
      )
      (ap
        (λ p. ok (
          true,
          record e { wire = e.wire ++ p ∷ []; next_tx_seq = tloe_seqnum_next e.next_tx_seq },
        ))
        (rw (o.next_tx_seq, o.all.next_rx_seq) refl))

-- todo
pub master_opens :
    (wde : Bool) (ack : ℕ) (rounds : List Round) (s : Endpoint)
    → IsInitial s
    → packets_in rounds ≡ conn_packets type_normal 5 1 ack
    → (s' : Endpoint) × (open_conn_master wde s rounds ≡ ok (true, s'))
      × IsOpened s s' 6
          (burst type_open_connection max_seq_num)
          (packet_of (sent_frame type_normal 5 4 0 0) 6)
unfolding tloe_seqnum_prev
master_opens wde ack rounds s f comes =
    let (e1, run1, o1, five1, w1) =
      serves type_open_connection 1 s s f.handle_open (initial-Opening f) in
    let rest =
      master_rest wde false ack 4 1 rounds s e1 f.handle_open refl (omega arith) comes o1 five1 in
    let o =
      Opened-before {e = e1} {e1 = e1} []
        (served_loop wde rounds s e1 (slave_packet 1 ack) (conn_packets type_normal 4 2 ack) comes
          (serve_master_lem s ∙ run1))
        (sym (append-nil e1.wire)) rest in
    let last = packet_of (sent_frame type_normal 5 4 0 0) 6 in
    let w =
      w1 ∙ ap (λ n. s.wire ++ burst type_open_connection (tloe_seqnum_prev n)) f.next_rx_seq in
    (
      record (o.last) {
        wire = o.last.wire ++ last ∷ [];
        next_tx_seq = tloe_seqnum_next (o.last.next_tx_seq);
      },
      master_ends wde rounds (f.handle_open) o,
      finish (burst type_open_connection max_seq_num) last
          (ap tloe_seqnum_next (o.next_tx_seq) ∙ next_lem 5) w o,
    )
