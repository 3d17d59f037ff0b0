-- ===== src/Connection/Waiting.antt =====
-- tloe_connection.c: what both sides keep while they wait for the credits of the other.
use omnixtend_c.Base.{
  ℕ, suc, ◌-◌, ◌%◌, ◌^◌, ◌≤◌, ◌<◌, ◌≡◌, refl, sym, ap, ◌∙◌, arith, Bool, true, false, none, some,
  List, [], ◌∷◌, ◌++◌, append-nil, Outcome, ok, ◌>>=◌, if◌then◌else◌, ◌==◌, lt→ltb, ne→==, ==→ne,
  Bool-cases, inl, inr, ◌⊎◌, Option-cases, append_assoc,
}
use omnixtend_c.TlMsg.{channel_num}
use omnixtend_c.Frame.{zero_frame}
use omnixtend_c.Frame.Packet.{received}
use omnixtend_c.SeqNum.{tloe_seqnum_prev}
use omnixtend_c.SeqNum.Order.{next_lem}
use omnixtend_c.FlowControl.{
  Flowcontrol, credit_default, credit_init, update, set_credit, check_all_channels,
}
use omnixtend_c.Endpoint.{Endpoint, tloe_seqnum_update_next_rx_seq, tloe_seqnum_update_acked_seq}
use omnixtend_c.Connection.{Round, take_credit, conn_frame, serve_from}
use omnixtend_c.Connection.Frames.{sent_frame, conn_packets, serve_from_lem}

-- The packets that come in the rounds, the waits left out.
abbrev pub packets_in : List Round → List (List ℕ)
packets_in [] = []
packets_in (r ∷ rounds) = elim (r.packet) [
  | none ↦ packets_in rounds
  | some p ↦ p ∷ packets_in rounds
]

-- The queues and the handle stay.
pub record KeepsQueues (e e' : Endpoint) : Type 0 where
  pub retransmit_buffer : e'.retransmit_buffer ≡ e.retransmit_buffer
  pub message_buffer : e'.message_buffer ≡ e.message_buffer
  pub ack_buffer : e'.ack_buffer ≡ e.ack_buffer
  pub tl_msg_buffer : e'.tl_msg_buffer ≡ e.tl_msg_buffer
  pub response_buffer : e'.response_buffer ≡ e.response_buffer
  pub handle_open : e'.handle_open ≡ e.handle_open

-- The endpoint that was `s` at first waits for the credit of channel `i` and of those behind it.
pub record Opening (s : Endpoint) (i : ℕ) (e : Endpoint) : Type 0 where
  pub queues : KeepsQueues s e
  pub before : (c : ℕ) → 1 ≤ c → c < i → e.fc.credits c ≡ 2 ^ credit_default
  pub behind : (c : ℕ) → i ≤ c → c < channel_num → e.fc.credits c ≡ 2 ^ credit_init
  pub next_rx_seq : e.next_rx_seq ≡ i - 1

-- Without the credit of channel E the loop goes on; with all of them it ends.
pub check_waits :
    (wde : Bool) {s e : Endpoint} (i : ℕ)
    → i ≤ 5
    → Opening s i e
    → check_all_channels wde e.fc ≡ false
unfolding check_all_channels
check_waits true i h o = ground (arith, o.behind 5)
check_waits false i h o = ground (arith, o.behind 5)

pub check_ends : (wde : Bool) {s e : Endpoint} → Opening s 6 e → check_all_channels wde e.fc ≡ true
unfolding check_all_channels
check_ends true o =
    rw
      (
        o.before 1 (omega arith) (omega arith),
        o.before 3 (omega arith) (omega arith),
        o.before 5 (omega arith) (omega arith),
      )
      refl
check_ends false o =
    rw
      (
        o.before 1 (omega arith) (omega arith),
        o.before 2 (omega arith) (omega arith),
        o.before 3 (omega arith) (omega arith),
        o.before 4 (omega arith) (omega arith),
        o.before 5 (omega arith) (omega arith),
      )
      refl

-- The five frames of either side.
abbrev pub burst : ℕ → ℕ → List (List ℕ)
burst opens ack = conn_packets opens 5 1 ack

pub serves :
    (opens i : ℕ) (s e : Endpoint)
    → s.handle_open ≡ true
    → Opening s i e
    → (e' : Endpoint) × (serve_from opens 5 1 e ≡ ok e')
      × Opening s i e'
      × (e'.next_tx_seq ≡ 5)
      × (e'.wire ≡ e.wire ++ burst opens (tloe_seqnum_prev e.next_rx_seq))
serves opens i s e open_ o = (
  record e { wire = e.wire ++ burst opens (tloe_seqnum_prev e.next_rx_seq); next_tx_seq = 5 },
  serve_from_lem opens 5 1 e (o.queues.handle_open ∙ open_),
  record {
    queues = record {
      retransmit_buffer = o.queues.retransmit_buffer;
      message_buffer = o.queues.message_buffer;
      ack_buffer = o.queues.ack_buffer;
      tl_msg_buffer = o.queues.tl_msg_buffer;
      response_buffer = o.queues.response_buffer;
      handle_open = o.queues.handle_open;
    };
    before = o.before;
    behind = o.behind;
    next_rx_seq = o.next_rx_seq;
  },
  refl,
  refl,
)

-- The same for a side's loop, where it depends on the timer.
pub may_serve :
    (opens i : ℕ) (serve : Endpoint → Outcome Endpoint) (timer : Bool) (s e : Endpoint)
    → s.handle_open ≡ true
    → serve e ≡ serve_from opens 5 1 e
    → Opening s i e
    → e.next_tx_seq ≡ 5
    → (e' : Endpoint) × (sent : List (List ℕ)) × ((if timer then serve e else ok e) ≡ ok e')
      × Opening s i e'
      × (e'.next_tx_seq ≡ 5)
      × (e'.wire ≡ e.wire ++ sent)
may_serve opens i serve true s e open_ same o five =
    let (e', run, o', five', w) = serves opens i s e open_ o in
    (e', burst opens (tloe_seqnum_prev e.next_rx_seq), same ∙ run, o', five', w)
may_serve opens i serve false s e open_ same o five =
    (e, [], refl, o, five, sym (append-nil e.wire))

abbrev credited : Flowcontrol → ℕ → Flowcontrol
credited fc chan = record fc {
  credits = update fc.credits chan (2 ^ credit_default);
  tx_flow_credits = update fc.tx_flow_credits chan 0;
}

set_credit_lem :
    (fc : Flowcontrol) (chan : ℕ)
    → chan < channel_num
    → set_credit fc (chan % 2 ^ 3) (credit_default % 2 ^ 5) ≡ ok (credited fc chan)
unfolding set_credit
set_credit_lem fc chan inside =
    let same : chan % 2 ^ 3 ≡ chan = omega arith in rw (same, lt→ltb chan channel_num inside) refl

-- The frame for channel `i` is taken.
pub takes :
    (type ack i : ℕ) (s e : Endpoint)
    → 1 ≤ i
    → i ≤ 5
    → Opening s i e
    → (e' : Endpoint) × (take_credit e
          (received (sent_frame type (i - 1) ack i credit_default) 6 (zero_frame 520))
        ≡ ok e')
      × Opening s (suc i) e'
      × (e'.next_tx_seq ≡ e.next_tx_seq)
      × (e'.wire ≡ e.wire)
unfolding take_credit conn_frame tloe_seqnum_update_next_rx_seq tloe_seqnum_update_acked_seq
takes type ack i s e h h' o =
    let g = received (sent_frame type (i - 1) ack i credit_default) 6 (zero_frame 520) in
    (
      tloe_seqnum_update_acked_seq
          (tloe_seqnum_update_next_rx_seq (record e { fc = credited e.fc i }) g) g,
      rw (set_credit_lem e.fc i (omega arith)) refl,
      record {
        queues = record {
          retransmit_buffer = o.queues.retransmit_buffer;
          message_buffer = o.queues.message_buffer;
          ack_buffer = o.queues.ack_buffer;
          tl_msg_buffer = o.queues.tl_msg_buffer;
          response_buffer = o.queues.response_buffer;
          handle_open = o.queues.handle_open;
        };
        before = λ c h1 h2. elim (Bool-cases (i == c)) [
          | inl same ↦ rw same refl
          | inr other ↦ rw other (o.before c h1 (omega (arith, ==→ne i c other)))
        ];
        behind = λ c h1 h2. rw (ne→== i c (omega arith)) (o.behind c (omega arith) h2);
        next_rx_seq = next_lem ((i - 1) % 2 ^ 22) ∙ omega arith;
      },
      refl,
      refl,
    )

-- A round of either loop: what may be served, the receive, and what comes after.
pub round_lem :
    {C R : Type 0} {served : Outcome Endpoint} {e1 : Endpoint} {c : C}
    (receive : Endpoint → Outcome C) (after : C → Outcome R)
    → served ≡ ok e1
    → receive e1 ≡ ok c
    → (served >>= λ e'. receive e' >>= after) ≡ after c
round_lem receive after s r = rw (s, r) refl

-- The next packet comes now or later.
pub next_packet :
    (r : Round) (rounds : List Round) (p : List ℕ) (ps : List (List ℕ))
    → packets_in (r ∷ rounds) ≡ p ∷ ps
    → ((r.packet ≡ none) × (packets_in rounds ≡ p ∷ ps))
      ⊎ ((r.packet ≡ some p) × (packets_in rounds ≡ ps))
next_packet r rounds p ps h = elim (Option-cases (r.packet)) [
  | inl none_ ↦ inl (none_, rw (none_, packets_in) at h)
  | inr (p', some_) ↦
      let h' : p' ∷ packets_in rounds ≡ p ∷ ps = rw (some_, packets_in) at h in inr (cc, cc)
]

-- A loop of the endpoint that was `s` at first, now at `e`, ends with all credits.
pub record Opened (s e : Endpoint) (run : Outcome (Bool × Endpoint)) : Type 0 where
  pub last : Endpoint
  pub sent : List (List ℕ)
  pub ends : run ≡ ok (true, last)
  pub all : Opening s 6 last
  pub next_tx_seq : last.next_tx_seq ≡ 5
  pub wire : last.wire ≡ e.wire ++ sent

-- What is known of the rest of a loop, from behind a round on.
pub Opened-before :
    {s e e1 : Endpoint} {run run1 : Outcome (Bool × Endpoint)} (sent1 : List (List ℕ))
    → run ≡ run1
    → e1.wire ≡ e.wire ++ sent1
    → Opened s e1 run1
    → Opened s e run
Opened-before {e} sent1 same w o = record {
  last = o.last;
  sent = sent1 ++ o.sent;
  ends = same ∙ o.ends;
  all = o.all;
  next_tx_seq = o.next_tx_seq;
  wire = o.wire ∙ ap (λ x. x ++ o.sent) w ∙ append_assoc e.wire sent1 o.sent;
}

-- A side that was `s` is open as `s'`: all channels have the peer's credits, the peer's five frames
-- are counted, and `first`, what was sent again and `last` were sent.
pub record IsOpened (s s' : Endpoint) (next_tx : ℕ) (first : List (List ℕ)) (last : List ℕ)
    : Type 0 where
  pub credits : (c : ℕ) → 1 ≤ c → c < channel_num → s'.fc.credits c ≡ 2 ^ credit_default
  pub queues : KeepsQueues s s'
  pub next_rx_seq : s'.next_rx_seq ≡ 5
  pub next_tx_seq : s'.next_tx_seq ≡ next_tx
  pub again : List (List ℕ)
  pub wire : s'.wire ≡ s.wire ++ (first ++ (again ++ last ∷ []))

-- An endpoint as `tloe_endpoint_init` and `tloe_fabric_open` leave it.
pub record IsInitial (s : Endpoint) : Type 0 where
  pub handle_open : s.handle_open ≡ true
  pub credits : (c : ℕ) → c < channel_num → s.fc.credits c ≡ 2 ^ credit_init
  pub next_rx_seq : s.next_rx_seq ≡ 0

pub initial-Opening : {s : Endpoint} → IsInitial s → Opening s 1 s
initial-Opening f = record {
  queues = record {
    retransmit_buffer = refl;
    message_buffer = refl;
    ack_buffer = refl;
    tl_msg_buffer = refl;
    response_buffer = refl;
    handle_open = refl;
  };
  before = λ c h1 h2. absurd (omega arith);
  behind = λ c h1 h2. f.credits c h2;
  next_rx_seq = f.next_rx_seq;
}

-- The loop has ended, and `last` is sent.
pub finish :
    {s e : Endpoint} {run : Outcome (Bool × Endpoint)} (first : List (List ℕ)) (last : List ℕ)
    {n next_tx : ℕ}
    → n ≡ next_tx
    → e.wire ≡ s.wire ++ first
    → (o : Opened s e run)
    → IsOpened s
        (record (o.last) { wire = o.last.wire ++ last ∷ []; next_tx_seq = n })
        next_tx
        first
        last
finish {s} first last tx w o = record {
  credits = o.all.before;
  queues = record {
    retransmit_buffer = o.all.queues.retransmit_buffer;
    message_buffer = o.all.queues.message_buffer;
    ack_buffer = o.all.queues.ack_buffer;
    tl_msg_buffer = o.all.queues.tl_msg_buffer;
    response_buffer = o.all.queues.response_buffer;
    handle_open = o.all.queues.handle_open;
  };
  next_rx_seq = o.all.next_rx_seq;
  next_tx_seq = tx;
  again = o.sent;
  wire =
      ap (λ x. x ++ last ∷ []) (o.wire ∙ ap (λ x. x ++ o.sent) w)
      ∙ append_assoc (s.wire ++ first) o.sent (last ∷ [])
      ∙ append_assoc s.wire first (o.sent ++ last ∷ []);
}
