-- ===== src/Link/Preserve.antt =====
-- The invariant of a link under each kind of step that calls a function of tloe_transmitter.c or
-- tloe_receiver.c.
use omnixtend_c.Base.{
  ℕ, suc, ◌+◌, ◌-◌, ◌^◌, ◌≤◌, ◌<◌, ◌≡◌, ◌≢◌, refl, sym, ◌∙◌, arith, false, some, List, [], ◌∷◌,
  ◌++◌, append-nil, length, length-append, drop-append, take-append_le, ok, ◌⊎◌, inl, inr,
  same_result, get_elem?-lt, get_elem?-append, get_elem?-append_end,
}
use omnixtend_c.TlMsg.{TlMsg, channel_num, tlmsg_get_total_size}
use omnixtend_c.Frame.{Frame}
use omnixtend_c.Frame.Fields.{Fits}
use omnixtend_c.Frame.Packet.{packet_of}
use omnixtend_c.Frame.Carry.{IsWellSized}
use omnixtend_c.CircularQueue.{is_queue_full}
use omnixtend_c.CircularQueue.Contents.{contents}
use omnixtend_c.Endpoint.{Endpoint}
use omnixtend_c.Receiver.{rx}
use omnixtend_c.Transmitter.{tx_frame, tx_timeout, send_ackonly_frame}
use omnixtend_c.Link.{Link, KeepsWindow, new_packets}
use omnixtend_c.Link.Reply.{send_ackonly_lem}
use omnixtend_c.Link.Tagged.{Tagged, idle, under_way, append-Tagged, map-Tagged, behind-Tagged}
use omnixtend_c.Link.Stored.{Young, again-Tagged, numbered, numbered_later}
use omnixtend_c.Link.Invariant.{IsSender, IsReceiver, Inv, Answers}
use omnixtend_c.Link.Sender.{window_bound, send-IsSender, resend-IsSender, acknowledged-IsSender}
use omnixtend_c.Link.Receiver.{keeps-IsReceiver, receive-IsReceiver}

module _ (first : ℕ) where
  given-IsReceiver :
      (b : Endpoint) (given taken : List TlMsg) (got : ℕ) (m : TlMsg)
      → got ≤ length given
      → IsReceiver first b given taken got
      → IsReceiver first b (given ++ m ∷ []) taken got
  given-IsReceiver b given taken got m h s = record {
    handle_open = s.handle_open;
    messages = s.messages;
    room = s.room;
    acks = s.acks;
    next_rx_seq = s.next_rx_seq;
    delivered = s.delivered ∙ sym (take-append_le got given (m ∷ []) h);
  }

  given-Young :
      (given : List TlMsg) (m : TlMsg) (got c : ℕ) (p : List ℕ)
      → Young first given got c p
      → Young first (given ++ m ∷ []) got c p
  given-Young given m got c p ((m', k, f, e, ep, d), y) =
      ((m', k, f, get_elem?-append given (m ∷ []) c e, ep, d), y)

  module _ (l : Link) (i : Inv first l) where
    pub send-Inv :
        (m : TlMsg) (chan : ℕ) {a' : Endpoint}
        → IsWellSized m
        → tlmsg_get_total_size m ≤ 40
        → is_queue_full l.a.retransmit_buffer ≡ false
        → chan < channel_num
        → (chan ≡ 0) ⊎ (0 < l.a.fc.tx_flow_credits chan)
        → l.a.fc.tx_flow_credits chan < 2 ^ 32
        → tx_frame l.a (some m) chan ≡ ok a'
        → Inv first
            (record l { a = a'; to_b = l.to_b ++ new_packets l.a a'; given = l.given ++ m ∷ [] })
    send-Inv m chan w short notfull inside owed bound h =
        let (s, f, out, d) =
          send-IsSender first l.a l.given i.base i.sender m chan w short notfull inside owed bound
            h in
        record {
          base = i.base;
          got = i.got;
          numbers = i.numbers ++ length l.given ∷ [];
          answers = i.answers;
          sender = s;
          receiver = given-IsReceiver l.b l.given l.taken i.got m (i.got-le-given) (i.receiver);
          base-le-got = i.base-le-got;
          got-le-given = omega (arith, i.got-le-given, length-append l.given (m ∷ []));
          flight = rw out (
              append-Tagged (Young first (l.given ++ m ∷ []) i.got) (λ c d. c ≤ d + 3)
                (λ c p y. (
                  omega (
                    arith,
                    get_elem?-lt (l.given ++ m ∷ []) c (y.0.3),
                    length-append l.given (m ∷ []),
                  ),
                  tt,
                ))
                (map-Tagged (Young first l.given i.got) (Young first (l.given ++ m ∷ []) i.got)
                  (λ c d. c ≤ d + 3) (given-Young l.given m i.got) (i.flight))
                (under_way
                  (
                    (m, 6, f, get_elem?-append_end l.given m, refl, d),
                    omega (arith, i.got-le-given),
                  )
                  tt idle));
          way_back = i.way_back;
        }

    pub resend-Inv :
        {a' : Endpoint}
        → tx_timeout l.a ≡ ok a'
        → Inv first (record l { a = a'; to_b = l.to_b ++ new_packets l.a a' })
    resend-Inv h =
        let (s, out) = resend-IsSender first l.a l.given i.base i.sender h in
        let bound = window_bound first l.a l.given i.base i.sender in
        let w = contents l.a.retransmit_buffer in
        elim out [
          | inl silent ↦ record {
            base = i.base;
            got = i.got;
            numbers = i.numbers;
            answers = i.answers;
            sender = s;
            receiver = i.receiver;
            base-le-got = i.base-le-got;
            got-le-given = i.got-le-given;
            flight = rw (silent, append-nil) (i.flight);
            way_back = i.way_back;
          }
          | inr all ↦ record {
            base = i.base;
            got = i.got;
            numbers = i.numbers ++ numbered first i.base w;
            answers = i.answers;
            sender = s;
            receiver = i.receiver;
            base-le-got = i.base-le-got;
            got-le-given = i.got-le-given;
            flight = rw all (
                append-Tagged (Young first l.given i.got) (λ c d. c ≤ d + 3)
                  (λ c p y.
                    numbered_later first c i.base w
                      (omega (arith, get_elem?-lt l.given c (y.0.3), bound)))
                  i.flight
                  (again-Tagged first l.a l.given i.got i.base w
                    (omega (arith, bound, i.got-le-given)) (i.sender.stored)));
            way_back = i.way_back;
          }
        ]

    pub receive-Inv :
        {p : List ℕ} {ps : List (List ℕ)} {cs : List ℕ} {b' : Endpoint}
        → Tagged (Young first l.given i.got) (λ c d. c ≤ d + 3) (p ∷ ps) cs
        → length (contents l.b.tl_msg_buffer) ≢ l.b.tl_msg_buffer.size - 1
        → length (contents l.b.ack_buffer) ≢ l.b.ack_buffer.size - 1
        → rx l.b (some p) ≡ ok b'
        → Inv first (record l { b = b'; to_b = ps })
    receive-Inv (under_way {c} {ps} {cs} ((m, k, f, here, ep, d), young) later t) room space h =
        let bound = window_bound first l.a l.given i.base i.sender in
        let lt = get_elem?-lt l.given c here in
        elim (receive-IsReceiver first l.b l.given l.taken i.got i.receiver c m k f here d young
          (omega (arith, bound, lt, i.base-le-got)) room space (rw ep at h)) [
            | inl r ↦ record {
              base = i.base;
              got = i.got;
              numbers = cs;
              answers = i.answers;
              sender = i.sender;
              receiver = r;
              base-le-got = i.base-le-got;
              got-le-given = i.got-le-given;
              flight = t;
              way_back = i.way_back;
            }
            | inr (e, r) ↦ record {
              base = i.base;
              got = suc i.got;
              numbers = cs;
              answers = i.answers;
              sender = i.sender;
              receiver = r;
              base-le-got = omega (arith, i.base-le-got);
              got-le-given = omega (arith, lt, e);
              flight =
                  behind-Tagged (Young first l.given i.got) (Young first l.given (suc i.got))
                    (λ c d. c ≤ d + 3) c (λ d p r y. (y.0, omega (arith, r, e))) t later;
              way_back =
                  map-Tagged (Answers first i.base i.got) (Answers first i.base (suc i.got)) ◌≤◌
                    (λ v p (g, eg, r, old, few). (g, eg, r, old, omega (arith, few))) (i.way_back);
            }
          ]

    pub reply-Inv :
        (garbage : Frame) {b' : Endpoint}
        → Fits garbage.header
        → 48 ≤ length garbage.flits
        → send_ackonly_frame garbage l.b ≡ ok b'
        → Inv first (record l { b = b'; to_a = l.to_a ++ new_packets l.b b' })
    reply-Inv garbage fits held h =
        let (f, r, run) =
          send_ackonly_lem garbage l.b fits held (first + i.got) (i.receiver.handle_open)
            (i.receiver.next_rx_seq) in
        rw (same_result h run) record {
          base = i.base;
          got = i.got;
          numbers = i.numbers;
          answers = i.answers ++ i.got ∷ [];
          sender = i.sender;
          receiver = keeps-IsReceiver first l.b l.given l.taken i.got i.receiver record {
            tl_msg_buffer = refl;
            next_rx_seq = refl;
            acks = i.receiver.acks;
            handle_open = refl;
          };
          base-le-got = i.base-le-got;
          got-le-given = i.got-le-given;
          flight = i.flight;
          way_back = rw (drop-append l.b.wire (packet_of f 6 ∷ []) (length l.b.wire) refl) (
              append-Tagged (Answers first i.base i.got) ◌≤◌ (λ v p y. (y.4, tt)) i.way_back
                (under_way (f, refl, r, i.base-le-got, omega arith) tt idle));
        }

    pub acknowledged-Inv :
        {p : List ℕ} {ps : List (List ℕ)} {vs : List ℕ} {a' : Endpoint}
        → Tagged (Answers first i.base i.got) ◌≤◌ (p ∷ ps) vs
        → rx l.a (some p) ≡ ok a'
        → Inv first (record l { a = a'; to_a = ps })
    acknowledged-Inv (under_way {c = v} {cs = vs} (f, ep, r, old, few) later t) h = record {
      base = v;
      got = i.got;
      numbers = i.numbers;
      answers = vs;
      sender =
          acknowledged-IsSender first l.a l.given i.base i.sender v f r old
            (omega (arith, few, i.got-le-given)) (rw ep at h);
      receiver = i.receiver;
      base-le-got = few;
      got-le-given = i.got-le-given;
      flight = i.flight;
      way_back =
          behind-Tagged (Answers first i.base i.got) (Answers first v i.got) ◌≤◌ v
            (λ w p o (g, eg, rg, _, few'). (g, eg, rg, o, few')) t later;
    }

    pub work-IsSender : {a' : Endpoint} → KeepsWindow l.a a' → IsSender first a' l.given i.base
    work-IsSender k = record {
      handle_open = k.handle_open ∙ i.sender.handle_open;
      window = rw (k.retransmit_buffer) (i.sender.window);
      slots = rw (k.retransmit_buffer) (i.sender.slots);
      acks = k.acks;
      next_tx_seq = k.next_tx_seq ∙ i.sender.next_tx_seq;
      stored = rw (k.retransmit_buffer) (i.sender.stored);
      all_given = rw (k.retransmit_buffer) (i.sender.all_given);
    }
