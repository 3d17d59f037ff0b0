-- ===== src/Link/Progress.antt =====
-- Runs of a link without a new message: losses, what the receiver (tloe_receiver.c) makes of a run of
-- packets, and what its handlers take.
use mathlib.Core.Path.{subst}
use omnixtend_c.Base.{
  ℕ, suc, ◌+◌, ◌-◌, ◌%◌, ◌^◌, ◌≤◌, ◌≡◌, ◌≢◌, refl, sym, ap, ◌∙◌, arith, some, none, List, [], ◌∷◌,
  ◌++◌, append-nil, append_assoc, length, length-append, length-take, ok, inl, inr, replicate,
  Bool-cases, ◌==◌, ==→eq, ==→ne,
}
use omnixtend_c.TlMsg.{TlMsg}
use omnixtend_c.Frame.{Frame}
use omnixtend_c.CircularQueue.{CircularQueue, dequeue}
use omnixtend_c.CircularQueue.Contents.{IsValid, contents}
use omnixtend_c.CircularQueue.Laws.{dequeue_refines}
use omnixtend_c.Endpoint.{Endpoint}
use omnixtend_c.Receiver.{rx}
use omnixtend_c.Link.{Link, receive, take_up, lose_to_b, work_b, Reach, next, Steps, here, further}
use omnixtend_c.Link.Tagged.{remove}
use omnixtend_c.Link.Receive.{KeepsTaken, rx_awaited, rx_old}
use omnixtend_c.Link.Stored.{IsPacket}
use omnixtend_c.Link.Invariant.{IsReceiver}
use omnixtend_c.Link.Delivery.{Reach-Inv}

-- how many messages the receiver has
abbrev pub received : Link → ℕ
received l = length (l.taken ++ contents l.b.tl_msg_buffer)

pub Steps-trans : {l l' l'' : Link} → Steps l l' → Steps l' l'' → Steps l l''
Steps-trans s here = s
Steps-trans s (further t u) = further (Steps-trans s t) u

module _ (first : ℕ) where
  pub Reach-Steps : {l l' : Link} → Reach first l → Steps l l' → Reach first l'
  Reach-Steps r here = r
  Reach-Steps r (further s t) = next (Reach-Steps r s) t

  -- The media lose all that is under way to the receiver.
  pub emptied : (ps : List (List ℕ)) (l : Link) → l.to_b ≡ ps → Steps l (record l { to_b = [] })
  emptied [] l e = subst (λ ps. Steps l (record l { to_b = ps })) e here
  emptied (p ∷ ps) l e =
      Steps-trans
        (subst (λ qs. Steps l (record l { to_b = remove 0 qs })) e (further here (lose_to_b 0)))
        (emptied ps (record l { to_b = ps }) refl)

  -- The handlers take all messages out of the queue.
  pub drained :
      (ms : List TlMsg) (l : Link)
      → contents l.b.tl_msg_buffer ≡ ms
      → IsValid l.b.tl_msg_buffer
      → (l' : Link) × Steps l l'
        × (l'.given ≡ l.given)
        × (l'.to_b ≡ l.to_b)
        × (contents l'.b.tl_msg_buffer ≡ [])
        × (l'.taken ≡ l.taken ++ ms)
  drained [] l e v = (l, here, refl, refl, e, sym (append-nil l.taken))
  drained (m ∷ ms) l e v =
      let (d, v', size) = dequeue_refines l.b.tl_msg_buffer v in
      let d' = rw e at d in
      let (l', s, eg, et, ec, ek) =
        drained ms
          (record l {
            b = record (l.b) { tl_msg_buffer = (dequeue l.b.tl_msg_buffer).1 };
            taken = l.taken ++ m ∷ [];
          })
          (ap (λ p. p.1) d') v' in
      (
        l',
        Steps-trans (further here (take_up {m = m} (ap (λ p. p.0) d'))) s,
        eg,
        et,
        ec,
        ek ∙ append_assoc l.taken (m ∷ []) ms,
      )

  -- What the next packet in order, or an old one, adds.
  pub receive_progress :
      (b : Endpoint) (given taken : List TlMsg) (got c : ℕ) (p : List ℕ)
      → IsReceiver first b given taken got
      → got ≤ length given
      → IsPacket first given c p
      → c ≤ got
      → got ≤ c + 4
      → length (contents b.tl_msg_buffer) ≢ b.tl_msg_buffer.size - 1
      → length (contents b.ack_buffer) ≢ b.ack_buffer.size - 1
      → (b' : Endpoint) × (rx b (some p) ≡ ok b')
        × (suc c ≤ length (taken ++ contents b'.tl_msg_buffer))
  receive_progress b given taken got c p s few (m, k, f, there, ep, d) le near room space =
      let have : length (taken ++ contents b.tl_msg_buffer) ≡ got =
        omega (arith, ap length (s.delivered), length-take got given, few) in
      elim (Bool-cases (c == got)) [
        | inl e ↦
            let same = ==→eq c got e in
            let (b', run, now, v, size, nx, acks, open_) =
              rx_awaited b k (first + c) m f d s.acks s.messages room
                (s.next_rx_seq ∙ ap (λ t. (first + t) % 2 ^ 22) (sym same)) in
            (
              b',
              ap (λ q. rx b (some q)) ep ∙ run,
              omega (
                arith,
                have,
                same,
                ap length now,
                length-append (contents b.tl_msg_buffer) (m ∷ []),
                length-append taken (contents b.tl_msg_buffer),
                length-append taken (contents b'.tl_msg_buffer),
              ),
            )
        | inr e ↦
            let other = ==→ne c got e in
            let (b', run, keeps) =
              rx_old b k (first + c) m f d s.acks space (got - c) (omega (arith, other))
                (omega arith) (s.next_rx_seq ∙ ap (λ t. t % 2 ^ 22) (omega arith)) in
            (
              b',
              ap (λ q. rx b (some q)) ep ∙ run,
              rw (keeps.tl_msg_buffer) (omega (arith, have, other)),
            )
      ]

  abbrev no_acks : CircularQueue Frame
  no_acks = record { front = 0; rear = 0; size = 2; slots = replicate 2 none }

  -- Packets that carry the messages from the `c`-th on.
  abbrev pub Runs : List TlMsg → ℕ → List (List ℕ) → Type 0
  Runs given c [] = c ≡ length given
  Runs given c (p ∷ ps) = IsPacket first given c p × Runs given (suc c) ps

  -- The receiver serves the next packet, with its queues emptied before.
  one_received :
      (given : List TlMsg) (c : ℕ) (p : List ℕ) (ps : List (List ℕ)) (l : Link)
      → l.given ≡ given
      → l.to_b ≡ p ∷ ps
      → contents l.b.tl_msg_buffer ≡ []
      → IsPacket first given c p
      → c ≤ received l
      → length given ≤ c + 4
      → Reach first l
      → (l' : Link) × Steps l l' × (l'.given ≡ given) × (l'.to_b ≡ ps) × (suc c ≤ received l')
  one_received given c p ps l eg et ec packet le near r =
      let b1 : Endpoint = record (l.b) { ack_buffer = no_acks } in
      let keeps : KeepsTaken l.b b1 = record {
        tl_msg_buffer = refl;
        next_rx_seq = refl;
        acks = record {
          front_in = omega arith;
          rear_in = omega arith;
          storage = refl;
          filled = refl;
        };
        handle_open = refl;
      } in
      let l1 : Link = record l { b = b1 } in
      let r1 : Reach first l1 = next r (work_b keeps) in
      let i = Reach-Inv first r1 in
      let got : received l ≡ i.got =
        omega
          (arith, ap length (i.receiver.delivered), length-take i.got l.given, i.got-le-given) in
      let room : length (contents b1.tl_msg_buffer) ≢ b1.tl_msg_buffer.size - 1 =
        omega (arith, ap length ec, i.receiver.room) in
      let space : length (contents no_acks) ≢ 1 = omega arith in
      let (b2, run, more) =
        receive_progress b1 l.given l.taken i.got c p i.receiver i.got-le-given (rw eg packet)
          (omega (arith, le, got)) (omega (arith, near, i.got-le-given, ap length eg)) room space in
      (
        record l1 { b = b2; to_b = ps },
        further (further here (work_b keeps)) (receive et room space run),
        eg,
        refl,
        more,
      )

  -- A run that starts at or before the message waited for brings all that is missing.
  pub run_received :
      (given : List TlMsg) (ps : List (List ℕ)) (c : ℕ) (l : Link)
      → l.given ≡ given
      → l.to_b ≡ ps
      → Runs given c ps
      → c ≤ received l
      → length given ≤ c + 4
      → Reach first l
      → (l' : Link) × Steps l l' × (l'.given ≡ given) × (length given ≤ received l')
  run_received given [] c l eg e u le near r = (l, here, eg, omega (arith, u))
  run_received given (p ∷ ps) c l eg e (packet, u) le near r =
      let (d, sd, dg, dt, dc, dk) =
        drained (contents l.b.tl_msg_buffer) l refl ((Reach-Inv first r).receiver.messages) in
      let rd = Reach-Steps r sd in
      let (l1, s1, eg1, et1, more) =
        one_received given c p ps d (dg ∙ eg) (dt ∙ e) dc packet
          (omega (
            arith,
            le,
            ap length dk,
            ap length dc,
            length-append d.taken (contents d.b.tl_msg_buffer),
          ))
          near rd in
      let (l2, s2, eg2, all) =
        run_received given ps (suc c) l1 eg1 et1 u more (omega arith) (Reach-Steps rd s1) in
      (l2, Steps-trans sd (Steps-trans s1 s2), eg2, all)
