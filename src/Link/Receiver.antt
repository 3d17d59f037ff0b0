-- ===== src/Link/Receiver.antt =====
-- What the receiver has taken, under its steps (tloe_receiver.c).
use omnixtend_c.Base.{
  ℕ, zero, suc, ◌+◌, ◌-◌, ◌%◌, ◌^◌, ◌≤◌, ◌<◌, ◌≡◌, ◌≢◌, refl, sym, ap, ◌∙◌, arith, some, List, [],
  ◌∷◌, ◌++◌, append_assoc, length, take-suc, ok, ◌⊎◌, inl, inr, same_result, get_elem?,
}
use omnixtend_c.Fifo
use omnixtend_c.TlMsg.{TlMsg}
use omnixtend_c.Frame.{Frame}
use omnixtend_c.Frame.Packet.{packet_of}
use omnixtend_c.CircularQueue.{dequeue}
use omnixtend_c.CircularQueue.Contents.{contents}
use omnixtend_c.CircularQueue.Laws.{dequeue_refines}
use omnixtend_c.Endpoint.{Endpoint}
use omnixtend_c.Receiver.{rx}
use omnixtend_c.Link.DataFrame.{IsData}
use omnixtend_c.Link.Receive.{KeepsTaken, rx_awaited, rx_old, rx_early}
use omnixtend_c.Link.Invariant.{IsReceiver}

trichotomy : (m n : ℕ) → (m ≡ n) ⊎ ((m < n) ⊎ (n < m))
trichotomy zero zero = inl refl
trichotomy zero (suc n) = inr (inl (omega arith))
trichotomy (suc m) zero = inr (inr (omega arith))
trichotomy (suc m) (suc n) = elim (trichotomy m n) [
  | inl e ↦ inl (ap suc e)
  | inr (inl h) ↦ inr (inl (omega arith))
  | inr (inr h) ↦ inr (inr (omega arith))
]

popped :
    {m : TlMsg} {rest : List TlMsg} (l : List TlMsg) → (some m, rest) ≡ Fifo.pop l → l ≡ m ∷ rest
popped [] h = cc
popped (x ∷ xs) h = cc

module _ (first : ℕ) (b : Endpoint) (given taken : List TlMsg) (got : ℕ)
    (s : IsReceiver first b given taken got) where
  pub keeps-IsReceiver : {b' : Endpoint} → KeepsTaken b b' → IsReceiver first b' given taken got
  keeps-IsReceiver k = record {
    handle_open = k.handle_open ∙ s.handle_open;
    messages = rw (k.tl_msg_buffer) (s.messages);
    room = rw (k.tl_msg_buffer) (s.room);
    acks = k.acks;
    next_rx_seq = k.next_rx_seq ∙ s.next_rx_seq;
    delivered = rw (k.tl_msg_buffer) (s.delivered);
  }

  -- A handler takes the oldest message.
  pub take_up-IsReceiver :
      (m : TlMsg)
      → (dequeue b.tl_msg_buffer).0 ≡ some m
      → IsReceiver first
          (record b { tl_msg_buffer = (dequeue b.tl_msg_buffer).1 })
          given
          (taken ++ m ∷ [])
          got
  take_up-IsReceiver m h =
      let (d, v, size) = dequeue_refines b.tl_msg_buffer s.messages in
      record {
        handle_open = s.handle_open;
        messages = v;
        room = rw size (s.room);
        acks = s.acks;
        next_rx_seq = s.next_rx_seq;
        delivered =
            append_assoc taken (m ∷ []) (contents (dequeue b.tl_msg_buffer).1)
            ∙ ap (◌++◌ taken) (sym (popped (contents b.tl_msg_buffer) (rw h at d)))
            ∙ s.delivered;
      }

  -- A packet arrives: its message is taken exactly if it is the one waited for.
  pub receive-IsReceiver :
      (c : ℕ) (m : TlMsg) (k : ℕ) (f : Frame) {b' : Endpoint}
      → get_elem? given c ≡ some m
      → IsData k (first + c) m f
      → got ≤ c + 4
      → c ≤ got + 4
      → length (contents b.tl_msg_buffer) ≢ b.tl_msg_buffer.size - 1
      → length (contents b.ack_buffer) ≢ b.ack_buffer.size - 1
      → rx b (some (packet_of f k)) ≡ ok b'
      → IsReceiver first b' given taken got
        ⊎ ((c ≡ got) × IsReceiver first b' given taken (suc got))
  receive-IsReceiver c m k f here d young near room space h = elim (trichotomy c got) [
    | inl e ↦
        let (b', run, now, v, size, next, acks, open_) =
          rx_awaited b k (first + c) m f d s.acks s.messages room
            (s.next_rx_seq ∙ ap (λ t. (first + t) % 2 ^ 22) (sym e)) in
        rw (same_result h run) (
          inr (
            e,
            record {
              handle_open = open_ ∙ s.handle_open;
              messages = v;
              room = rw size (s.room);
              acks = acks;
              next_rx_seq = next ∙ ap (λ t. t % 2 ^ 22) (omega (arith, e));
              delivered =
                  ap (◌++◌ taken) now
                  ∙ sym (append_assoc taken (contents b.tl_msg_buffer) (m ∷ []))
                  ∙ ap (λ l. l ++ m ∷ []) (s.delivered)
                  ∙ sym (take-suc given got (rw e at here));
            },
          ))
    | inr (inl old) ↦
        let (b', run, keeps) =
          rx_old b k (first + c) m f d s.acks space (got - c) (omega arith) (omega arith)
            (s.next_rx_seq ∙ ap (λ t. t % 2 ^ 22) (omega arith)) in
        rw (same_result h run) (inl (keeps-IsReceiver keeps))
    | inr (inr early) ↦
        let (b', run, keeps) =
          rx_early b k (first + c) m f d s.acks space (c - got) (omega arith) (omega arith)
            (first + got) (omega arith) (s.next_rx_seq) in
        rw (same_result h run) (inl (keeps-IsReceiver keeps))
  ]
