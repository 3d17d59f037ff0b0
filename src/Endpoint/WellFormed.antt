-- ===== src/Endpoint/WellFormed.antt =====
-- What holds of an endpoint between any two operations.
use omnixtend_c.Base.{
  ℕ, zero, suc, ◌+◌, ◌%◌, ◌^◌, ◌<◌, ◌≡◌, refl, sym, ap, ◌∙◌, arith, Option, none, some, List, [],
  ◌∷◌, length, length-set, get_or, set, get_or-set_self, get_or-set_ne, ==→eq, ==→ne, ◌==◌,
  Bool-cases, inl, inr,
}
use omnixtend_c.TlMsg.{TlMsg}
use omnixtend_c.Frame.{Frame}
use omnixtend_c.CircularQueue.{CircularQueue, enqueue, dequeue, write_slot}
use omnixtend_c.CircularQueue.Contents.{IsValid, window, count, push_some}
use omnixtend_c.CircularQueue.Laws.{enqueue_refines, dequeue_refines}
use omnixtend_c.Endpoint.{Endpoint, RetransmitBufferElement, window_size}

-- The five queues are valid, the retransmission buffer has a slot more than the window, and the
-- numbers are sequence numbers.
pub record IsSound (window : CircularQueue RetransmitBufferElement) (messages : CircularQueue TlMsg)
    (acks : CircularQueue Frame) (taken : CircularQueue TlMsg) (responses : CircularQueue TlMsg)
    (next_tx next_rx acked : ℕ) : Type 0 where
  pub window_valid : IsValid window
  pub window_slots : window.size ≡ window_size + 1
  pub messages_valid : IsValid messages
  pub acks_valid : IsValid acks
  pub taken_valid : IsValid taken
  pub responses_valid : IsValid responses
  pub next_tx_small : next_tx < 2 ^ 22
  pub next_rx_small : next_rx < 2 ^ 22
  pub acked_small : acked < 2 ^ 22

abbrev pub IsWellFormed : Endpoint → Type 0
IsWellFormed e =
    IsSound e.retransmit_buffer e.message_buffer e.ack_buffer e.tl_msg_buffer e.response_buffer
      e.next_tx_seq e.next_rx_seq e.acked_seq

-- One part changes, and the others stay.
module _ {r : CircularQueue RetransmitBufferElement} {m : CircularQueue TlMsg}
    {a : CircularQueue Frame} {t s : CircularQueue TlMsg} {x y z : ℕ}
    (w : IsSound r m a t s x y z) where
  pub with_window :
      {q : CircularQueue RetransmitBufferElement}
      → IsValid q
      → q.size ≡ r.size
      → IsSound q m a t s x y z
  with_window v n = record {
    window_valid = v;
    window_slots = n ∙ w.window_slots;
    messages_valid = w.messages_valid;
    acks_valid = w.acks_valid;
    taken_valid = w.taken_valid;
    responses_valid = w.responses_valid;
    next_tx_small = w.next_tx_small;
    next_rx_small = w.next_rx_small;
    acked_small = w.acked_small;
  }

  pub with_messages : {q : CircularQueue TlMsg} → IsValid q → IsSound r q a t s x y z
  with_messages v = record {
    window_valid = w.window_valid;
    window_slots = w.window_slots;
    messages_valid = v;
    acks_valid = w.acks_valid;
    taken_valid = w.taken_valid;
    responses_valid = w.responses_valid;
    next_tx_small = w.next_tx_small;
    next_rx_small = w.next_rx_small;
    acked_small = w.acked_small;
  }

  pub with_acks : {q : CircularQueue Frame} → IsValid q → IsSound r m q t s x y z
  with_acks v = record {
    window_valid = w.window_valid;
    window_slots = w.window_slots;
    messages_valid = w.messages_valid;
    acks_valid = v;
    taken_valid = w.taken_valid;
    responses_valid = w.responses_valid;
    next_tx_small = w.next_tx_small;
    next_rx_small = w.next_rx_small;
    acked_small = w.acked_small;
  }

  pub with_taken : {q : CircularQueue TlMsg} → IsValid q → IsSound r m a q s x y z
  with_taken v = record {
    window_valid = w.window_valid;
    window_slots = w.window_slots;
    messages_valid = w.messages_valid;
    acks_valid = w.acks_valid;
    taken_valid = v;
    responses_valid = w.responses_valid;
    next_tx_small = w.next_tx_small;
    next_rx_small = w.next_rx_small;
    acked_small = w.acked_small;
  }

  pub with_responses : {q : CircularQueue TlMsg} → IsValid q → IsSound r m a t q x y z
  with_responses v = record {
    window_valid = w.window_valid;
    window_slots = w.window_slots;
    messages_valid = w.messages_valid;
    acks_valid = w.acks_valid;
    taken_valid = w.taken_valid;
    responses_valid = v;
    next_tx_small = w.next_tx_small;
    next_rx_small = w.next_rx_small;
    acked_small = w.acked_small;
  }

  pub with_next_tx : {n : ℕ} → n < 2 ^ 22 → IsSound r m a t s n y z
  with_next_tx v = record {
    window_valid = w.window_valid;
    window_slots = w.window_slots;
    messages_valid = w.messages_valid;
    acks_valid = w.acks_valid;
    taken_valid = w.taken_valid;
    responses_valid = w.responses_valid;
    next_tx_small = v;
    next_rx_small = w.next_rx_small;
    acked_small = w.acked_small;
  }

  pub with_next_rx : {n : ℕ} → n < 2 ^ 22 → IsSound r m a t s x n z
  with_next_rx v = record {
    window_valid = w.window_valid;
    window_slots = w.window_slots;
    messages_valid = w.messages_valid;
    acks_valid = w.acks_valid;
    taken_valid = w.taken_valid;
    responses_valid = w.responses_valid;
    next_tx_small = w.next_tx_small;
    next_rx_small = v;
    acked_small = w.acked_small;
  }

  pub with_acked : {n : ℕ} → n < 2 ^ 22 → IsSound r m a t s x y n
  with_acked v = record {
    window_valid = w.window_valid;
    window_slots = w.window_slots;
    messages_valid = w.messages_valid;
    acks_valid = w.acks_valid;
    taken_valid = w.taken_valid;
    responses_valid = w.responses_valid;
    next_tx_small = w.next_tx_small;
    next_rx_small = w.next_rx_small;
    acked_small = v;
  }

some-lt {ℓ} :
    {A : Type ℓ} (slots : List (Option A)) (i : ℕ) {b : A}
    → get_or slots i none ≡ some b
    → i < length slots
some-lt [] i h = cc
some-lt (o ∷ slots) zero h = omega arith
some-lt (o ∷ slots) (suc i) h = omega (arith, some-lt slots i h)

get_or-set_self_at {ℓ} :
    {A : Type ℓ} (slots : List (Option A)) (i h : ℕ) (a : A)
    → i < length slots
    → i ≡ h
    → get_or (set slots i (some a)) h none ≡ some a
get_or-set_self_at slots i h a inside e = rw (sym e) (get_or-set_self slots i (some a) none inside)

length-push_some {ℓ} :
    {A : Type ℓ} (o : Option A) (xs ys : List A)
    → length xs ≡ length ys
    → length (push_some o xs) ≡ length (push_some o ys)
length-push_some none xs ys h = h
length-push_some (some a) xs ys h = ap suc h

-- A write to a slot in use leaves as many slots in use.
length-window-set {ℓ} :
    {A : Type ℓ} (slots : List (Option A)) (size i h n : ℕ) (a b : A)
    → i < length slots
    → get_or slots i none ≡ some b
    → length (window (set slots i (some a)) size h n) ≡ length (window slots size h n)
length-window-set slots size i h zero a b inside there = refl
length-window-set slots size i h (suc n) a b inside there =
    let rest = length-window-set slots size i ((h + 1) % size) n a b inside there in
    elim (Bool-cases (i == h)) [
      | inl same ↦
          let e = ==→eq i h same in
          rw (get_or-set_self_at slots i h a inside e, rw e at there) (ap suc rest)
      | inr other ↦
          rw (get_or-set_ne slots {i = i} {j = h} (some a) none (==→ne i h other))
            (length-push_some (get_or slots h none) _ _ rest)
    ]

module _ {ℓ} {A : Type ℓ} (q : CircularQueue A) (v : IsValid q) where
  pub enqueue-IsValid : (a : A) → IsValid (enqueue q a).1
  enqueue-IsValid a = (enqueue_refines q a v).1

  pub enqueue-size : (a : A) → (enqueue q a).1.size ≡ q.size
  enqueue-size a = (enqueue_refines q a v).2

  pub dequeue-IsValid : IsValid (dequeue q).1
  dequeue-IsValid = (dequeue_refines q v).1

  pub dequeue-size : (dequeue q).1.size ≡ q.size
  dequeue-size = (dequeue_refines q v).2

  pub write_slot-IsValid :
      (i : ℕ) (a : A) {b : A} → get_or q.slots i none ≡ some b → IsValid (write_slot q i a)
  write_slot-IsValid i a {b} there = record {
    front_in = v.front_in;
    rear_in = v.rear_in;
    storage = length-set q.slots i (some a) ∙ v.storage;
    filled =
        length-window-set q.slots q.size i q.front (count q) a b (some-lt q.slots i there) there
        ∙ v.filled;
  }
