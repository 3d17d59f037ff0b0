-- ===== src/Link/Delivery.antt =====
-- The states of a link that a run reaches.
use omnixtend_c.Base.{ℕ, ◌+◌, ◌≤◌, ◌≡◌, ◌∙◌, ap, arith, [], ◌++◌, take, take_all, length}
use omnixtend_c.CircularQueue.Contents.{contents}
use omnixtend_c.Link.{
  Link, Step, send, resend, receive, reply, acknowledged, take_up, lose_to_b, lose_to_a, work_a,
  work_b, Reach, start, next,
}
use omnixtend_c.Link.Tagged.{remove-Tagged}
use omnixtend_c.Link.Stored.{Young}
use omnixtend_c.Link.Invariant.{Inv, Answers, start-Inv}
use omnixtend_c.Link.Sender.{window_bound}
use omnixtend_c.Link.Receiver.{keeps-IsReceiver, take_up-IsReceiver}
use omnixtend_c.Link.Preserve.{
  send-Inv, resend-Inv, receive-Inv, reply-Inv, acknowledged-Inv, work-IsSender,
}

Step-Inv : (first : ℕ) {l l' : Link} → Inv first l → Step l l' → Inv first l'
Step-Inv first {l} i (send m chan w short notfull inside owed bound h) =
    send-Inv first l i m chan w short notfull inside owed bound h
Step-Inv first {l} i (resend h) = resend-Inv first l i h
Step-Inv first {l} i (receive e room space h) =
    receive-Inv first l i (rw e at i.flight) room space h
Step-Inv first {l} i (reply garbage fits held h) = reply-Inv first l i garbage fits held h
Step-Inv first {l} i (acknowledged e h) = acknowledged-Inv first l i (rw e at i.way_back) h
Step-Inv first {l} i (take_up {m} h) = record {
  base = i.base;
  got = i.got;
  numbers = i.numbers;
  answers = i.answers;
  sender = i.sender;
  receiver = take_up-IsReceiver first l.b l.given l.taken i.got i.receiver m h;
  base-le-got = i.base-le-got;
  got-le-given = i.got-le-given;
  flight = i.flight;
  way_back = i.way_back;
}
Step-Inv first {l} i (lose_to_b n) = record {
  base = i.base;
  got = i.got;
  numbers = _;
  answers = i.answers;
  sender = i.sender;
  receiver = i.receiver;
  base-le-got = i.base-le-got;
  got-le-given = i.got-le-given;
  flight = remove-Tagged (Young first l.given i.got) (λ c d. c ≤ d + 3) n i.flight;
  way_back = i.way_back;
}
Step-Inv first {l} i (lose_to_a n) = record {
  base = i.base;
  got = i.got;
  numbers = i.numbers;
  answers = _;
  sender = i.sender;
  receiver = i.receiver;
  base-le-got = i.base-le-got;
  got-le-given = i.got-le-given;
  flight = i.flight;
  way_back = remove-Tagged (Answers first i.base i.got) ◌≤◌ n i.way_back;
}
Step-Inv first {l} i (work_a k) = record {
  base = i.base;
  got = i.got;
  numbers = i.numbers;
  answers = i.answers;
  sender = work-IsSender first l i k;
  receiver = i.receiver;
  base-le-got = i.base-le-got;
  got-le-given = i.got-le-given;
  flight = i.flight;
  way_back = i.way_back;
}
Step-Inv first {l} i (work_b k) = record {
  base = i.base;
  got = i.got;
  numbers = i.numbers;
  answers = i.answers;
  sender = i.sender;
  receiver = keeps-IsReceiver first l.b l.given l.taken i.got i.receiver k;
  base-le-got = i.base-le-got;
  got-le-given = i.got-le-given;
  flight = i.flight;
  way_back = i.way_back;
}

pub Reach-Inv : (first : ℕ) {l : Link} → Reach first l → Inv first l
Reach-Inv first (start {l} s) = start-Inv first l s
Reach-Inv first (next r s) = Step-Inv first (Reach-Inv first r) s

-- On a link over media that keep the order of packets and may lose any of them, whatever the order
-- of sends, timeouts, receipts, losses and answers, what the receiver's handlers have taken and
-- what still lies in its queue make up, in order, exactly the first messages that the sender was
-- given, each once, and at most four, the window, are missing. The link starts with both endpoints
-- open, agreeing on the sequence number, nothing under way and a queue with room for a message; a
-- message has at most 40 bytes and is as long as its header says, a send has room in the window,
-- and a receipt room in the receiver's queues.
pub delivered_in_order :
    (first : ℕ) (l : Link)
    → Reach first l
    → (got : ℕ) × (l.taken ++ contents l.b.tl_msg_buffer ≡ take got l.given)
      × (got ≤ length l.given)
      × (length l.given ≤ got + 4)
delivered_in_order first l r =
    let i = Reach-Inv first r in
    (
      i.got,
      i.receiver.delivered,
      i.got-le-given,
      omega (arith, window_bound first l.a l.given i.base i.sender, i.base-le-got),
    )

-- In every state that such a link reaches in which the retransmission buffer is empty, the receiver
-- has got all messages that the sender was given, in order and each once: an acknowledgement never
-- takes off a frame that was not received.
pub acknowledged_delivered :
    (first : ℕ) (l : Link)
    → Reach first l
    → contents l.a.retransmit_buffer ≡ []
    → l.taken ++ contents l.b.tl_msg_buffer ≡ l.given
acknowledged_delivered first l r e =
    let i = Reach-Inv first r in
    i.receiver.delivered
    ∙ take_all l.given i.got (omega (arith, i.base-le-got, i.sender.all_given, ap length e))
