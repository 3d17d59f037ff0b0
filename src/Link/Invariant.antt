-- ===== src/Link/Invariant.antt =====
-- The invariant of a link: what the window of the sender, the packets under way and the counters of
-- both ends have to do with the messages that were given.
use omnixtend_c.Base.{ℕ, ◌+◌, ◌%◌, ◌^◌, ◌≤◌, ◌≡◌, refl, arith, true, List, [], ◌++◌, take, length}
use omnixtend_c.TlMsg.{TlMsg}
use omnixtend_c.Frame.{Frame}
use omnixtend_c.Frame.Packet.{packet_of}
use omnixtend_c.CircularQueue.Contents.{IsValid, contents}
use omnixtend_c.Endpoint.{Endpoint, window_size}
use omnixtend_c.Link.{Link, IsStart}
use omnixtend_c.Link.Reply.{IsReply}
use omnixtend_c.Link.Stored.{Stored, Young}
use omnixtend_c.Link.Tagged.{Tagged, idle}

module _ (first : ℕ) where
  -- The packet acknowledges the first `v` messages: all that the sender has dropped, and no more
  -- than were received.
  abbrev pub Answers : ℕ → ℕ → ℕ → List ℕ → Type 0
  Answers base got v p =
      (f : Frame) × (p ≡ packet_of f 6) × IsReply (first + v) f × (base ≤ v) × (v ≤ got)

  -- The sender has dropped `base` messages, the receiver has taken `got`, and `given` were given.
  pub record IsSender (a : Endpoint) (given : List TlMsg) (base : ℕ) : Type 0 where
    pub handle_open : a.handle_open ≡ true
    pub window : IsValid a.retransmit_buffer
    pub slots : a.retransmit_buffer.size ≡ window_size + 1
    pub acks : IsValid a.ack_buffer
    pub next_tx_seq : a.next_tx_seq ≡ (first + length given) % 2 ^ 22
    pub stored : Stored first given base (contents a.retransmit_buffer)
    pub all_given : base + length (contents a.retransmit_buffer) ≡ length given

  pub record IsReceiver (b : Endpoint) (given taken : List TlMsg) (got : ℕ) : Type 0 where
    pub handle_open : b.handle_open ≡ true
    pub messages : IsValid b.tl_msg_buffer
    pub room : 2 ≤ b.tl_msg_buffer.size
    pub acks : IsValid b.ack_buffer
    pub next_rx_seq : b.next_rx_seq ≡ (first + got) % 2 ^ 22
    pub delivered : taken ++ contents b.tl_msg_buffer ≡ take got given

  pub record Inv (l : Link) : Type 0 where
    pub base : ℕ
    pub got : ℕ
    pub numbers : List ℕ
    pub answers : List ℕ
    pub sender : IsSender l.a l.given base
    pub receiver : IsReceiver l.b l.given l.taken got
    pub base-le-got : base ≤ got
    pub got-le-given : got ≤ length l.given
    pub flight : Tagged (Young first l.given got) (λ c d. c ≤ d + 3) l.to_b numbers
    pub way_back : Tagged (Answers base got) ◌≤◌ l.to_a answers

pub start-Inv : (first : ℕ) (l : Link) → IsStart first l → Inv first l
start-Inv first l s = record {
  base = 0;
  got = 0;
  numbers = [];
  answers = [];
  sender = record {
    handle_open = s.open_a;
    window = s.window;
    slots = s.window_slots;
    acks = s.acks_a;
    next_tx_seq = rw (s.next_tx_seq, s.none_given) (omega arith);
    stored = rw (s.no_frames) tt;
    all_given = rw (s.no_frames, s.none_given) refl;
  };
  receiver = record {
    handle_open = s.open_b;
    messages = s.messages;
    room = s.room;
    acks = s.acks_b;
    next_rx_seq = rw (s.next_rx_seq) (omega arith);
    delivered = rw (s.none_taken, s.no_messages) refl;
  };
  base-le-got = omega arith;
  got-le-given = omega arith;
  flight = rw (s.none_to_b) idle;
  way_back = rw (s.none_to_a) idle;
}
