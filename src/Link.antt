-- ===== src/Link.antt =====
-- A one-way link: an endpoint that sends messages with `TX` and takes acknowledgements with `RX`
-- (tloe_transmitter.c, tloe_receiver.c), one that receives them with `RX` and answers, and the media
-- between the two, which keep the order of packets and lose any of them at any time.
pub mod DataFrame
pub mod Receive
pub mod Reply
pub mod Tagged
pub mod Stored
pub mod Invariant
pub mod Sender
pub mod Receiver
pub mod Preserve
pub mod Delivery
pub mod Progress
pub mod Recovery
use omnixtend_c.Base.{
  ℕ, ◌*◌, ◌+◌, ◌≤◌, ◌<◌, ◌^◌, ◌≡◌, ◌≢◌, ◌⊎◌, ◌-◌, true, false, none, some, List, [], ◌∷◌, ◌++◌,
  length, drop, Outcome, ok, ◌%◌,
}
use omnixtend_c.TlMsg.{TlMsg, channel_num, tlmsg_get_total_size}
use omnixtend_c.Frame.{Frame}
use omnixtend_c.Frame.Fields.{Fits}
use omnixtend_c.Frame.Carry.{IsWellSized}
use omnixtend_c.CircularQueue.{is_queue_full, dequeue}
use omnixtend_c.CircularQueue.Contents.{IsValid, contents}
use omnixtend_c.Endpoint.{Endpoint, window_size}
use omnixtend_c.Receiver.{rx}
use omnixtend_c.Transmitter.{tx_frame, tx_timeout, send_ackonly_frame}
use omnixtend_c.Link.Receive.{KeepsTaken}
use omnixtend_c.Link.Tagged.{remove}

-- The sender `a`, the receiver `b`, the packets under way to each, oldest first, the messages that
-- the sender was given and those that the receiver's handlers have taken out of its queue.
pub record Link : Type 0 where
  pub a : Endpoint
  pub b : Endpoint
  pub to_b : List (List ℕ)
  pub to_a : List (List ℕ)
  pub given : List TlMsg
  pub taken : List TlMsg

-- what an operation has handed to the medium
abbrev pub new_packets : Endpoint → Endpoint → List (List ℕ)
new_packets e e' = drop (length e.wire) e'.wire

-- The sender does something else: its window stays.
pub record KeepsWindow (a a' : Endpoint) : Type 0 where
  pub retransmit_buffer : a'.retransmit_buffer ≡ a.retransmit_buffer
  pub next_tx_seq : a'.next_tx_seq ≡ a.next_tx_seq
  pub handle_open : a'.handle_open ≡ a.handle_open
  pub acks : IsValid a'.ack_buffer

pub data Step (l : Link) : Link → Type 0 where
  send :
      (m : TlMsg) (chan : ℕ) {a' : Endpoint}
      → IsWellSized m
      → tlmsg_get_total_size m ≤ 40
      → is_queue_full l.a.retransmit_buffer ≡ false
      → chan < channel_num
      → (chan ≡ 0) ⊎ (0 < l.a.fc.tx_flow_credits chan)
      → l.a.fc.tx_flow_credits chan < 2 ^ 32
      → tx_frame l.a (some m) chan ≡ ok a'
      → Step l (record l { a = a'; to_b = l.to_b ++ new_packets l.a a'; given = l.given ++ m ∷ [] })
  resend :
      {a' : Endpoint}
      → tx_timeout l.a ≡ ok a'
      → Step l (record l { a = a'; to_b = l.to_b ++ new_packets l.a a' })
  receive :
      {p : List ℕ} {ps : List (List ℕ)} {b' : Endpoint}
      → l.to_b ≡ p ∷ ps
      → length (contents l.b.tl_msg_buffer) ≢ l.b.tl_msg_buffer.size - 1
      → length (contents l.b.ack_buffer) ≢ l.b.ack_buffer.size - 1
      → rx l.b (some p) ≡ ok b'
      → Step l (record l { b = b'; to_b = ps })
  reply :
      (garbage : Frame) {b' : Endpoint}
      → Fits garbage.header
      → 48 ≤ length garbage.flits
      → send_ackonly_frame garbage l.b ≡ ok b'
      → Step l (record l { b = b'; to_a = l.to_a ++ new_packets l.b b' })
  acknowledged :
      {p : List ℕ} {ps : List (List ℕ)} {a' : Endpoint}
      → l.to_a ≡ p ∷ ps
      → rx l.a (some p) ≡ ok a'
      → Step l (record l { a = a'; to_a = ps })
  take_up :
      {m : TlMsg}
      → (dequeue l.b.tl_msg_buffer).0 ≡ some m
      → Step l (record l {
        b = record (l.b) { tl_msg_buffer = (dequeue l.b.tl_msg_buffer).1 };
        taken = l.taken ++ m ∷ [];
      })
  lose_to_b : (n : ℕ) → Step l (record l { to_b = remove n l.to_b })
  lose_to_a : (n : ℕ) → Step l (record l { to_a = remove n l.to_a })
  work_a : {a' : Endpoint} → KeepsWindow l.a a' → Step l (record l { a = a' })
  work_b : {b' : Endpoint} → KeepsTaken l.b b' → Step l (record l { b = b' })

-- An open pair of endpoints with nothing under way, which agree on the next sequence number.
pub record IsStart (first : ℕ) (l : Link) : Type 0 where
  pub open_a : l.a.handle_open ≡ true
  pub open_b : l.b.handle_open ≡ true
  pub window : IsValid l.a.retransmit_buffer
  pub window_slots : l.a.retransmit_buffer.size ≡ window_size + 1
  pub no_frames : contents l.a.retransmit_buffer ≡ []
  pub acks_a : IsValid l.a.ack_buffer
  pub next_tx_seq : l.a.next_tx_seq ≡ first % 2 ^ 22
  pub messages : IsValid l.b.tl_msg_buffer
  pub room : 2 ≤ l.b.tl_msg_buffer.size
  pub no_messages : contents l.b.tl_msg_buffer ≡ []
  pub acks_b : IsValid l.b.ack_buffer
  pub next_rx_seq : l.b.next_rx_seq ≡ first % 2 ^ 22
  pub none_to_b : l.to_b ≡ []
  pub none_to_a : l.to_a ≡ []
  pub none_given : l.given ≡ []
  pub none_taken : l.taken ≡ []

pub data Reach (first : ℕ) : Link → Type 0 where
  start : {l : Link} → IsStart first l → Reach first l
  next : {l l' : Link} → Reach first l → Step l l' → Reach first l'

-- A run, with its last step in front.
pub data Steps (l : Link) : Link → Type 0 where
  here : Steps l l
  further : {l' l'' : Link} → Steps l l' → Step l' l'' → Steps l l''
