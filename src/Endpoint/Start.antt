-- ===== src/Endpoint/Start.antt =====
-- The state that an endpoint starts from.
use omnixtend_c.Base.{ℕ, false, ◌+◌, ◌<◌, ◌≤◌, same_result, ◌^◌, ◌≡◌, refl, arith, [], ok}
use omnixtend_c.CircularQueue.{CircularQueue, create_queue}
use omnixtend_c.CircularQueue.Contents.{IsValid, contents}
use omnixtend_c.CircularQueue.Laws.{create_queue_lem}
use omnixtend_c.FlowControl.{Flowcontrol, init_flowcontrol, init_from, set_credit}
use omnixtend_c.TlMsg.{channel_num}
use omnixtend_c.SeqNum.{max_seq_num, tloe_seqnum_prev}
use omnixtend_c.Endpoint.{Endpoint, window_size, tloe_endpoint_init}

-- A queue that is valid and empty.
pub record IsFresh {ℓ} {A : Type ℓ} (q : CircularQueue A) : Type ℓ where
  pub valid : IsValid q
  pub empty : contents q ≡ []

create_queue-IsFresh {ℓ} : {A : Type ℓ} (n : ℕ) → 0 < n → IsFresh (create_queue {A = A} n)
create_queue-IsFresh n h = let (v, c) = create_queue_lem n h in record { valid = v; empty = c }

init_flowcontrol_lem :
    (fc : Flowcontrol) (c : ℕ)
    → c < channel_num
    → (fc' : Flowcontrol) × (init_flowcontrol fc ≡ ok fc')
      × (fc'.credits c ≡ 2 ^ 7)
      × (fc'.tx_flow_credits c ≡ 0)
unfolding init_flowcontrol init_from set_credit
init_flowcontrol_lem fc c h = (_, refl, ground arith, ground arith)

abbrev started : Endpoint → ℕ → ℕ → Flowcontrol → Endpoint
started e fabric_type master_slave fc = record e {
  is_done = 0;
  connection = 0;
  master = master_slave;
  fabric_type = fabric_type;
  next_tx_seq = 0;
  next_rx_seq = 0;
  acked_seq = max_seq_num;
  retransmit_buffer = create_queue (window_size + 1);
  message_buffer = create_queue 10000;
  ack_buffer = create_queue 2048;
  tl_msg_buffer = create_queue 10000;
  response_buffer = create_queue 100;
  should_send_ackonly_frame = false;
  ackonly_frame_sent = false;
  fc = fc;
  ack_cnt = 0;
  dup_cnt = 0;
  oos_cnt = 0;
  drop_cnt = 0;
  accessack_cnt = 0;
  accessackdata_cnt = 0;
  ackonly_cnt = 0;
  drop_tlmsg_cnt = 0;
  drop_response_cnt = 0;
  drop_npacket_size = 0;
  drop_npacket_cnt = 0;
}

-- The initialisation returns, whatever the endpoint was: its five queues are valid and empty, the
-- retransmission buffer has one slot more than the window, the first number to send is 0 and the
-- last one acknowledged is the number before it, each channel of the arrays has 2 ^ 7 credits and
-- none to give back, and no packet is sent.
pub tloe_endpoint_init_lem :
    (e : Endpoint) (fabric_type master_slave c : ℕ)
    → c < channel_num
    → (e' : Endpoint) × (tloe_endpoint_init e fabric_type master_slave ≡ ok e')
      × IsFresh e'.retransmit_buffer
      × (e'.retransmit_buffer.size ≡ window_size + 1)
      × IsFresh e'.message_buffer
      × IsFresh e'.ack_buffer
      × IsFresh e'.tl_msg_buffer
      × IsFresh e'.response_buffer
      × (e'.next_tx_seq ≡ 0)
      × (e'.acked_seq ≡ tloe_seqnum_prev e'.next_tx_seq)
      × (e'.fc.credits c ≡ 2 ^ 7)
      × (e'.fc.tx_flow_credits c ≡ 0)
      × (e'.wire ≡ e.wire)
unfolding tloe_endpoint_init tloe_seqnum_prev create_queue
tloe_endpoint_init_lem e fabric_type master_slave c h =
    let (fc, run, credits, owed) = init_flowcontrol_lem e.fc c h in
    (
      started e fabric_type master_slave fc,
      rw run refl,
      create_queue-IsFresh (window_size + 1) (omega arith),
      refl,
      create_queue-IsFresh 10000 (omega arith),
      create_queue-IsFresh 2048 (omega arith),
      create_queue-IsFresh 10000 (omega arith),
      create_queue-IsFresh 100 (omega arith),
      refl,
      refl,
      credits,
      owed,
      refl,
    )

-- What the opening of a connection reads of an endpoint that was initialised.
pub record IsStarted (e e' : Endpoint) : Type 0 where
  pub handle_open : e'.handle_open ≡ e.handle_open
  pub credits : (c : ℕ) → c < channel_num → e'.fc.credits c ≡ 2 ^ 7
  pub next_rx_seq : e'.next_rx_seq ≡ 0
  pub window : IsFresh e'.retransmit_buffer
  pub window_slots : e'.retransmit_buffer.size ≡ window_size + 1
  pub acks : IsFresh e'.ack_buffer
  pub messages : IsFresh e'.tl_msg_buffer
  pub room : 2 ≤ e'.tl_msg_buffer.size

pub init-IsStarted :
    (e : Endpoint) (fabric_type master_slave : ℕ) {e' : Endpoint}
    → tloe_endpoint_init e fabric_type master_slave ≡ ok e'
    → IsStarted e e'
unfolding tloe_endpoint_init init_flowcontrol init_from set_credit create_queue
init-IsStarted e fabric_type master_slave h = rw (same_result h refl) (record {
  handle_open = refl;
  credits = λ c inside. ground (arith, inside);
  next_rx_seq = refl;
  window = create_queue-IsFresh (window_size + 1) (omega arith);
  window_slots = refl;
  acks = create_queue-IsFresh 2048 (omega arith);
  messages = create_queue-IsFresh 10000 (omega arith);
  room = omega arith;
})
