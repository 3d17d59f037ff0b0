-- ===== src/Loop.antt =====
-- tloe_endpoint.c: the rounds of the endpoint's thread, and the messages that the commands queue.
-- The thread's rounds run while `connection` is set and `is_done` is not; a round takes the time that
-- `update_iteration_timestamp` reads and what the medium has for `RX`.
pub mod WellFormed
pub mod Fairness
use omnixtend_c.Base.{
  ℕ, ◌-◌, Option, none, some, List, [], ◌++◌, ltb, if◌then◌else◌, Outcome, ok, ◌>>=◌,
}
use omnixtend_c.Memory.{le_bytes}
use omnixtend_c.TlMsg.{TlHeader, TlMsg, channel_a, a_putfulldata_opcode, a_get_opcode}
use omnixtend_c.Frame.{Frame}
use omnixtend_c.CircularQueue.{enqueue, dequeue}
use omnixtend_c.FlowControl.{add_channel_flow_credits}
use omnixtend_c.Timeout.{Timespec}
use omnixtend_c.Endpoint.{Endpoint}
use omnixtend_c.Receiver.{rx}
use omnixtend_c.Transmitter.{tx}
use omnixtend_c.Handler.{Memory, tl_handler}

-- `buffer_select_counter` is a static variable, 4 at first and after each turn of the message
-- buffer; it is given and returned. The decrement comes before the test.
unfoldable pub select_buffer : ℕ → Endpoint → Option TlMsg × ℕ × Endpoint
select_buffer counter e =
    let left = counter - 1 in
    let (response, responses) = dequeue e.response_buffer in
    let (message, messages) = dequeue e.message_buffer in
    if ltb 0 left
    then elim response [
      | some m ↦ (some m, left, record e { response_buffer = responses })
      | none ↦ (message, 4, record e { response_buffer = responses; message_buffer = messages })
    ]
    else (message, 4, record e { message_buffer = messages })

-- The variables of the thread that live from round to round.
pub record Thread : Type 0 where
  pub endpoint : Endpoint
  pub memory : Memory
  pub counter : ℕ
  pub request_tlmsg : Option TlMsg

-- What a round meets: the time, the packet or none, and the stack below the two frames of `TX`.
pub record Input : Type 0 where
  pub now : Timespec
  pub packet : Option (List ℕ)
  pub garbage : Frame
  pub garbage' : Frame

-- One round. The message that `TX` hands back is tried again in the next round; one that it sent is
-- freed.
unfoldable pub round : Thread → Input → Outcome Thread
round t input = do
  let chosen : Option TlMsg × ℕ × Endpoint = elim t.request_tlmsg [
    | some m ↦ (some m, t.counter, t.endpoint)
    | none ↦ select_buffer t.counter t.endpoint
  ]
  r ← tx input.garbage input.garbage' (record (chosen.2) { iteration_ts = input.now }) chosen.0
  e ← rx r.1 input.packet
  h ← tl_handler e t.memory
  e ← elim h.0 [
    | none ↦ ok h.1
    | some (chan, credit) ↦
        add_channel_flow_credits h.1.fc chan credit >>= λ fc. ok (record (h.1) { fc = fc })
  ]
  ok (record { endpoint = e; memory = h.2; counter = chosen.1; request_tlmsg = r.0 })

-- A cleared header with the channel, opcode and size of a request.
abbrev pub request_header : ℕ → ℕ → TlHeader
request_header opcode size = record {
  source = 0;
  reserved = 0;
  err = 0;
  domain = 0;
  size = size;
  param = 0;
  reserved2 = 0;
  opcode = opcode;
  chan = channel_a;
  reserved1 = 0;
}

-- The messages of the commands. That of `create_and_enqueue_message` has only a header.
unfoldable pub bare_message : TlMsg
bare_message = record { header = request_header a_get_opcode 0; payload = [] }

unfoldable pub read_message : ℕ → TlMsg
read_message addr = record { header = request_header a_get_opcode 3; payload = le_bytes 8 addr }

unfoldable pub write_message : ℕ → ℕ → TlMsg
write_message addr value = record {
  header = request_header a_putfulldata_opcode 3;
  payload = le_bytes 8 addr ++ le_bytes 8 value;
}

-- The wait for room in front of each is left to the caller; a full queue frees the message.
unfoldable pub create_and_enqueue_message : Endpoint → ℕ × Endpoint
unfolding bare_message
create_and_enqueue_message e =
    let (added, q) = enqueue e.message_buffer bare_message in
    if added then (1, record e { message_buffer = q }) else (0, e)

unfoldable pub read_memory : Endpoint → ℕ → ℕ × Endpoint
unfolding read_message
read_memory e addr =
    let (added, q) = enqueue e.message_buffer (read_message addr) in
    if added then (1, record e { message_buffer = q }) else (0, e)

unfoldable pub write_memory : Endpoint → ℕ → ℕ → ℕ × Endpoint
unfolding write_message
write_memory e addr value =
    let (added, q) = enqueue e.message_buffer (write_message addr value) in
    if added then (1, record e { message_buffer = q }) else (0, e)
