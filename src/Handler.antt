-- ===== src/Handler.antt =====
-- tilelink_handler.c: the memory that an endpoint serves, and the handlers of TileLink messages.
-- `mem_storage` has 2 ^ 32 bytes and is a function of the offset, below that size. A message
-- larger than the block of memory that holds it cannot be copied out of it.
pub mod Storage
pub mod Service
pub mod WellFormed
use omnixtend_c.Base.{
  ℕ, zero, suc, ◌+◌, ◌-◌, ◌*◌, ◌%◌, ◌^◌, Bool, true, false, ◌&&◌, ◌||◌, Option, none, some, List,
  [], ◌∷◌, get_or, leb, ltb, ◌==◌, if◌then◌else◌, Outcome, ok, fail, exits, null_pointer,
  out_of_bounds, require, ◌>>=◌, ◌>>◌,
}
use omnixtend_c.Memory.{le_value, read_bytes}
use omnixtend_c.TlMsg.{
  TlHeader, TlMsg, channel_num, channel_a, channel_d, a_putfulldata_opcode, a_get_opcode,
  d_accessack_opcode, d_accessackdata_opcode, tlmsg_get_flits_cnt,
}
use omnixtend_c.CircularQueue.{is_queue_empty, is_queue_full, enqueue, dequeue}
use omnixtend_c.Endpoint.{Endpoint}

abbrev pub mem_size : ℕ
mem_size = 4 * 1024 * 1024 * 1024

abbrev pub Memory : Type 0
Memory = ℕ → ℕ

-- `mem_storage`, `none` for NULL. Memory that is there already is kept as it is.
unfoldable pub tl_handler_init : Option Memory → Option Memory
tl_handler_init none = some (λ i. 0)
tl_handler_init (some mem) = some mem

unfoldable pub tl_handler_close : Option Memory → Option Memory
tl_handler_close mem_storage = none

-- memcpy from and to the memory that is served
unfoldable pub load_from : Memory → ℕ → ℕ → List ℕ
load_from mem off zero = []
load_from mem off (suc n) = mem off ∷ load_from mem (off + 1) n

unfoldable pub store_at : Memory → ℕ → List ℕ → Memory
store_at mem off [] i = mem i
store_at mem off (b ∷ bytes) i = if i == off then b else store_at mem (off + 1) bytes i

-- A cleared message header, and the assignments of a handler to it.
abbrev pub response_header : ℕ → ℕ → ℕ → TlHeader
response_header opcode size source = record {
  source = source;
  reserved = 0;
  err = 0;
  domain = 0;
  size = size;
  param = 0;
  reserved2 = 0;
  opcode = opcode;
  chan = channel_d;
  reserved1 = 0;
}

unfoldable pub respond : Endpoint → TlMsg → Endpoint
respond e tlmsg =
    let (added, q) = enqueue e.response_buffer tlmsg in
    if added
    then record e { response_buffer = q }
    else record e { drop_response_cnt = e.drop_response_cnt + 1 }

-- The offset of a request's address, and the check that the access stays inside the memory.
unfoldable pub mem_offset_of : TlMsg → Outcome ℕ
mem_offset_of tl = do
  word ← read_bytes tl.payload 0 8
  let mem_offset = le_value word % mem_size
  require (leb (mem_offset + 2 ^ tl.header.size) mem_size) exits
  ok mem_offset

unfoldable pub handle_a_putfulldata_opcode : Endpoint → Memory → TlMsg → Outcome (Endpoint × Memory)
unfolding mem_offset_of respond
handle_a_putfulldata_opcode e mem tl = do
  mem_offset ← mem_offset_of tl
  bytes ← read_bytes tl.payload 8 (2 ^ tl.header.size)
  let answer : TlMsg = record {
    header = response_header d_accessack_opcode 0 tl.header.source;
    payload = [];
  }
  ok (respond e answer, store_at mem mem_offset bytes)

unfoldable pub handle_a_get_opcode : Endpoint → Memory → TlMsg → Outcome (Endpoint × Memory)
unfolding mem_offset_of respond
handle_a_get_opcode e mem tl = do
  mem_offset ← mem_offset_of tl
  let answer : TlMsg = record {
    header = response_header d_accessackdata_opcode tl.header.size tl.header.source;
    payload = load_from mem mem_offset (2 ^ tl.header.size);
  }
  ok (respond e answer, mem)

unfoldable pub handle_d_accessack_opcode : Endpoint → Memory → TlMsg → Outcome (Endpoint × Memory)
handle_d_accessack_opcode e mem tl = ok (record e { accessack_cnt = e.accessack_cnt + 1 }, mem)

-- It reads `data[0]`, to print it.
unfoldable pub handle_d_accessackdata_opcode :
    Endpoint → Memory → TlMsg → Outcome (Endpoint × Memory)
handle_d_accessackdata_opcode e mem tl = do
  result ← read_bytes tl.payload 0 8
  ok (record e { accessackdata_cnt = e.accessackdata_cnt + 1 }, mem)

unfoldable pub handle_debug_opcode : Endpoint → Memory → TlMsg → Outcome (Endpoint × Memory)
handle_debug_opcode e mem tl = ok (e, mem)

-- The table has a row for each of six channels and a column for each of eight opcodes.
unfoldable pub tl_handler_table : ℕ → ℕ → Endpoint → Memory → TlMsg → Outcome (Endpoint × Memory)
unfolding handle_a_putfulldata_opcode handle_a_get_opcode handle_d_accessack_opcode
    handle_d_accessackdata_opcode handle_debug_opcode
tl_handler_table chan opcode e mem tl =
    if leb channel_num chan || leb 8 opcode
    then fail out_of_bounds
    else if chan == channel_a && opcode == a_putfulldata_opcode
    then handle_a_putfulldata_opcode e mem tl
    else if chan == channel_a && opcode == a_get_opcode
    then handle_a_get_opcode e mem tl
    else if chan == channel_d && opcode == d_accessack_opcode
    then handle_d_accessack_opcode e mem tl
    else if chan == channel_d && opcode == d_accessackdata_opcode
    then handle_d_accessackdata_opcode e mem tl
    else handle_debug_opcode e mem tl

-- What a call leaves in `*chan` and `*credit`, if it returns 1; a return of 0 is `none`.
abbrev pub Handled : Type 0
Handled = Option (ℕ × ℕ)

unfoldable pub tl_handler : Endpoint → Memory → Outcome (Handled × Endpoint × Memory)
tl_handler e mem =
    if is_queue_empty e.tl_msg_buffer || is_queue_full e.response_buffer
    then ok (none, e, mem)
    else (let (front, q) = dequeue e.tl_msg_buffer in
        elim front [
          | none ↦ fail null_pointer
          | some tlmsg ↦
              tl_handler_table tlmsg.header.chan tlmsg.header.opcode
                (record e { tl_msg_buffer = q }) mem tlmsg
              >>= λ r. ok (some (tlmsg.header.chan, tlmsg_get_flits_cnt tlmsg), r.0, r.1)
        ])
