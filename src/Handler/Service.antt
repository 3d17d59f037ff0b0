-- ===== src/Handler/Service.antt =====
-- What the handlers make of the requests that wait, over as many calls of `tl_handler`.
use omnixtend_c.Base.{
  ℕ, zero, suc, ◌+◌, ◌-◌, ◌^◌, ◌≤◌, ◌<◌, ◌≡◌, ◌≢◌, refl, sym, ap, ◌∙◌, arith, false, some, List, [],
  ◌∷◌, ◌++◌, append-nil, append_assoc, length, length-append, drop, ne→==, ◌==◌, if◌then◌else◌,
  Outcome, ok, ◌>>=◌, All,
}
use omnixtend_c.TlMsg.{
  TlMsg, channel_a, a_putfulldata_opcode, a_get_opcode, d_accessack_opcode, d_accessackdata_opcode,
  tlmsg_get_flits_cnt,
}
use omnixtend_c.Fifo
use omnixtend_c.CircularQueue.{is_queue_empty, is_queue_full, enqueue, dequeue}
use omnixtend_c.CircularQueue.Contents.{IsValid, contents}
use omnixtend_c.CircularQueue.Laws.{is_queue_empty_lem, is_queue_full_lem, dequeue_refines}
use omnixtend_c.Receiver.Extract.{enqueue_room}
use omnixtend_c.Endpoint.{Endpoint}
use omnixtend_c.Handler.{
  Memory, mem_size, load_from, store_at, response_header, respond, tl_handler_table, tl_handler,
}
use omnixtend_c.Handler.Storage.{offset_of, put_lem, get_lem}

-- A write or a read on channel A, inside the memory.
pub data IsRequest (m : TlMsg) : Type 0 where
  puts :
      m.header.chan ≡ channel_a
      → m.header.opcode ≡ a_putfulldata_opcode
      → length m.payload ≡ 8 + 2 ^ m.header.size
      → offset_of m + 2 ^ m.header.size ≤ mem_size
      → IsRequest m
  gets :
      m.header.chan ≡ channel_a
      → m.header.opcode ≡ a_get_opcode
      → 8 ≤ length m.payload
      → offset_of m + 2 ^ m.header.size ≤ mem_size
      → IsRequest m

-- A memory that answers requests one by one.
abbrev pub answer : Memory → TlMsg → TlMsg × Memory
answer mem m =
    if m.header.opcode == a_putfulldata_opcode
    then (
      record { header = response_header d_accessack_opcode 0 m.header.source; payload = [] },
      store_at mem (offset_of m) (drop 8 m.payload),
    )
    else (
      record {
        header = response_header d_accessackdata_opcode m.header.size m.header.source;
        payload = load_from mem (offset_of m) (2 ^ m.header.size);
      },
      mem,
    )

abbrev pub answers : Memory → List TlMsg → List TlMsg × Memory
answers mem [] = ([], mem)
answers mem (m ∷ ms) =
    let (a, mem') = answer mem m in let (as', mem'') = answers mem' ms in (a ∷ as', mem'')

-- `tl_handler` in a number of rounds.
abbrev pub handle_all : ℕ → Endpoint → Memory → Outcome (Endpoint × Memory)
handle_all zero e mem = ok (e, mem)
handle_all (suc n) e mem = tl_handler e mem >>= λ h. handle_all n h.1 h.2

table_lem :
    (e : Endpoint) (mem : Memory) (m : TlMsg)
    → IsRequest m
    → tl_handler_table m.header.chan m.header.opcode e mem m
      ≡ ok (respond e (answer mem m).0, (answer mem m).1)
table_lem e mem m (puts c o l b) = put_lem e mem m c o l b ∙ rw o refl
table_lem e mem m (gets c o l b) = get_lem e mem m c o l b ∙ rw o refl

respond_room :
    (e : Endpoint) (a : TlMsg)
    → IsValid e.response_buffer
    → length (contents e.response_buffer) ≢ e.response_buffer.size - 1
    → respond e a ≡ record e { response_buffer = (enqueue e.response_buffer a).1 }
unfolding respond
respond_room e a v room = rw ((enqueue_room e.response_buffer a v room).0) refl

-- One call, with a request that waits and room for its answer.
handle_one :
    (e : Endpoint) (mem : Memory) (m : TlMsg) (ms : List TlMsg)
    → IsRequest m
    → IsValid e.tl_msg_buffer
    → contents e.tl_msg_buffer ≡ m ∷ ms
    → IsValid e.response_buffer
    → length (contents e.response_buffer) ≢ e.response_buffer.size - 1
    → tl_handler e mem
      ≡ ok (
        some (m.header.chan, tlmsg_get_flits_cnt m),
        record e {
          tl_msg_buffer = (dequeue e.tl_msg_buffer).1;
          response_buffer = (enqueue e.response_buffer (answer mem m).0).1;
        },
        (answer mem m).1,
      )
unfolding tl_handler
handle_one e mem m ms r v c w room =
    let e' = record e { tl_msg_buffer = (dequeue e.tl_msg_buffer).1 } in
    let waits : is_queue_empty e.tl_msg_buffer ≡ false =
      is_queue_empty_lem e.tl_msg_buffer v ∙ ne→== _ _ (omega (arith, ap length c)) in
    let space : is_queue_full e.response_buffer ≡ false =
      is_queue_full_lem e.response_buffer w ∙ ne→== _ _ room in
    let first : (dequeue e.tl_msg_buffer).0 ≡ some m =
      ap (λ p. p.0) (dequeue_refines e.tl_msg_buffer v).0 ∙ ap (λ l. (Fifo.pop l).0) c in
    rw (waits, space, first, table_lem e' mem m r, respond_room e' (answer mem m).0 w room) refl

-- If the queue of messages begins with writes and reads on channel A, inside the memory and with
-- their data, and both queues are valid and that of responses has room for as many answers, then as
-- many calls of `tl_handler` return and do what a memory does that answers the requests one by one:
-- they leave its memory, its answers stand in order at the end of the queue of responses, and the
-- requests are taken off.
pub handle_all_lem :
    (ms rest : List TlMsg) (e : Endpoint) (mem : Memory)
    → All IsRequest ms
    → IsValid e.tl_msg_buffer
    → contents e.tl_msg_buffer ≡ ms ++ rest
    → IsValid e.response_buffer
    → length (contents e.response_buffer) + length ms < e.response_buffer.size
    → (e' : Endpoint) × (handle_all (length ms) e mem ≡ ok (e', (answers mem ms).1))
      × IsValid e'.tl_msg_buffer
      × (contents e'.tl_msg_buffer ≡ rest)
      × IsValid e'.response_buffer
      × (contents e'.response_buffer ≡ contents e.response_buffer ++ (answers mem ms).0)
handle_all_lem [] rest e mem rs v c w room = (e, refl, v, c, w, sym (append-nil _))
handle_all_lem (m ∷ ms) rest e mem (r, rs) v c w room =
    let q = e.tl_msg_buffer in
    let (d, v1, z1) = dequeue_refines q v in
    let a = (answer mem m).0 in
    let space : length (contents e.response_buffer) ≢ e.response_buffer.size - 1 =
      λ h. absurd (omega (arith, h)) in
    let (added, c2, w1, z2) = enqueue_room e.response_buffer a w space in
    let e1 = record e {
      tl_msg_buffer = (dequeue q).1;
      response_buffer = (enqueue e.response_buffer a).1;
    } in
    let left : contents (dequeue q).1 ≡ ms ++ rest = ap (λ p. p.1) d ∙ ap (λ l. (Fifo.pop l).1) c in
    let (e', run, v2, c3, w2, c4) =
      handle_all_lem ms rest e1 (answer mem m).1 rs v1 left w1
        (omega (arith, ap length c2, length-append (contents e.response_buffer) (a ∷ []), z2)) in
    (
      e',
      ap (λ h. h >>= λ t. handle_all (length ms) t.1 t.2)
            (handle_one e mem m (ms ++ rest) r v c w space)
          ∙ run,
      v2,
      c3,
      w2,
      c4
          ∙ ap (λ l. l ++ (answers (answer mem m).1 ms).0) c2
          ∙ append_assoc (contents e.response_buffer) (a ∷ []) _,
    )
