-- ===== src/Handler/WellFormed.antt =====
-- The handlers of messages keep what holds of an endpoint.
use omnixtend_c.Base.{
  ℕ, ◌+◌, ◌^◌, Bool, true, false, ◌&&◌, ◌||◌, Option-cases, inl, inr, ◌==◌, leb, if◌then◌else◌,
  Ensures, Ensures-bind, Ensures-skip, Ensures-if,
}
use omnixtend_c.Memory.{read_bytes}
use omnixtend_c.TlMsg.{
  TlMsg, channel_num, channel_a, channel_d, a_putfulldata_opcode, a_get_opcode, d_accessack_opcode,
  d_accessackdata_opcode,
}
use omnixtend_c.CircularQueue.{is_queue_empty, is_queue_full, enqueue, dequeue}
use omnixtend_c.Endpoint.{Endpoint}
use omnixtend_c.Endpoint.WellFormed.{
  IsWellFormed, with_taken, with_responses, enqueue-IsValid, dequeue-IsValid,
}
use omnixtend_c.Handler.{
  Memory, Handled, respond, mem_offset_of, handle_a_putfulldata_opcode, handle_a_get_opcode,
  handle_d_accessack_opcode, handle_d_accessackdata_opcode, handle_debug_opcode, tl_handler_table,
  tl_handler,
}

respond-IsWellFormed : (e : Endpoint) (m : TlMsg) → IsWellFormed e → IsWellFormed (respond e m)
unfolding respond
respond-IsWellFormed e m w = go (enqueue e.response_buffer m).0
  where
    go :
        (b : Bool)
        → IsWellFormed (
            if b
            then record e { response_buffer = (enqueue e.response_buffer m).1 }
            else record e { drop_response_cnt = e.drop_response_cnt + 1 })
    go true = with_responses w (enqueue-IsValid e.response_buffer (w.responses_valid) m)
    go false = w

abbrev Served : Endpoint × Memory → Type 0
Served r = IsWellFormed r.0

module _ (e : Endpoint) (mem : Memory) (m : TlMsg) (w : IsWellFormed e) where
  putfulldata-IsWellFormed : Ensures Served (handle_a_putfulldata_opcode e mem m)
  unfolding handle_a_putfulldata_opcode
  putfulldata-IsWellFormed = Ensures-skip Served (mem_offset_of m) _ (λ off.
      Ensures-skip Served (read_bytes m.payload 8 (2 ^ m.header.size)) _
        (λ bytes. respond-IsWellFormed e _ w))

  get-IsWellFormed : Ensures Served (handle_a_get_opcode e mem m)
  unfolding handle_a_get_opcode
  get-IsWellFormed = Ensures-skip Served (mem_offset_of m) _ (λ off. respond-IsWellFormed e _ w)

  table-IsWellFormed : (chan opcode : ℕ) → Ensures Served (tl_handler_table chan opcode e mem m)
  unfolding tl_handler_table handle_d_accessack_opcode handle_d_accessackdata_opcode
      handle_debug_opcode
  table-IsWellFormed chan opcode = Ensures-if Served (leb channel_num chan || leb 8 opcode) _ _ tt (
      Ensures-if Served (chan == channel_a && opcode == a_putfulldata_opcode) _ _
        putfulldata-IsWellFormed
        (Ensures-if Served (chan == channel_a && opcode == a_get_opcode) _ _ get-IsWellFormed (
          Ensures-if Served (chan == channel_d && opcode == d_accessack_opcode) _ _ w (
            Ensures-if Served (chan == channel_d && opcode == d_accessackdata_opcode) _ _
              (Ensures-skip Served (read_bytes m.payload 0 8) _ (λ result. w)) w))))

abbrev pub HandledWell : Handled × Endpoint × Memory → Type 0
HandledWell h = IsWellFormed h.1

pub handler-IsWellFormed :
    (e : Endpoint) (mem : Memory) → IsWellFormed e → Ensures HandledWell (tl_handler e mem)
unfolding tl_handler
handler-IsWellFormed e mem w =
    Ensures-if HandledWell (is_queue_empty e.tl_msg_buffer || is_queue_full e.response_buffer) _ _ w
      (elim (Option-cases (dequeue e.tl_msg_buffer).0) [
        | inl nothing ↦ rw (nothing, Ensures) tt
        | inr (m, first) ↦
            rw (first, Ensures)
              (let e' = record e { tl_msg_buffer = (dequeue e.tl_msg_buffer).1 } in
                Ensures-bind Served HandledWell
                  (tl_handler_table m.header.chan m.header.opcode e' mem m) _
                  (table-IsWellFormed e' mem m
                    (with_taken w (dequeue-IsValid e.tl_msg_buffer (w.taken_valid))) _ _)
                  (λ r w'. w'))
      ])
