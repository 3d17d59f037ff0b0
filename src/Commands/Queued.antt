-- ===== src/Commands/Queued.antt =====
-- tloe_endpoint.c: the messages that a command queues.
use omnixtend_c.Base.{
  ℕ, zero, suc, ◌+◌, ◌-◌, ◌<◌, ◌≡◌, ◌≢◌, refl, sym, ap, ◌∙◌, arith, Bool, true, false, Option, List,
  [], ◌∷◌, ◌++◌, append-nil, append_assoc, replicate, length, length-append, ok, pos, ne→==,
}
use omnixtend_c.TlMsg.{TlMsg}
use omnixtend_c.CircularQueue.{CircularQueue, enqueue, is_queue_full}
use omnixtend_c.CircularQueue.Contents.{IsValid, contents}
use omnixtend_c.CircularQueue.Laws.{is_queue_full_lem}
use omnixtend_c.Endpoint.{Endpoint}
use omnixtend_c.Handler.{Memory}
use omnixtend_c.Connection.{Round, is_conn}
use omnixtend_c.Loop.{write_memory, write_message}
use omnixtend_c.Receiver.Extract.{enqueue_room}
use omnixtend_c.Commands.{returns, with_room, repeat, write_command, handle_user_input}

-- A function that puts the message at the end of the queue if there is room.
abbrev Queues : (Endpoint → ℕ × Endpoint) → TlMsg → Type 0
Queues f m =
    (e : Endpoint)
    → IsValid e.message_buffer
    → length (contents e.message_buffer) ≢ e.message_buffer.size - 1
    → f e ≡ (1, record e { message_buffer = (enqueue e.message_buffer m).1 })

write-Queues : (addr value : ℕ) → Queues (λ x. write_memory x addr value) (write_message addr value)
unfolding write_memory
write-Queues addr value e v room =
    let (added, now, w, s) = enqueue_room e.message_buffer (write_message addr value) v room in
    rw added refl

module _ (f : Endpoint → ℕ × Endpoint) (m : TlMsg) (q : Queues f m) where
  with_room_lem :
      (e : Endpoint)
      → IsValid e.message_buffer
      → length (contents e.message_buffer) ≢ e.message_buffer.size - 1
      → with_room f e ≡ record {
        finished = true;
        endpoint = record e { message_buffer = (enqueue e.message_buffer m).1 };
      }
  unfolding with_room
  with_room_lem e v room =
      let free : is_queue_full e.message_buffer ≡ false =
        is_queue_full_lem e.message_buffer v ∙ ne→== _ _ room in
      rw (free, q e v room) refl

  repeat_lem :
      (n : ℕ) (e : Endpoint)
      → IsValid e.message_buffer
      → length (contents e.message_buffer) + n < e.message_buffer.size
      → (b : CircularQueue TlMsg) × (repeat n f e
          ≡ record { finished = true; endpoint = record e { message_buffer = b } })
        × IsValid b
        × (contents b ≡ contents e.message_buffer ++ replicate n m)
  unfolding repeat
  repeat_lem zero e v h = (e.message_buffer, refl, v, sym (append-nil (contents e.message_buffer)))
  repeat_lem (suc n) e v h =
      let room : length (contents e.message_buffer) ≢ e.message_buffer.size - 1 = omega arith in
      let (added, now, w, s) = enqueue_room e.message_buffer m v room in
      let b1 = (enqueue e.message_buffer m).1 in
      let (b, run, vb, all) =
        repeat_lem n (record e { message_buffer = b1 }) w
          (omega (arith, ap length now, length-append (contents e.message_buffer) (m ∷ []), s)) in
      (
        b,
        rw
            (
              ap (λ s. s.finished) (with_room_lem e v room),
              repeat,
              ap (λ s. s.endpoint) (with_room_lem e v room),
            )
            run,
        vb,
        all
            ∙ ap (λ l. l ++ replicate n m) now
            ∙ append_assoc (contents e.message_buffer) (m ∷ []) (replicate n m),
      )

-- The command `w` with an address, a value and a count, none of them 0, on an endpoint with a
-- connection and a valid queue of requests with room for the count, returns 0: as many writes of
-- the value to the address as the count says stand at the end of the queue, which is valid, and
-- nothing else of the endpoint changes.
pub write_command_lem :
    (wde : Bool) (rounds : List Round) (e : Endpoint) (mem_storage : Option Memory)
    (addr value n fabric_type master : ℕ)
    → is_conn e ≡ true
    → IsValid e.message_buffer
    → 0 < addr
    → 0 < value
    → 0 < n
    → length (contents e.message_buffer) + n < e.message_buffer.size
    → (b : CircularQueue TlMsg) × (handle_user_input wde rounds e mem_storage 119 addr
          (pos value)
          (pos n)
          fabric_type
          master
        ≡ ok (returns 0 (record e { message_buffer = b }) mem_storage))
      × IsValid b
      × (contents b ≡ contents e.message_buffer ++ replicate n (write_message addr value))
unfolding handle_user_input write_command
write_command_lem wde rounds e mem_storage addr value n fabric_type master conn v ha hv hn room =
    let (b, run, vb, all) =
      repeat_lem (λ x. write_memory x addr value) (write_message addr value)
        (write-Queues addr value) n e v room in
    (
      b,
      rw
          (
            conn,
            ne→== addr 0 (omega arith),
            ne→== value 0 (omega arith),
            ne→== n 0 (omega arith),
            run,
          )
          refl,
      vb,
      all,
    )
