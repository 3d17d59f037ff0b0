-- ===== src/Commands/WellFormed.antt =====
-- The commands of the prompt keep what holds of an endpoint.
use omnixtend_c.Base.{
  ℕ, zero, suc, ◌+◌, ◌*◌, ◌^◌, arith, Bool, true, false, Option, List, ltb, ◌==◌, if◌then◌else◌,
  Outcome, ok, undefined, ◌>>=◌, ℤ, pos, Ensures, Ensures-bind, Ensures-skip, Ensures-if,
  Ensures-elim, Ensures-require, refl,
}
use omnixtend_c.TlMsg.{TlMsg}
use omnixtend_c.CircularQueue.{create_queue, enqueue, is_queue_full}
use omnixtend_c.CircularQueue.Laws.{create_queue_lem}
use omnixtend_c.FlowControl.{init_flowcontrol}
use omnixtend_c.Endpoint.{Endpoint, window_size, tloe_endpoint_init}
use omnixtend_c.Endpoint.WellFormed.{IsWellFormed, with_messages, enqueue-IsValid}
use omnixtend_c.Handler.{Memory, tl_handler_init}
use omnixtend_c.Loop.{
  bare_message, read_message, write_message, create_and_enqueue_message, read_memory, write_memory,
}
use omnixtend_c.Connection.{
  Round, open_conn_master, open_conn_slave, close_conn_master, close_conn_slave, is_conn,
}
use omnixtend_c.Connection.WellFormed.{
  Known, open_master-IsWellFormed, open_slave-IsWellFormed, close_master-IsWellFormed,
  close_slave-IsWellFormed,
}
use omnixtend_c.Commands.{
  Command, returns, waits, Sent, ends, with_room, repeat, test_from, after_connection, connect,
  disconnect, read_command, write_command, handle_user_input, rounds_to, is_zero, to_uint64,
}

pub init-IsWellFormed :
    (e : Endpoint) (fabric_type master_slave : ℕ)
    → Ensures IsWellFormed (tloe_endpoint_init e fabric_type master_slave)
unfolding tloe_endpoint_init create_queue
init-IsWellFormed e fabric_type master_slave =
    Ensures-skip IsWellFormed (init_flowcontrol e.fc) _ (λ fc. record {
      window_valid = (create_queue_lem (window_size + 1) (omega arith)).0;
      window_slots = refl;
      messages_valid = (create_queue_lem 10000 (omega arith)).0;
      acks_valid = (create_queue_lem 2048 (omega arith)).0;
      taken_valid = (create_queue_lem 10000 (omega arith)).0;
      responses_valid = (create_queue_lem 100 (omega arith)).0;
      next_tx_small = omega arith;
      next_rx_small = omega arith;
      acked_small = omega arith;
    })

-- A message is put into the buffer, or freed if there is no room.
abbrev queued : Endpoint → TlMsg → Bool → ℕ × Endpoint
queued e m added =
    if added then (1, record e { message_buffer = (enqueue e.message_buffer m).1 }) else (0, e)

queued-IsWellFormed :
    (e : Endpoint) (m : TlMsg) (added : Bool) → IsWellFormed e → IsWellFormed (queued e m added).1
queued-IsWellFormed e m true w =
    with_messages w (enqueue-IsValid e.message_buffer (w.messages_valid) m)
queued-IsWellFormed e m false w = w

-- What puts a message into the buffer.
abbrev Keeps : (Endpoint → ℕ × Endpoint) → Type 0
Keeps f = (e : Endpoint) → IsWellFormed e → IsWellFormed (f e).1

pub bare-IsWellFormed : Keeps create_and_enqueue_message
unfolding create_and_enqueue_message
bare-IsWellFormed e w =
    queued-IsWellFormed e bare_message (enqueue e.message_buffer bare_message).0 w

pub read-IsWellFormed : (addr : ℕ) → Keeps (λ e. read_memory e addr)
unfolding read_memory
read-IsWellFormed addr e w =
    queued-IsWellFormed e (read_message addr) (enqueue e.message_buffer (read_message addr)).0 w

pub write-IsWellFormed : (addr value : ℕ) → Keeps (λ e. write_memory e addr value)
unfolding write_memory
write-IsWellFormed addr value e w =
    queued-IsWellFormed e (write_message addr value)
      (enqueue e.message_buffer (write_message addr value)).0 w

abbrev SentWell : Sent → Type 0
SentWell s = IsWellFormed s.endpoint

room-IsWellFormed :
    (f : Endpoint → ℕ × Endpoint) (e : Endpoint)
    → Keeps f
    → IsWellFormed e
    → SentWell (with_room f e)
unfolding with_room
room-IsWellFormed f e k w = go (is_queue_full e.message_buffer)
  where
    go :
        (b : Bool)
        → SentWell (
            if b
            then record { finished = false; endpoint = e }
            else record { finished = true; endpoint = (f e).1 })
    go true = w
    go false = k e w

repeat-IsWellFormed :
    (n : ℕ) (f : Endpoint → ℕ × Endpoint) (e : Endpoint)
    → Keeps f
    → IsWellFormed e
    → SentWell (repeat n f e)
unfolding repeat
repeat-IsWellFormed zero f e k w = w
repeat-IsWellFormed (suc n) f e k w =
    let s = with_room f e in
    let v = room-IsWellFormed f e k w in go s.finished v (repeat-IsWellFormed n f s.endpoint k v)
  where
    go :
        (b : Bool)
        → SentWell (with_room f e)
        → SentWell (repeat n f (with_room f e).endpoint)
        → SentWell (elim b [ true ↦ repeat n f (with_room f e).endpoint | false ↦ with_room f e ])
    go true v h = h
    go false v h = v

test-IsWellFormed : (n i : ℕ) (e : Endpoint) → IsWellFormed e → Ensures SentWell (test_from n i e)
unfolding test_from
test-IsWellFormed zero i e w = w
test-IsWellFormed (suc n) i e w =
    let a = with_room (λ x. write_memory x (4096 + 4096 * i) (4096 + i)) e in
    let va =
      room-IsWellFormed (λ x. write_memory x (4096 + 4096 * i) (4096 + i)) e
        (write-IsWellFormed _ _) w in
    let b = with_room (λ x. read_memory x (4096 + 4096 * i)) a.endpoint in
    let vb =
      room-IsWellFormed (λ x. read_memory x (4096 + 4096 * i)) a.endpoint (read-IsWellFormed _)
        va in
    Ensures-require SentWell (ltb (4096 + 4096 * i) (2 ^ 31)) undefined _ (
      Ensures-elim SentWell a.finished _ _
        (Ensures-elim SentWell b.finished _ _ (test-IsWellFormed n (i + 1) b.endpoint vb) vb) va)

-- What a command has come to.
abbrev pub CommandWell : Command → Type 0
CommandWell (returns r e mem) = IsWellFormed e
CommandWell (waits e) = IsWellFormed e

ends-CommandWell : (mem : Option Memory) (s : Sent) → SentWell s → CommandWell (ends mem s)
ends-CommandWell mem s w = go s.finished
  where
    go : (b : Bool) → CommandWell (if b then returns 0 s.endpoint mem else waits s.endpoint)
    go true = w
    go false = w

after-CommandWell :
    (c : Bool × Endpoint) (next : Endpoint → Outcome Command)
    → Known c
    → ((e : Endpoint) → IsWellFormed e → Ensures CommandWell (next e))
    → Ensures CommandWell (after_connection c next)
after-CommandWell (true, e) next w k = k e w
after-CommandWell (false, e) next w k = w

module _ (e : Endpoint) (mem : Option Memory) (w : IsWellFormed e) where
  connect-CommandWell :
      (wde : Bool) (rounds : List Round) → Ensures CommandWell (connect wde rounds e mem)
  unfolding connect
  connect-CommandWell wde rounds =
      let done : Endpoint → Outcome Command =
        λ e'. ok (returns 0 (record e' { connection = 1 }) mem) in
      Ensures-if CommandWell (e.master == 1) _ _
        (Ensures-bind Known CommandWell (open_conn_master wde e rounds) _
          (open_master-IsWellFormed e rounds w wde)
          (λ c k. after-CommandWell c done k (λ e' w'. w')))
        (Ensures-if CommandWell (e.master == 0) _ _
          (Ensures-bind Known CommandWell (open_conn_slave wde e rounds) _
            (open_slave-IsWellFormed e rounds w wde)
            (λ c k. after-CommandWell c done k (λ e' w'. w')))
          w)

  disconnect-CommandWell :
      (rounds : List Round) (fabric_type master : ℕ)
      → Ensures CommandWell (disconnect rounds e mem fabric_type master)
  unfolding disconnect
  disconnect-CommandWell rounds fabric_type master =
      let e0 = record e { connection = 0 } in
      let finish : Endpoint → Outcome Command = λ e'. ok (returns 0 e' (tl_handler_init mem)) in
      let done : Endpoint → Outcome Command =
        λ e'. tloe_endpoint_init e' fabric_type master >>= finish in
      let again = λ (e' : Endpoint) (w' : IsWellFormed e').
        Ensures-bind IsWellFormed CommandWell (tloe_endpoint_init e' fabric_type master) finish
          (init-IsWellFormed e' fabric_type master) (λ e'' w''. w'') in
      Ensures-if CommandWell (e.master == 1) _ _
        (Ensures-bind Known CommandWell (close_conn_master e0 rounds) _
          (close_master-IsWellFormed e0 rounds w) (λ c k. after-CommandWell c done k again))
        (Ensures-if CommandWell (e.master == 0) _ _
          (Ensures-bind Known CommandWell (close_conn_slave e0 rounds) _
            (close_slave-IsWellFormed e0 rounds w) (λ c k. after-CommandWell c done k again))
          w)

  repeated-CommandWell :
      (n : ℕ) (f : Endpoint → ℕ × Endpoint) → Keeps f → CommandWell (ends mem (repeat n f e))
  repeated-CommandWell n f k = ends-CommandWell mem (repeat n f e) (repeat-IsWellFormed n f e k w)

  read-CommandWell : (args1 : ℕ) (args2 : ℤ) → CommandWell (read_command e mem args1 args2)
  unfolding read_command
  read-CommandWell args1 args2 = go (args1 == 0)
    where
      again : Command
      again =
          ends mem (
            repeat (rounds_to (if is_zero args2 then pos 1 else args2)) (λ x. read_memory x args1)
              e)

      go : (b : Bool) → CommandWell (if b then returns 0 e mem else again)
      go true = w
      go false = repeated-CommandWell _ (λ x. read_memory x args1) (read-IsWellFormed args1)

  write-CommandWell :
      (args1 : ℕ) (args2 args3 : ℤ) → CommandWell (write_command e mem args1 args2 args3)
  unfolding write_command
  write-CommandWell args1 args2 args3 = go (args1 == 0) (is_zero args2)
    where
      again : Command
      again = ends mem (
          repeat (rounds_to (if is_zero args3 then pos 1 else args3))
            (λ x. write_memory x args1 (to_uint64 args2)) e)

      go :
          (b c : Bool)
          → CommandWell (if b then returns 0 e mem else if c then returns 0 e mem else again)
      go true c = w
      go false true = w
      go false false =
          repeated-CommandWell _ (λ x. write_memory x args1 (to_uint64 args2))
            (write-IsWellFormed args1 (to_uint64 args2))

  pub input-CommandWell :
      (wde : Bool) (rounds : List Round) (input args1 : ℕ) (args2 args3 : ℤ)
      (fabric_type master : ℕ)
      → Ensures CommandWell
          (handle_user_input wde rounds e mem input args1 args2 args3 fabric_type master)
  unfolding handle_user_input
  input-CommandWell wde rounds input args1 args2 args3 fabric_type master =
      Ensures-if CommandWell (input == 115) _ _ w (
        Ensures-if CommandWell (input == 97) _ _
          (Ensures-if CommandWell (is_conn e) _ _
            (repeated-CommandWell args1 create_and_enqueue_message bare-IsWellFormed) w)
          (Ensures-if CommandWell (input == 99) _ _ (connect-CommandWell wde rounds) (
            Ensures-if CommandWell (input == 100) _ _
              (disconnect-CommandWell rounds fabric_type master)
              (Ensures-if CommandWell (input == 114) _ _
                (Ensures-if CommandWell (is_conn e) (ok (read_command e mem args1 args2)) _
                  (read-CommandWell args1 args2) w)
                (Ensures-if CommandWell (input == 119) _ _
                  (Ensures-if CommandWell (is_conn e) (ok (write_command e mem args1 args2 args3)) _
                    (write-CommandWell args1 args2 args3) w)
                  (Ensures-if CommandWell (input == 116) _ _
                    (Ensures-if CommandWell (is_conn e) _ _
                      (Ensures-bind SentWell CommandWell (test_from args1 0 e) _
                        (test-IsWellFormed args1 0 e w) (λ s v. ends-CommandWell mem s v))
                      w)
                    (Ensures-if CommandWell (input == 113) _ _ w w)))))))
