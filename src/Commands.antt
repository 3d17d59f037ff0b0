-- ===== src/Commands.antt =====
-- tloe_endpoint.c: the commands of the endpoint's prompt. What is printed is left out. A command
-- that finds the message buffer full waits for the thread, and one that opens or closes a connection
-- waits for the peer over the rounds that are given: `waits` is how far it got.
pub mod Queued
pub mod WellFormed
use omnixtend_c.Base.{
  ℕ, zero, suc, ◌+◌, ◌-◌, ◌*◌, ◌^◌, Bool, true, false, Option, none, some, List, [], ◌∷◌, ltb, ◌==◌,
  if◌then◌else◌, Outcome, ok, undefined, require, ◌>>=◌, ◌>>◌, ℤ, pos,
}
use omnixtend_c.TlMsg.{TlMsg}
use omnixtend_c.CircularQueue.{is_queue_full}
use omnixtend_c.Endpoint.{Endpoint, tloe_endpoint_init}
use omnixtend_c.Handler.{Memory, tl_handler_init}
use omnixtend_c.Loop.{create_and_enqueue_message, read_memory, write_memory}
use omnixtend_c.Connection.{
  Round, open_conn_master, open_conn_slave, close_conn_master, close_conn_slave, is_conn,
}

-- What a command leaves, with the result that it returns.
pub data Command : Type 0 where
  returns : ℕ → Endpoint → Option Memory → Command
  waits : Endpoint → Command

-- What is sent to the message buffer: whether all of it was.
pub record Sent : Type 0 where
  pub finished : Bool
  pub endpoint : Endpoint

-- `(uint64_t)` of an `int`
abbrev pub to_uint64 : ℤ → ℕ
to_uint64 (pos n) = n
to_uint64 (ℤ.negsuc n) = 2 ^ 64 - 1 - n

-- how often a loop from 0 runs to an `int`
abbrev pub rounds_to : ℤ → ℕ
rounds_to (pos n) = n
rounds_to (ℤ.negsuc n) = 0

abbrev pub is_zero : ℤ → Bool
is_zero (pos n) = n == 0
is_zero (ℤ.negsuc n) = false

-- One message, behind the wait for room in front of it.
unfoldable pub with_room : (Endpoint → ℕ × Endpoint) → Endpoint → Sent
with_room queue_message e =
    if is_queue_full e.message_buffer
    then record { finished = false; endpoint = e }
    else record { finished = true; endpoint = (queue_message e).1 }

unfoldable pub repeat : ℕ → (Endpoint → ℕ × Endpoint) → Endpoint → Sent
unfolding with_room
repeat zero queue_message e = record { finished = true; endpoint = e }
repeat (suc n) queue_message e =
    let s = with_room queue_message e in
    elim s.finished [ true ↦ repeat n queue_message s.endpoint | false ↦ s ]

abbrev ends : Option Memory → Sent → Command
ends mem_storage s = if s.finished then returns 0 s.endpoint mem_storage else waits s.endpoint

-- The command `t` from the `i`-th pair on: its address is computed in an `int`.
unfoldable pub test_from : ℕ → ℕ → Endpoint → Outcome Sent
unfolding with_room
test_from zero i e = ok (record { finished = true; endpoint = e })
test_from (suc n) i e = require (ltb (4096 + 4096 * i) (2 ^ 31)) undefined >>= λ passed.
    let w = with_room (λ x. write_memory x (4096 + 4096 * i) (4096 + i)) e in
    let r = with_room (λ x. read_memory x (4096 + 4096 * i)) w.endpoint in
    elim w.finished [
      | false ↦ ok w
      | true ↦ elim r.finished [ false ↦ ok r | true ↦ test_from n (i + 1) r.endpoint ]
    ]

-- What a connection loop has come to: whether it ended, and with what.
abbrev after_connection : (Bool × Endpoint) → (Endpoint → Outcome Command) → Outcome Command
after_connection (ended, e) next = if ended then next e else ok (waits e)

-- The command `c`. The endpoint is a master, a slave, or neither.
unfoldable pub connect : Bool → List Round → Endpoint → Option Memory → Outcome Command
connect wde rounds e mem_storage =
    let done : Endpoint → Outcome Command =
      λ e'. ok (returns 0 (record e' { connection = 1 }) mem_storage) in
    if e.master == 1
    then (open_conn_master wde e rounds >>= λ c. after_connection c done)
    else if e.master == 0
    then (open_conn_slave wde e rounds >>= λ c. after_connection c done)
    else ok (returns 0 e mem_storage)

-- The command `d`.
unfoldable pub disconnect : List Round → Endpoint → Option Memory → ℕ → ℕ → Outcome Command
disconnect rounds e mem_storage fabric_type master =
    let e0 : Endpoint = record e { connection = 0 } in
    let done : Endpoint → Outcome Command = λ e'.
      tloe_endpoint_init e' fabric_type master >>= λ e''.
      ok (returns 0 e'' (tl_handler_init mem_storage)) in
    if e.master == 1
    then (close_conn_master e0 rounds >>= λ c. after_connection c done)
    else if e.master == 0
    then (close_conn_slave e0 rounds >>= λ c. after_connection c done)
    else ok (returns 0 e0 mem_storage)

-- The commands `r` and `w`, with a connection.
unfoldable pub read_command : Endpoint → Option Memory → ℕ → ℤ → Command
unfolding repeat
read_command e mem_storage args1 args2 =
    if args1 == 0
    then returns 0 e mem_storage
    else ends mem_storage
        (repeat (rounds_to (if is_zero args2 then pos 1 else args2)) (λ x. read_memory x args1) e)

unfoldable pub write_command : Endpoint → Option Memory → ℕ → ℤ → ℤ → Command
unfolding repeat
write_command e mem_storage args1 args2 args3 =
    if args1 == 0
    then returns 0 e mem_storage
    else if is_zero args2
    then returns 0 e mem_storage
    else ends mem_storage (
        repeat (rounds_to (if is_zero args3 then pos 1 else args3))
          (λ x. write_memory x args1 (to_uint64 args2)) e)

-- `input` is the character: s, a, c, d, r, w, t or q. The command `s` only prints.
unfoldable pub handle_user_input :
    Bool → List Round → Endpoint → Option Memory → ℕ → ℕ → ℤ → ℤ → ℕ → ℕ → Outcome Command
unfolding repeat test_from connect disconnect read_command write_command
handle_user_input wde rounds e mem_storage input args1 args2 args3 fabric_type master =
    let unchanged : Outcome Command = ok (returns 0 e mem_storage) in
    if input == 115
    then unchanged
    else if input == 97
    then (if is_conn e
        then ok (ends mem_storage (repeat args1 create_and_enqueue_message e))
        else unchanged)
    else if input == 99
    then connect wde rounds e mem_storage
    else if input == 100
    then disconnect rounds e mem_storage fabric_type master
    else if input == 114
    then (if is_conn e then ok (read_command e mem_storage args1 args2) else unchanged)
    else if input == 119
    then (if is_conn e then ok (write_command e mem_storage args1 args2 args3) else unchanged)
    else if input == 116
    then (if is_conn e then (test_from args1 0 e >>= λ s. ok (ends mem_storage s)) else unchanged)
    else if input == 113
    then ok (returns 1 (record e { is_done = 1 }) mem_storage)
    else unchanged

-- A line of input, as `sscanf` reads it, with the rounds of a connection that it may open or close.
pub record Line : Type 0 where
  pub input : ℕ
  pub args1 : ℕ
  pub args2 : ℤ
  pub args3 : ℤ
  pub rounds : List Round

-- The loop of `main` over the lines that are given, `none` for one that cannot be read.
unfoldable pub prompt :
    Bool → Endpoint → Option Memory → ℕ → ℕ → List (Option Line) → Outcome Command
unfolding handle_user_input
prompt wde e mem_storage fabric_type master [] = ok (waits e)
prompt wde e mem_storage fabric_type master (none ∷ lines) = elim (e.is_done == 0) [
  | false ↦ ok (returns 0 e mem_storage)
  | true ↦ prompt wde e mem_storage fabric_type master lines
]
prompt wde e mem_storage fabric_type master (some l ∷ lines) = elim (e.is_done == 0) [
  | false ↦ ok (returns 0 e mem_storage)
  | true ↦
      handle_user_input wde l.rounds e mem_storage l.input l.args1 l.args2 l.args3 fabric_type
        master
      >>= λ c. elim c [
        | waits e' ↦ ok (waits e')
        | returns ret e' mem' ↦ elim (ret == 0) [
          | true ↦ prompt wde e' mem' fabric_type master lines
          | false ↦ ok (returns 0 e' mem')
        ]
      ]
]
