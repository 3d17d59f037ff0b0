-- ===== src/Life.antt =====
-- The life of an endpoint, from `main` of tloe_endpoint.c: the thread's rounds and the commands of
-- the prompt, in any order. A command that waits for room or for the peer leaves the endpoint as it
-- is at the wait; a message that it queues later is a step of its own.
use omnixtend_c.Base.{ℕ, ◌≡◌, Bool, none, some, List, ok, ℤ, Ensures-ok}
use omnixtend_c.Endpoint.{Endpoint, tloe_endpoint_init}
use omnixtend_c.Endpoint.WellFormed.{IsWellFormed}
use omnixtend_c.Handler.{Memory}
use omnixtend_c.Loop.{Thread, Input, round, create_and_enqueue_message, read_memory, write_memory}
use omnixtend_c.Loop.WellFormed.{RoundWell, round-IsWellFormed}
use omnixtend_c.Connection.{Round}
use omnixtend_c.Commands.{returns, waits, handle_user_input}
use omnixtend_c.Commands.WellFormed.{
  CommandWell, init-IsWellFormed, bare-IsWellFormed, read-IsWellFormed, write-IsWellFormed,
  input-CommandWell,
}

pub data Life : Thread → Type 0 where
  starts :
      (e : Endpoint) {e' : Endpoint} (memory : Memory) (fabric_type master : ℕ)
      → tloe_endpoint_init e fabric_type master ≡ ok e'
      → Life (record { endpoint = e'; memory = memory; counter = 4; request_tlmsg = none })
  goes_round : {t t' : Thread} (input : Input) → Life t → round t input ≡ ok t' → Life t'
  commanded :
      {t : Thread} {ret : ℕ} {e' : Endpoint} {memory : Memory} (wde : Bool) (rounds : List Round)
      (input args1 : ℕ) (args2 args3 : ℤ) (fabric_type master : ℕ)
      → Life t
      → handle_user_input wde rounds t.endpoint
          (some t.memory)
          input
          args1
          args2
          args3
          fabric_type
          master
        ≡ ok (returns ret e' (some memory))
      → Life (record t { endpoint = e'; memory = memory })
  interrupted :
      {t : Thread} {e' : Endpoint} (wde : Bool) (rounds : List Round) (input args1 : ℕ)
      (args2 args3 : ℤ) (fabric_type master : ℕ)
      → Life t
      → handle_user_input wde rounds t.endpoint
          (some t.memory)
          input
          args1
          args2
          args3
          fabric_type
          master
        ≡ ok (waits e')
      → Life (record t { endpoint = e' })
  queues :
      {t : Thread}
      → Life t
      → Life (record t { endpoint = (create_and_enqueue_message t.endpoint).1 })
  reads :
      {t : Thread} (addr : ℕ)
      → Life t
      → Life (record t { endpoint = (read_memory t.endpoint addr).1 })
  writes :
      {t : Thread} (addr value : ℕ)
      → Life t
      → Life (record t { endpoint = (write_memory t.endpoint addr value).1 })

-- From its initialisation on, through all rounds of its thread, all commands of the prompt and all
-- messages that are queued, in any order, as long as each returns, an endpoint is well-formed: its
-- five queues are valid, its retransmission buffer has five slots, so that at most four frames
-- wait, and its three sequence numbers are below 2 ^ 22.
pub life-IsWellFormed : {t : Thread} → Life t → IsWellFormed t.endpoint
life-IsWellFormed (starts e memory fabric_type master run) =
    Ensures-ok IsWellFormed (init-IsWellFormed e fabric_type master) run
life-IsWellFormed (goes_round {t} input l run) =
    Ensures-ok RoundWell (round-IsWellFormed t input (life-IsWellFormed l)) run
life-IsWellFormed (commanded {t} wde rounds input args1 args2 args3 fabric_type master l run) =
    Ensures-ok CommandWell
      (input-CommandWell t.endpoint (some t.memory) (life-IsWellFormed l) wde rounds input args1
        args2 args3 fabric_type master)
      run
life-IsWellFormed (interrupted {t} wde rounds input args1 args2 args3 fabric_type master l run) =
    Ensures-ok CommandWell
      (input-CommandWell t.endpoint (some t.memory) (life-IsWellFormed l) wde rounds input args1
        args2 args3 fabric_type master)
      run
life-IsWellFormed (queues {t} l) = bare-IsWellFormed t.endpoint (life-IsWellFormed l)
life-IsWellFormed (reads {t} addr l) = read-IsWellFormed addr t.endpoint (life-IsWellFormed l)
life-IsWellFormed (writes {t} addr value l) =
    write-IsWellFormed addr value t.endpoint (life-IsWellFormed l)
