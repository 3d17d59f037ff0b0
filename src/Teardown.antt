-- ===== src/Teardown.antt =====
-- tloe_endpoint.c: `tloe_endpoint_close`. The thread has ended, since `pthread_join` waits for it.
use omnixtend_c.Base.{◌≡◌, refl, false, Option, none, some, List, Outcome, ok, ◌>>=◌}
use omnixtend_c.TlMsg.{TlMsg}
use omnixtend_c.Frame.{Frame}
use omnixtend_c.CircularQueue.{delete_queue}
use omnixtend_c.CircularQueue.Contents.{contents}
use omnixtend_c.CircularQueue.Delete.{delete_queue_lem}
use omnixtend_c.Endpoint.{Endpoint, RetransmitBufferElement}
use omnixtend_c.Handler.{Memory, tl_handler_close}
use omnixtend_c.Loop.{Thread}
use omnixtend_c.Life.{Life, life-IsWellFormed}

-- What is freed with the queues.
pub record Freed : Type 0 where
  pub messages : List TlMsg
  pub window : List RetransmitBufferElement
  pub acks : List Frame
  pub taken : List TlMsg
  pub responses : List TlMsg

-- The fabric's handle is closed, and `mem_storage` freed.
unfoldable pub tloe_endpoint_close :
    Endpoint → Option Memory → Outcome (Freed × Endpoint × Option Memory)
tloe_endpoint_close e mem_storage = do
  messages ← delete_queue e.message_buffer
  window ← delete_queue e.retransmit_buffer
  acks ← delete_queue e.ack_buffer
  taken ← delete_queue e.tl_msg_buffer
  responses ← delete_queue e.response_buffer
  ok (
    record {
      messages = messages;
      window = window;
      acks = acks;
      taken = taken;
      responses = responses;
    },
    record e { handle_open = false },
    tl_handler_close mem_storage,
  )

-- At any time of an endpoint's life, `tloe_endpoint_close` returns: it frees exactly the elements
-- that wait in the five queues, each once, closes the handle and frees the memory that is served.
pub tloe_endpoint_close_lem :
    (t : Thread)
    → Life t
    → let e = t.endpoint in
      tloe_endpoint_close e (some t.memory)
      ≡ ok (
        record {
          messages = contents e.message_buffer;
          window = contents e.retransmit_buffer;
          acks = contents e.ack_buffer;
          taken = contents e.tl_msg_buffer;
          responses = contents e.response_buffer;
        },
        record e { handle_open = false },
        none,
      )
unfolding tloe_endpoint_close tl_handler_close
tloe_endpoint_close_lem t l =
    let e = t.endpoint in
    let w = life-IsWellFormed l in
    rw
      (
        delete_queue_lem e.message_buffer (w.messages_valid),
        delete_queue_lem e.retransmit_buffer (w.window_valid),
        delete_queue_lem e.ack_buffer (w.acks_valid),
        delete_queue_lem e.tl_msg_buffer (w.taken_valid),
        delete_queue_lem e.response_buffer (w.responses_valid),
      )
      refl
