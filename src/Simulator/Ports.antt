-- ===== src/Simulator/Ports.antt =====
-- tloe_ns_thread.c: the queues of the two ports.
use omnixtend_c.Base.{
  ℕ, ◌-◌, Bool, true, false, Option, none, some, List, ◌++◌, take, Outcome, ok, ◌>>=◌, zero, suc,
  if◌then◌else◌,
}
use omnixtend_c.Mq.{
  Mqueue, TloeMq, tloe_mq_open, tloe_mq_close, suffix_a, suffix_b, role_master, role_slave,
}
use omnixtend_c.Simulator.{buffer_size}

abbrev pub max_queue_name : ℕ
max_queue_name = 64

-- `snprintf` into the array of 64 bytes
abbrev pub port_name : List ℕ → List ℕ → List ℕ
port_name queue_name suffix = take (max_queue_name - 1) (queue_name ++ suffix)

-- The static pointers to the ports.
pub record Ports (D : Type 0) : Type 0 where
  pub ep_port_a : Option (TloeMq D)
  pub ep_port_b : Option (TloeMq D)

module _ {W D : Type 0} (os : Mqueue W D) where
  -- `tloe_mq_open` never returns NULL: it ends the program where a queue cannot be opened.
  unfoldable pub thread_init : List ℕ → W → Outcome (Ports D × W)
  thread_init queue_name w = do
    a ← tloe_mq_open os (port_name queue_name suffix_a) role_slave true w
    b ← tloe_mq_open os (port_name queue_name suffix_b) role_master true a.1
    ok (record { ep_port_a = some a.0; ep_port_b = some b.0 }, b.1)

  unfoldable pub thread_close : Ports D → W → Ports D × W
  thread_close ports w = (
    record { ep_port_a = none; ep_port_b = none },
    tloe_mq_close os ports.ep_port_b (tloe_mq_close os ports.ep_port_a w),
  )

  -- The receives until the first that fails, as many as the fuel allows; the first part of the
  -- result says whether one has failed.
  unfoldable pub flush_loop : ℕ → D → W → Bool × W
  flush_loop zero mq w = (false, w)
  flush_loop (suc fuel) mq w =
      let (packet, w') = os.mq_receive mq buffer_size w in
      elim packet [ some bytes ↦ flush_loop fuel mq w' | none ↦ (true, w') ]

  -- `true` for the result 0.
  unfoldable pub flush_message_queue : ℕ → D → W → Bool × W
  unfolding flush_loop
  flush_message_queue fuel mq w = elim (os.mq_getattr mq w) [
    | none ↦ (false, w)
    | some attr ↦
        let (set, w1) = os.mq_setattr mq (os.nonblocking attr) w in
        if set then os.mq_setattr mq attr (flush_loop fuel mq w1).1 else (false, w1)
  ]

  -- The receive queue is flushed only if that worked for the other.
  unfoldable pub flush_port : ℕ → TloeMq D → W → Bool × W
  unfolding flush_message_queue
  flush_port fuel port w =
      let (flushed, w1) = flush_message_queue fuel port.mq_tx w in
      if flushed then flush_message_queue fuel port.mq_rx w1 else (false, w1)

  -- While the thread runs the ports are open.
  unfoldable pub tloe_ns_flush_ports : ℕ → Bool → TloeMq D → TloeMq D → W → W
  unfolding flush_port
  tloe_ns_flush_ports fuel is_done ep_port_a ep_port_b w =
      if is_done then w else (flush_port fuel ep_port_b (flush_port fuel ep_port_a w).1).1
