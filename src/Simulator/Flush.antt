-- ===== src/Simulator/Flush.antt =====
-- tloe_ns_thread.c: the queues under `tloe_ns_flush_ports`.
use omnixtend_c.Base.{
  ℕ, suc, ◌<◌, ◌≡◌, ap, refl, ◌∙◌, arith, Bool, true, false, none, List, inl, inr, Bool-cases,
  Option-cases,
}
use omnixtend_c.Mq.{Mqueue, TloeMq, tloe_mq_msg_size}
use omnixtend_c.Simulator.{buffer_size}
use omnixtend_c.Simulator.Ports.{flush_loop, flush_message_queue, flush_port, tloe_ns_flush_ports}

-- POSIX: a receive into a buffer smaller than the size of the queue's messages, which
-- `tloe_mq_open` sets, fails and takes nothing off; attributes are not messages.
pub record RefusesSmall {W D : Type 0} (os : Mqueue W D) (packets : D → W → List (List ℕ))
    : Type 0 where
  pub receive :
      (mq : D) (size : ℕ) (w : W) → size < tloe_mq_msg_size → os.mq_receive mq size w ≡ (none, w)
  pub setattr :
      (mq mq' : D) (a : os.Attr) (w : W) → packets mq' (os.mq_setattr mq a w).1 ≡ packets mq' w

module _ {W D : Type 0} (os : Mqueue W D) (packets : D → W → List (List ℕ))
    (r : RefusesSmall os packets) where
  loop_keeps : (fuel : ℕ) (mq : D) (w : W) → flush_loop os (suc fuel) mq w ≡ (true, w)
  unfolding flush_loop
  loop_keeps fuel mq w =
      let e = r.receive mq buffer_size w (omega arith) in
      rw (ap (λ p. p.0) e, ap (λ p. p.1) e, flush_loop) refl

  queue_keeps :
      (fuel : ℕ) (mq mq' : D) (w : W)
      → packets mq' (flush_message_queue os (suc fuel) mq w).1 ≡ packets mq' w
  unfolding flush_message_queue
  queue_keeps fuel mq mq' w = elim (Option-cases (os.mq_getattr mq w)) [
    | inl e ↦ rw (e, flush_message_queue) refl
    | inr (attr, e) ↦
        let w1 = (os.mq_setattr mq (os.nonblocking attr) w).1 in
        let first = r.setattr mq mq' (os.nonblocking attr) w in
        elim (Bool-cases (os.mq_setattr mq (os.nonblocking attr) w).0) [
          | inl set ↦
              rw (e, flush_message_queue, set, ap (λ p. p.1) (loop_keeps fuel mq w1))
                (r.setattr mq mq' attr w1 ∙ first)
          | inr failed ↦ rw (e, flush_message_queue, failed) first
        ]
  ]

  port_keeps :
      (fuel : ℕ) (port : TloeMq D) (mq' : D) (w : W)
      → packets mq' (flush_port os (suc fuel) port w).1 ≡ packets mq' w
  unfolding flush_port
  port_keeps fuel port mq' w =
      let first = queue_keeps fuel port.mq_tx mq' w in
      elim (Bool-cases (flush_message_queue os (suc fuel) port.mq_tx w).0) [
        | inl flushed ↦
            rw (flushed, flush_port)
              (queue_keeps fuel port.mq_rx mq' (flush_message_queue os (suc fuel) port.mq_tx w).1
                ∙ first)
        | inr failed ↦ rw (failed, flush_port) first
      ]

  -- If a receive into a buffer that is smaller than the queue's messages may be fails, as POSIX
  -- says, and attributes are not messages, `tloe_ns_flush_ports` leaves every message in every
  -- queue: its buffer has 1024 bytes, and the queues are opened for 1600.
  pub flush_ports_keeps :
      (fuel : ℕ) (is_done : Bool) (a b : TloeMq D) (mq : D) (w : W)
      → packets mq (tloe_ns_flush_ports os (suc fuel) is_done a b w) ≡ packets mq w
  unfolding tloe_ns_flush_ports
  flush_ports_keeps fuel true a b mq w = refl
  flush_ports_keeps fuel false a b mq w =
      port_keeps fuel b mq (flush_port os (suc fuel) a w).1 ∙ port_keeps fuel a mq w
