-- ===== src/Loop/WellFormed.antt =====
-- The thread's rounds keep what holds of an endpoint.
use omnixtend_c.Base.{
  ℕ, ◌-◌, Bool, true, false, Option, none, some, ltb, if◌then◌else◌, ok, ◌>>=◌, Ensures,
  Ensures-bind, Ensures-skip,
}
use omnixtend_c.TlMsg.{TlMsg}
use omnixtend_c.FlowControl.{add_channel_flow_credits}
use omnixtend_c.CircularQueue.{dequeue}
use omnixtend_c.Endpoint.{Endpoint}
use omnixtend_c.Endpoint.WellFormed.{IsWellFormed, with_messages, with_responses, dequeue-IsValid}
use omnixtend_c.Receiver.{rx}
use omnixtend_c.Receiver.WellFormed.{rx-IsWellFormed}
use omnixtend_c.Transmitter.{tx}
use omnixtend_c.Transmitter.WellFormed.{tx-IsWellFormed}
use omnixtend_c.Handler.{Handled, tl_handler}
use omnixtend_c.Handler.WellFormed.{HandledWell, handler-IsWellFormed}
use omnixtend_c.Loop.{Thread, Input, select_buffer, round}

-- The message that `select_buffer` takes off one of the two queues.
select-IsWellFormed :
    (counter : ℕ) (e : Endpoint) → IsWellFormed e → IsWellFormed (select_buffer counter e).2
unfolding select_buffer
select-IsWellFormed counter e w = go (ltb 0 (counter - 1)) (dequeue e.response_buffer).0
  where
    responses : IsWellFormed (record e { response_buffer = (dequeue e.response_buffer).1 })
    responses = with_responses w (dequeue-IsValid e.response_buffer (w.responses_valid))

    go :
        (b : Bool) (response : Option TlMsg)
        → let (r, rs) = dequeue e.response_buffer in
          let (m, ms) = dequeue e.message_buffer in
          let chosen : Option TlMsg × ℕ × Endpoint =
            if b
            then elim response [
              | some a ↦ (some a, counter - 1, record e { response_buffer = rs })
              | none ↦ (m, 4, record e { response_buffer = rs; message_buffer = ms })
            ]
            else (m, 4, record e { message_buffer = ms }) in
          IsWellFormed chosen.2
    go true (some a) = responses
    go true none = with_messages responses (dequeue-IsValid e.message_buffer (w.messages_valid))
    go false response = with_messages w (dequeue-IsValid e.message_buffer (w.messages_valid))

-- The message of a round: the one that is left, or one of a queue.
abbrev chosen : Thread → Option TlMsg → Option TlMsg × ℕ × Endpoint
chosen t left = elim left [
  | some m ↦ (some m, t.counter, t.endpoint)
  | none ↦ select_buffer t.counter t.endpoint
]

chosen-IsWellFormed :
    (t : Thread) (left : Option TlMsg) → IsWellFormed t.endpoint → IsWellFormed (chosen t left).2
chosen-IsWellFormed t (some m) w = w
chosen-IsWellFormed t none w = select-IsWellFormed t.counter t.endpoint w

credits-IsWellFormed :
    (handled : Handled) (e : Endpoint)
    → IsWellFormed e
    → Ensures IsWellFormed (elim handled [
      | none ↦ ok e
      | some (chan, credit) ↦
          add_channel_flow_credits e.fc chan credit >>= λ fc. ok (record e { fc = fc })
    ])
credits-IsWellFormed none e w = w
credits-IsWellFormed (some (chan, credit)) e w =
    Ensures-skip IsWellFormed (add_channel_flow_credits e.fc chan credit) _ (λ fc. w)

abbrev pub RoundWell : Thread → Type 0
RoundWell t = IsWellFormed t.endpoint

pub round-IsWellFormed :
    (t : Thread) (input : Input) → IsWellFormed t.endpoint → Ensures RoundWell (round t input)
unfolding round
round-IsWellFormed t input w =
    let c = chosen t (t.request_tlmsg) in
    let e0 = record (c.2) { iteration_ts = input.now } in
    Ensures-bind _ RoundWell (tx (input.garbage) (input.garbage') e0 (c.0)) _
      (tx-IsWellFormed (input.garbage) (input.garbage') e0 (c.0)
        (chosen-IsWellFormed t (t.request_tlmsg) w))
      (λ r w1.
        Ensures-bind IsWellFormed RoundWell (rx r.1 (input.packet)) _
          (rx-IsWellFormed r.1 (input.packet) w1)
          (λ e w2.
            Ensures-bind HandledWell RoundWell (tl_handler e (t.memory)) _
              (handler-IsWellFormed e (t.memory) w2)
              (λ h w3.
                Ensures-bind IsWellFormed RoundWell _ _ (credits-IsWellFormed h.0 h.1 w3)
                  (λ e' w'. w'))))
