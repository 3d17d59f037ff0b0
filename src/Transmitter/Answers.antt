-- ===== src/Transmitter/Answers.antt =====
-- The frames of `TX` that only acknowledge: one that was asked for, and one for a window that has
-- been full for half the timeout.
use omnixtend_c.Base.{
  ℕ, ◌+◌, ◌≤◌, ◌≡◌, ap, refl, sym, ◌∙◌, arith, Bool, Bool-cases, not, ◌≢◌, ==→eq, true, false, ◌&&◌,
  Option, none, some, List, [], ◌∷◌, ◌++◌, append-nil, length, ok, ap₂, if◌then◌else◌, Outcome,
  ◌>>=◌, inl, inr, All,
}
use omnixtend_c.Fifo
use omnixtend_c.Frame.{Frame}
use omnixtend_c.Frame.Fields.{Fits}
use omnixtend_c.Frame.Packet.{packet_of}
use omnixtend_c.CircularQueue.{is_queue_full, getfront}
use omnixtend_c.CircularQueue.Contents.{contents}
use omnixtend_c.CircularQueue.Laws.{getfront_lem, is_queue_full_lem}
use omnixtend_c.Timeout.{is_timeout_tx_half}
use omnixtend_c.Endpoint.{Endpoint}
use omnixtend_c.Endpoint.WellFormed.{IsWellFormed}
use omnixtend_c.Transmitter.{tx_ackonly_asked, tx_ackonly_half}
use omnixtend_c.Link.Reply.{IsReply, send_ackonly_lem}

-- A packet that acknowledges what an endpoint has received so far.
abbrev pub Answer : Endpoint → List ℕ → Type 0
Answer e p = (f : Frame) × (p ≡ packet_of f 6) × IsReply e.next_rx_seq f

-- The endpoint when these packets have gone out.
abbrev pub answered : Endpoint → List (List ℕ) → Bool → Bool → ℕ → Endpoint
answered e packets asked_for once cnt = record e {
  wire = e.wire ++ packets;
  should_send_ackonly_frame = asked_for;
  ackonly_frame_sent = once;
  ackonly_cnt = cnt;
}

answered_none :
    (e : Endpoint) (asked_for : Bool)
    → e.should_send_ackonly_frame ≡ asked_for
    → e ≡ answered e [] asked_for e.ackonly_frame_sent e.ackonly_cnt
answered_none e asked_for h =
    ap₂ (λ w a. record e { wire = w; should_send_ackonly_frame = a }) (sym (append-nil e.wire)) h

if-true : {A : Type 0} {b : Bool} (x y : A) → b ≡ true → (if b then x else y) ≡ x
if-true x y h = ap (λ c. if c then x else y) h

if-false : {A : Type 0} {b : Bool} (x y : A) → b ≡ false → (if b then x else y) ≡ y
if-false x y h = ap (λ c. if c then x else y) h

-- A statement about a test, and one about an option, by what they find.
if-by {ℓ} :
    {A : Type 0} (P : A → Type ℓ) (b : Bool) (x y : A)
    → (b ≡ true → P x)
    → (b ≡ false → P y)
    → P (if b then x else y)
if-by P true x y h k = h refl
if-by P false x y h k = k refl

front-by {ℓ} :
    {A B : Type 0} (P : B → Type ℓ) (o : Option A) (x : B) (f : A → B)
    → (o ≡ none → P x)
    → ((a : A) → o ≡ some a → P (f a))
    → P (elim o [ none ↦ x | some a ↦ f a ])
front-by P none x f h k = h refl
front-by P (some a) x f h k = k a refl

some_first : {A : Type 0} (l : List A) → length l ≢ 0 → (Fifo.pop l).0 ≢ none
some_first [] h = absurd (h refl)
some_first (a ∷ l) h = cc

module _ (garbage : Frame) (e : Endpoint) (fits : Fits garbage.header)
    (held : 48 ≤ length garbage.flits) (open_ : e.handle_open ≡ true) (w : IsWellFormed e) where
  pub asked_lem :
      (packets : List (List ℕ)) × (tx_ackonly_asked garbage e
        ≡ ok (answered e packets false e.ackonly_frame_sent e.ackonly_cnt))
      × All (Answer e) packets
      × (length packets ≡ (if e.should_send_ackonly_frame then 1 else 0))
  unfolding tx_ackonly_asked
  asked_lem =
      let after : Endpoint → Outcome Endpoint =
        λ a. ok (record a { should_send_ackonly_frame = false }) in
      elim (Bool-cases e.should_send_ackonly_frame) [
        | inl asked_for ↦
            let (f, reply, run) =
              send_ackonly_lem garbage e fits held e.next_rx_seq open_
                (omega (arith, w.next_rx_small)) in
            (
              packet_of f 6 ∷ [],
              if-true _ (ok e) asked_for ∙ ap (λ r. r >>= after) run,
              ((f, refl, reply), tt),
              sym (if-true 1 0 asked_for),
            )
        | inr not_asked ↦ (
          [],
          if-false _ (ok e) not_asked ∙ ap ok (answered_none e false not_asked),
          tt,
          sym (if-false 1 0 not_asked),
        )
      ]

  -- The other frame, when the window is full for half the timeout.
  abbrev pub Half : Outcome Endpoint → Type 0
  Half r =
      (packets : List (List ℕ)) × (once : Bool) × (cnt : ℕ) × (r
        ≡ ok (answered e packets e.should_send_ackonly_frame once cnt))
      × All (Answer e) packets
      × (length packets ≤ 1)

  Half-none : Half (ok e)
  Half-none = (
    [],
    e.ackonly_frame_sent,
    e.ackonly_cnt,
    ap ok (answered_none e e.should_send_ackonly_frame refl),
    tt,
    omega arith,
  )

  full_first : is_queue_full e.retransmit_buffer ≡ true → getfront e.retransmit_buffer ≢ none
  full_first full none_first =
      let four = ==→eq _ _ (sym (is_queue_full_lem e.retransmit_buffer w.window_valid) ∙ full) in
      some_first (contents e.retransmit_buffer) (omega (arith, four, w.window_slots))
        (sym (getfront_lem e.retransmit_buffer w.window_valid) ∙ none_first)

  pub half_lem : Half (tx_ackonly_half garbage e)
  unfolding tx_ackonly_half
  half_lem =
      let a : Endpoint = record e { ackonly_frame_sent = true } in
      let after : Endpoint → Outcome Endpoint =
        λ b. ok (record b { ackonly_cnt = b.ackonly_cnt + 1 }) in
      if-by Half (is_queue_full e.retransmit_buffer && not e.ackonly_frame_sent) _ (ok e)
        (λ due.
          front-by Half (getfront e.retransmit_buffer) _ _
            (λ nothing. absurd (full_first (ground arith) nothing))
            (λ rbe first.
              if-by Half (is_timeout_tx_half e.iteration_ts rbe.send_time) _ (ok e)
                (λ late.
                  let (f, reply, run) =
                    send_ackonly_lem garbage a fits held e.next_rx_seq open_
                      (omega (arith, w.next_rx_small)) in
                  (
                    packet_of f 6 ∷ [],
                    true,
                    e.ackonly_cnt + 1,
                    ap (λ r. r >>= after) run,
                    ((f, refl, reply), tt),
                    omega arith,
                  ))
                (λ early. Half-none)))
        (λ not_due. Half-none)
