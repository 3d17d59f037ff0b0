-- ===== src/Transmitter/Request.antt =====
-- The part of `TX` that takes a message, an acknowledgement and credits out: what comes of it.
use omnixtend_c.Base.{
  ℕ, ◌+◌, ◌-◌, ◌*◌, ◌^◌, ◌≤◌, ◌<◌, ◌≡◌, ◌≢◌, ap, refl, ◌∙◌, arith, Bool-cases, ==→eq, ==→ne, ne→==,
  eq→==, ◌==◌, Option, none, some, List, [], ◌∷◌, length, ok, ◌⊎◌, inl, inr, true, false, ◌&&◌, leb,
  sym,
}
use omnixtend_c.TlMsg.{TlMsg, tlmsg_get_flits_cnt}
use omnixtend_c.Frame.{max_size_flit, tloe_get_fsize}
use omnixtend_c.CircularQueue.{is_queue_full, is_queue_empty}
use omnixtend_c.CircularQueue.Contents.{contents}
use omnixtend_c.CircularQueue.Laws.{is_queue_full_lem, is_queue_empty_lem}
use omnixtend_c.FlowControl.{Flowcontrol, minus_one, select_max_credit_channel}
use omnixtend_c.FlowControl.Credits.{flits-lt, credit_dec_spends, credit_dec_refuses}
use omnixtend_c.FlowControl.Outgoing.{select_max_lem, select_max_owed}
use omnixtend_c.Endpoint.{Endpoint}
use omnixtend_c.Endpoint.WellFormed.{IsWellFormed}
use omnixtend_c.Transmitter.{tx_credit, tx_frame, tx_request}
use omnixtend_c.Transmitter.Append.{element_of}
use omnixtend_c.Transmitter.Prepare.{Sendable}
use omnixtend_c.Transmitter.Send.{after_send, tx_frame_run}
use omnixtend_c.Receiver.Extract.{enqueue_room}
use omnixtend_c.Transmitter.Requested.{
  Sent, IsMessage, Requesting, Short, Requested, window_full, nothing_due, no_credit,
  without_message, due, paid,
}

-- An endpoint with room in its window that may send.
module _ (e : Endpoint) (open_ : e.handle_open ≡ true) (w : IsWellFormed e)
    (space : length (contents e.retransmit_buffer) ≢ e.retransmit_buffer.size - 1)
    (bound : (c : ℕ) → e.fc.tx_flow_credits c < 2 ^ 32) where
  -- A send by the endpoint, which may have spent credits.
  send_lem :
      (fc : Flowcontrol) (tlmsg : Option TlMsg) (k : ℕ)
      → fc.tx_flow_credits ≡ e.fc.tx_flow_credits
      → Sendable tlmsg
      → tloe_get_fsize tlmsg ≡ 8 + k * 8
      → k ≤ max_size_flit
      → (e' : Endpoint) × (tx_frame (record e { fc = fc }) tlmsg (select_max_credit_channel e.fc)
          ≡ ok e')
        × Sent (record e { fc = fc }) tlmsg e'
  send_lem fc tlmsg k same v size small =
      let a : Endpoint = record e { fc = fc } in
      let chan = select_max_credit_channel e.fc in
      let owed : (chan ≡ 0) ⊎ (0 < fc.tx_flow_credits chan) = rw same (select_max_owed e.fc) in
      let (f, q, fc', is_sent, run, popped, vq, held) =
        tx_frame_run a tlmsg chan k open_ w.window_valid space w.acks_valid v size small
          (select_max_lem e.fc 0 (omega arith)).0 owed (rw same (bound chan)) in
      let (added, now, vb, s) =
        enqueue_room e.retransmit_buffer (element_of a f (8 + k * 8)) w.window_valid space in
      (
        after_send a f k q fc',
        run,
        record {
          k = k;
          f = f;
          small = small;
          is_sent = is_sent;
          wire = refl;
          kept = now;
          next_tx_seq = refl;
          acks = popped;
          credits = held;
          handle_open = refl;
        },
      )

  unfilled : is_queue_full e.retransmit_buffer ≡ false
  unfilled = is_queue_full_lem e.retransmit_buffer w.window_valid ∙ ne→== _ _ space

  -- What a call comes to, once it is known what it returns.
  abbrev Comes : Option TlMsg → Type 0
  Comes tlmsg =
      (back : Option TlMsg) × (e' : Endpoint) × (tx_request e tlmsg (select_max_credit_channel e.fc)
        ≡ ok (back, e'))
      × Requested e tlmsg back e'

  acks_left : is_queue_empty e.ack_buffer ≡ false → contents e.ack_buffer ≢ []
  acks_left h none_left =
      let empty : is_queue_empty e.ack_buffer ≡ true =
        is_queue_empty_lem e.ack_buffer w.acks_valid ∙ eq→== _ _ (ap length none_left) in
      cc

  no_acks : is_queue_empty e.ack_buffer ≡ true → contents e.ack_buffer ≡ []
  no_acks h =
      length-zero (contents e.ack_buffer)
        (==→eq _ _ (sym (is_queue_empty_lem e.ack_buffer w.acks_valid) ∙ h))
    where
      length-zero : {A : Type 0} → (l : List A) → length l ≡ 0 → l ≡ []
      length-zero [] h = refl
      length-zero (a ∷ l) h = absurd (omega (arith, h))

  send_due :
      is_queue_empty e.ack_buffer && (select_max_credit_channel e.fc == 0) ≡ false
      → (contents e.ack_buffer ≢ []) ⊎ (select_max_credit_channel e.fc ≢ 0)
      → Comes none
  unfolding tx_request tx_credit tloe_get_fsize
  send_due h due_ =
      let (e', run, out) = send_lem e.fc none 6 refl tt refl (omega arith) in
      (none, e', rw (unfilled, h, run) refl, due due_ out)

  without_lem : Comes none
  unfolding tx_request
  without_lem = elim (Bool-cases (is_queue_empty e.ack_buffer)) [
    | inl empty ↦ elim (Bool-cases (select_max_credit_channel e.fc == 0)) [
      | inl nothing ↦ (
        none,
        e,
        rw (unfilled, empty, nothing) refl,
        nothing_due (no_acks empty) (==→eq _ _ nothing),
      )
      | inr owed ↦ send_due (rw (empty, owed) refl) (inr (==→ne _ _ owed))
    ]
    | inr left ↦ send_due (rw left refl) (inl (acks_left left))
  ]

  short_lem : (m : TlMsg) → IsMessage e m → Short e m → Comes (some m)
  unfolding tx_request tx_credit tloe_get_fsize
  short_lem m r short =
      let refused = credit_dec_refuses e.fc m r.chan r.sized.fits.size r.few short in
      elim (Bool-cases (is_queue_empty e.ack_buffer)) [
        | inl empty ↦
            (some m, e, rw (unfilled, refused, empty) refl, no_credit short (no_acks empty))
        | inr left ↦
            let (e', run, out) = send_lem e.fc none 6 refl tt refl (omega arith) in
            (
              some m,
              e',
              rw (unfilled, refused, left, run) refl,
              without_message short (acks_left left) out,
            )
      ]

  paid_lem :
      (m : TlMsg)
      → IsMessage e m
      → m.header.chan ≢ 0
      → tlmsg_get_flits_cnt m ≤ e.fc.credits m.header.chan
      → Comes (some m)
  unfolding tx_request tx_credit
  paid_lem m r chan covered =
      let (fc, dec, spent) = credit_dec_spends e.fc m r.chan r.sized.fits.size r.few chan covered in
      let (e', run, out) = send_lem fc (some m) r.k spent.returns r.sized r.size r.small in
      let fewer : (tlmsg_get_flits_cnt m == minus_one) ≡ false =
        ne→== _ _ (omega (arith, flits-lt m r.sized.fits.size)) in
      (none, e', rw (unfilled, dec, fewer, run) refl, paid chan spent out)

-- `tx_request` returns on every branch.
pub tx_request_lem :
    (e : Endpoint) (tlmsg : Option TlMsg)
    → e.handle_open ≡ true
    → IsWellFormed e
    → ((c : ℕ) → e.fc.tx_flow_credits c < 2 ^ 32)
    → Requesting e tlmsg
    → (back : Option TlMsg) × (e' : Endpoint) × (tx_request e tlmsg (select_max_credit_channel e.fc)
        ≡ ok (back, e'))
      × Requested e tlmsg back e'
unfolding tx_request
tx_request_lem e tlmsg open_ w bound r =
    elim (Bool-cases (length (contents e.retransmit_buffer) == (e.retransmit_buffer.size - 1))) [
      | inl full ↦
          let is_full : is_queue_full e.retransmit_buffer ≡ true =
            is_queue_full_lem e.retransmit_buffer w.window_valid ∙ full in
          (tlmsg, e, rw is_full refl, window_full (==→eq _ _ full))
      | inr room ↦ with_room tlmsg r (==→ne _ _ room)
    ]
  where
    with_room :
        (t : Option TlMsg)
        → Requesting e t
        → length (contents e.retransmit_buffer) ≢ e.retransmit_buffer.size - 1
        → (back : Option TlMsg) × (e' : Endpoint) × (tx_request e t (select_max_credit_channel e.fc)
            ≡ ok (back, e'))
          × Requested e t back e'
    with_room none r space = without_lem e open_ w space bound
    with_room (some m) r space = elim (Bool-cases (m.header.chan == 0)) [
      | inl zero_chan ↦ short_lem e open_ w space bound m r (inl (==→eq _ _ zero_chan))
      | inr chan ↦ elim (Bool-cases (leb (tlmsg_get_flits_cnt m) (e.fc.credits m.header.chan))) [
        | inl enough ↦ paid_lem e open_ w space bound m r (==→ne _ _ chan) (ground arith)
        | inr less ↦ short_lem e open_ w space bound m r (inr (ground arith))
      ]
    ]
