-- ===== src/Transmitter/Turn.antt =====
-- `TX` as a whole: the frames that only acknowledge, the request, and the resend when the oldest
-- frame is late.
use omnixtend_c.Base.{
  ℕ, ◌^◌, ◌≤◌, ◌≡◌, ap, refl, ◌∙◌, Bool, true, false, Option, none, some, List, ◌++◌, append_assoc,
  ◌<◌, length, ok, if◌then◌else◌, Ensures-ok, All,
}
use omnixtend_c.TlMsg.{TlMsg}
use omnixtend_c.Frame.{Frame}
use omnixtend_c.Frame.Fields.{Fits}
use omnixtend_c.CircularQueue.Contents.{contents}
use omnixtend_c.FlowControl.{select_max_credit_channel}
use omnixtend_c.Endpoint.{Endpoint}
use omnixtend_c.Endpoint.WellFormed.{IsWellFormed}
use omnixtend_c.Transmitter.{tx}
use omnixtend_c.Transmitter.WellFormed.{tx_request-IsWellFormed, tx-IsWellFormed}
use omnixtend_c.Transmitter.Requested.{Requested, Requesting}
use omnixtend_c.Transmitter.Request.{tx_request_lem}
use omnixtend_c.Transmitter.Numbered.{
  IsNumbered, Requested-IsNumbered, Requested-handle_open, Timed, in_time, late, Timed-IsNumbered,
  timeout_lem,
}
use omnixtend_c.Transmitter.Answers.{Answer, answered, asked_lem, half_lem}

-- What `TX` has done: the acknowledgements that went out first, the request on the endpoint behind
-- them, and the resend.
pub record Turn (i : ℕ) (e : Endpoint) (tlmsg back : Option TlMsg) (e' : Endpoint) : Type 0 where
  pub asked : List (List ℕ)
  pub half : List (List ℕ)
  pub once : Bool
  pub cnt : ℕ
  pub between : Endpoint
  pub answers : All (Answer e) asked × All (Answer e) half
  pub asked_once : length asked ≡ (if e.should_send_ackonly_frame then 1 else 0)
  pub half_once : length half ≤ 1
  pub requested : Requested (answered e (asked ++ half) false once cnt) tlmsg back between
  pub timed : Timed between e'
  pub numbered : IsNumbered i (contents e'.retransmit_buffer) e'.next_tx_seq
  pub well_formed : IsWellFormed e'
  pub handle_open : e'.handle_open ≡ true

Timed-handle_open : {e e' : Endpoint} → Timed e e' → e'.handle_open ≡ e.handle_open
Timed-handle_open (in_time h) = refl
Timed-handle_open (late h k all) = refl

requesting :
    (e : Endpoint) (tlmsg : Option TlMsg) (packets : List (List ℕ)) (a b : Bool) (c : ℕ)
    → Requesting e tlmsg
    → Requesting (answered e packets a b c) tlmsg
requesting e none packets a b c r = tt
requesting e (some m) packets a b c r = record {
  sized = r.sized;
  chan = r.chan;
  few = r.few;
  k = r.k;
  size = r.size;
  small = r.small;
}

-- `TX` returns, and nothing that it was given is lost: the handle is open, the endpoint is well-
-- formed, the frames in its window are numbered one by one up to the next number and can be sent
-- again, the credits owed have 32 bits, and a message, if there is one, is as long as its header
-- says, is on a channel of the arrays with fewer than 2 ^ 32 - 1 credits, and has a frame of at
-- most 65 flits; the two frames on the stack have six flits and fields of their widths. First go
-- out frames that only acknowledge what was received: one exactly if it was asked for, and at most
-- one more. Then, with the window full, the message is handed back; with no message,
-- acknowledgement or credits to give, nothing is sent; a message without the credits for its flits
-- is handed back, and a frame without it goes out if an acknowledgement waits; else a frame goes
-- out with the message, which is paid for, or with none, and is kept at the end of the window under
-- the next number. Last, exactly if the oldest frame is late, all frames of the window are sent
-- again. The endpoint and its window are then as they have to be for the next turn.
pub tx_lem :
    (garbage garbage' : Frame) (i : ℕ) (e : Endpoint) (tlmsg : Option TlMsg)
    → Fits garbage.header
    → 48 ≤ length garbage.flits
    → Fits garbage'.header
    → 48 ≤ length garbage'.flits
    → e.handle_open ≡ true
    → IsWellFormed e
    → IsNumbered i (contents e.retransmit_buffer) e.next_tx_seq
    → ((c : ℕ) → e.fc.tx_flow_credits c < 2 ^ 32)
    → Requesting e tlmsg
    → (back : Option TlMsg) × (e' : Endpoint) × (tx garbage garbage' e tlmsg ≡ ok (back, e'))
      × Turn i e tlmsg back e'
unfolding tx
tx_lem garbage garbage' i e tlmsg fits held fits' held' open_ w n bound r =
    let (asked, run1, acked1, once1) = asked_lem garbage e fits held open_ w in
    let e1 : Endpoint = answered e asked false e.ackonly_frame_sent e.ackonly_cnt in
    let (half, once, cnt, run2, acked2, once2) = half_lem garbage' e1 fits' held' open_ w in
    let e2 : Endpoint = answered e1 half false once cnt in
    let e2' : Endpoint = answered e (asked ++ half) false once cnt in
    let same : e2 ≡ e2' = ap (λ t. record e2 { wire = t }) (append_assoc e.wire asked half) in
    let (back, between, run3, done) =
      tx_request_lem e2' tlmsg open_ w bound
        (requesting e tlmsg (asked ++ half) false once cnt r) in
    let w3 =
      Ensures-ok _ (tx_request-IsWellFormed e2' tlmsg (select_max_credit_channel e.fc) w) run3 in
    let n3 = Requested-IsNumbered i n done in
    let (e', run4, timed) = timeout_lem i between (Requested-handle_open done ∙ open_) w3 n3 in
    let run : tx garbage garbage' e tlmsg ≡ ok (back, e') =
      rw (run1, run2, same, run3, run4) refl in
    (
      back,
      e',
      run,
      record {
        asked = asked;
        half = half;
        once = once;
        cnt = cnt;
        between = between;
        answers = (acked1, acked2);
        asked_once = once1;
        half_once = once2;
        requested = done;
        timed = timed;
        numbered = Timed-IsNumbered i n3 timed;
        well_formed = Ensures-ok _ (tx-IsWellFormed garbage garbage' e tlmsg w) run;
        handle_open = Timed-handle_open timed ∙ Requested-handle_open done ∙ open_;
      },
    )
