-- ===== src/Transmitter/Requested.antt =====
-- What may come of the part of `TX` that takes a message, an acknowledgement and credits out.
use omnixtend_c.Base.{
  ℕ, ◌+◌, ◌-◌, ◌*◌, ◌≤◌, ◌<◌, ◌≡◌, ◌≢◌, Option, none, some, [], ◌∷◌, ◌++◌, length, ◌⊎◌,
}
use omnixtend_c.Fifo
use omnixtend_c.TlMsg.{TlMsg, channel_num, tlmsg_get_flits_cnt}
use omnixtend_c.Frame.{max_size_flit, tloe_get_fsize, Frame}
use omnixtend_c.Frame.Carry.{IsWellSized}
use omnixtend_c.Frame.Packet.{packet_of}
use omnixtend_c.CircularQueue.Contents.{contents}
use omnixtend_c.SeqNum.{tloe_seqnum_next}
use omnixtend_c.FlowControl.{Flowcontrol, minus_one, select_max_credit_channel}
use omnixtend_c.FlowControl.Credits.{Spent}
use omnixtend_c.Endpoint.{Endpoint}
use omnixtend_c.Transmitter.Append.{element_of}
use omnixtend_c.Transmitter.Send.{IsSent}

-- What a send has done, with the message or none.
pub record Sent (e : Endpoint) (tlmsg : Option TlMsg) (e' : Endpoint) : Type 0 where
  pub k : ℕ
  pub f : Frame
  pub small : k ≤ max_size_flit
  pub is_sent : IsSent e tlmsg k f
  pub wire : e'.wire ≡ e.wire ++ packet_of f k ∷ []
  pub kept :
      contents e'.retransmit_buffer
      ≡ contents e.retransmit_buffer ++ element_of e f (8 + k * 8) ∷ []
  pub next_tx_seq : e'.next_tx_seq ≡ tloe_seqnum_next e.next_tx_seq
  pub acks : contents e'.ack_buffer ≡ (Fifo.pop (contents e.ack_buffer)).1
  pub credits : e'.fc.credits ≡ e.fc.credits
  pub handle_open : e'.handle_open ≡ e.handle_open

-- A message that may be sent by an endpoint: it is as long as its header says, is on a channel of
-- the arrays, has a frame of at most 65 flits, and the credits of its channel are not near 2 ^ 32.
pub record IsMessage (e : Endpoint) (m : TlMsg) : Type 0 where
  pub sized : IsWellSized m
  pub chan : m.header.chan < channel_num
  pub few : e.fc.credits m.header.chan < minus_one
  pub k : ℕ
  pub size : tloe_get_fsize (some m) ≡ 8 + k * 8
  pub small : k ≤ max_size_flit

abbrev pub Requesting : Endpoint → Option TlMsg → Type 0
Requesting e none = Unit {0}
Requesting e (some m) = IsMessage e m

-- A channel that has no credits for the message.
abbrev pub Short : Endpoint → TlMsg → Type 0
Short e m = (m.header.chan ≡ 0) ⊎ (e.fc.credits m.header.chan < tlmsg_get_flits_cnt m)

-- What `tx_request` may come to, by what it hands back and the endpoint that it leaves.
pub data Requested (e : Endpoint) : Option TlMsg → Option TlMsg → Endpoint → Type 0 where
  window_full :
      {tlmsg : Option TlMsg}
      → length (contents e.retransmit_buffer) ≡ e.retransmit_buffer.size - 1
      → Requested e tlmsg tlmsg e
  nothing_due :
      contents e.ack_buffer ≡ [] → select_max_credit_channel e.fc ≡ 0 → Requested e none none e
  no_credit : {m : TlMsg} → Short e m → contents e.ack_buffer ≡ [] → Requested e (some m) (some m) e
  without_message :
      {m : TlMsg} {e' : Endpoint}
      → Short e m
      → contents e.ack_buffer ≢ []
      → Sent e none e'
      → Requested e (some m) (some m) e'
  due :
      {e' : Endpoint}
      → (contents e.ack_buffer ≢ []) ⊎ (select_max_credit_channel e.fc ≢ 0)
      → Sent e none e'
      → Requested e none none e'
  paid :
      {m : TlMsg} {fc : Flowcontrol} {e' : Endpoint}
      → m.header.chan ≢ 0
      → Spent e.fc m.header.chan (tlmsg_get_flits_cnt m) fc
      → Sent (record e { fc = fc }) (some m) e'
      → Requested e (some m) none e'
