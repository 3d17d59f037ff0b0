-- ===== src/Transmitter/Prepare.antt =====
-- What `prepare_normal_frame` makes of a cleared frame.
use omnixtend_c.Base.{
  ℕ, ◌+◌, ◌*◌, ◌%◌, ◌^◌, ◌≤◌, ◌<◌, ◌≡◌, refl, ◌∙◌, arith, Option, none, some, List, ◌++◌, length,
  length-append, length-drop, length-replicate, drop, ok,
}
use omnixtend_c.TlMsg.{TlMsg, tlmsg_get_total_size}
use omnixtend_c.Frame.{
  Frame, tloe_ack, type_normal, mask_offset, zero_frame, tloe_get_fsize, msg_bytes,
}
use omnixtend_c.Frame.Carry.{
  IsWellSized, length-msg_bytes, masked, length-masked, set_tlmsg_lem, set_mask_lem,
}
use omnixtend_c.Frame.Fields.{Fits}
use omnixtend_c.Endpoint.{Endpoint, tloe_seqnum_set_next_and_acked_seq}
use omnixtend_c.Transmitter.{prepare_normal_frame}

-- A message to send is as long as its header says; there may be none.
abbrev pub Sendable : Option TlMsg → Type 0
Sendable none = Unit {0}
Sendable (some m) = IsWellSized m

-- What `k` flits hold: the message at the front, and a mask for it in the last flit.
abbrev pub Laid : Option TlMsg → ℕ → List ℕ → Type 0
Laid none k flits = Unit {0}
Laid (some m) k flits =
    (tail : List ℕ) × (length (msg_bytes m ++ tail) ≡ k * 8)
    × (flits ≡ masked (msg_bytes m ++ tail) 1 (mask_offset (8 + k * 8)))

-- A prepared frame of `k` flits.
pub record IsReady (e : Endpoint) (tlmsg : Option TlMsg) (k : ℕ) (f : Frame) : Type 0 where
  pub large : 6 ≤ k
  pub room : length f.flits ≡ k * 8
  pub seq_num : f.header.seq_num ≡ e.next_tx_seq % 2 ^ 22
  pub ack : f.header.ack ≡ tloe_ack
  pub type : f.header.type ≡ type_normal
  pub chan : f.header.chan ≡ 0
  pub fits : Fits f.header
  pub laid : Laid tlmsg k f.flits

-- The frame behind the assignments to its header.
abbrev started : Endpoint → ℕ → Frame
started e k =
    let f : Frame = tloe_seqnum_set_next_and_acked_seq (zero_frame (k * 8)) e in
    record f { header = record (f.header) { ack = tloe_ack } }

abbrev prepared : Endpoint → ℕ → List ℕ → Frame
prepared e k flits = record (started e k) {
  header = record ((started e k).header) { chan = 0; credit = 0 };
  flits = flits;
}

length-started : (e : Endpoint) (k : ℕ) → length (started e k).flits ≡ k * 8
unfolding tloe_seqnum_set_next_and_acked_seq
length-started e k = length-replicate (k * 8) 0

prepared-IsReady :
    (e : Endpoint) (tlmsg : Option TlMsg) (k : ℕ) (flits : List ℕ)
    → 6 ≤ k
    → length flits ≡ k * 8
    → Laid tlmsg k flits
    → IsReady e tlmsg k (prepared e k flits)
unfolding tloe_seqnum_set_next_and_acked_seq
prepared-IsReady e tlmsg k flits g h l = record {
  large = g;
  room = h;
  seq_num = refl;
  ack = refl;
  type = refl;
  chan = refl;
  fits = omega arith;
  laid = l;
}

mask_place : (k : ℕ) → 0 < k → mask_offset (8 + k * 8) + 8 ≡ k * 8
mask_place k h = omega arith

prepare_none :
    (e : Endpoint) (k : ℕ)
    → tloe_get_fsize none ≡ 8 + k * 8
    → (f : Frame) × (prepare_normal_frame e (zero_frame (k * 8)) none (8 + k * 8) ≡ ok f)
      × IsReady e none k f
unfolding prepare_normal_frame tloe_get_fsize
prepare_none e k size =
    let flits : List ℕ = masked (started e k).flits 0 (mask_offset (8 + k * 8)) in
    let place : mask_offset (8 + k * 8) + 8 ≤ length (started e k).flits =
      omega (arith, mask_place k (omega (arith, size)), length-started e k) in
    (
      prepared e k flits,
      rw (set_mask_lem (started e k) 0 (8 + k * 8) (omega (arith, size)) place) refl,
      prepared-IsReady e none k flits (omega (arith, size))
          (length-masked _ 0 _ place ∙ length-started e k) tt,
    )

prepare_some :
    (e : Endpoint) (m : TlMsg) (k : ℕ)
    → IsWellSized m
    → tloe_get_fsize (some m) ≡ 8 + k * 8
    → (f : Frame) × (prepare_normal_frame e (zero_frame (k * 8)) (some m) (8 + k * 8) ≡ ok f)
      × IsReady e (some m) k f
unfolding prepare_normal_frame tloe_get_fsize
prepare_some e m k w size = (
  prepared e k flits,
  rw
      (
        set_tlmsg_lem (started e k) m w (omega (arith, length-started e k, large)),
        set_mask_lem (record (started e k) { flits = laid }) 1 (8 + k * 8) (omega (arith, large))
            place,
      )
      refl,
  prepared-IsReady e (some m) k flits large.0 (length-masked laid 1 _ place ∙ whole)
      (drop (tlmsg_get_total_size m) (started e k).flits, whole, refl),
)
  where
    large : (6 ≤ k) × (tlmsg_get_total_size m ≤ k * 8)
    large = ground (arith, size)

    laid : List ℕ
    laid = msg_bytes m ++ drop (tlmsg_get_total_size m) (started e k).flits

    whole : length laid ≡ k * 8
    whole = omega (
      arith,
      length-append (msg_bytes m) (drop (tlmsg_get_total_size m) (started e k).flits),
      length-msg_bytes m,
      w.sized,
      length-drop (tlmsg_get_total_size m) (started e k).flits,
      length-started e k,
      large,
    )

    place : mask_offset (8 + k * 8) + 8 ≤ length laid
    place = omega (arith, mask_place k (omega (arith, large)), whole)

    flits : List ℕ
    flits = masked laid 1 (mask_offset (8 + k * 8))

pub prepare_lem :
    (e : Endpoint) (tlmsg : Option TlMsg) (k : ℕ)
    → Sendable tlmsg
    → tloe_get_fsize tlmsg ≡ 8 + k * 8
    → (f : Frame) × (prepare_normal_frame e (zero_frame (k * 8)) tlmsg (8 + k * 8) ≡ ok f)
      × IsReady e tlmsg k f
prepare_lem e none k w size = prepare_none e k size
prepare_lem e (some m) k w size = prepare_some e m k w size
