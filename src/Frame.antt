-- ===== src/Frame.antt =====
-- tloe_frame.h and tloe_frame.c: a TLoE frame is a header of bit-fields and the flits behind it,
-- here the bytes of the flits as they lie in memory. Frames travel word by word in network order.
pub mod Fields
pub mod Packet
pub mod Carry
pub mod Delivery
use omnixtend_c.Base.{
  ℕ, zero, suc, ◌+◌, ◌-◌, ◌*◌, ◌/◌, ◌%◌, ◌^◌, Bool, Option, none, some, List, [], ◌++◌, reverse,
  ◌==◌, ltb, leb, ◌||◌, if◌then◌else◌, length, take, drop, replicate, Outcome, ok, out_of_bounds,
  require, ◌>>=◌, ◌>>◌, ℤ, pos, negsuc,
}
use omnixtend_c.Memory.{le_bytes, le_value, read_bytes, write_bytes}
use omnixtend_c.TlMsg.{TlMsg, tlmsg_get_total_size}
use omnixtend_c.TlMsg.Header.{to_word, of_word}

pub record FrameHeader : Type 0 where
  pub credit : ℕ  -- 5 bits
  pub chan : ℕ  -- 3
  pub reserve3 : ℕ  -- 1
  pub ack : ℕ  -- 1
  pub seq_num_ack : ℕ  -- 22
  pub seq_num : ℕ  -- 22
  pub reserve2 : ℕ  -- 2
  pub reserve1 : ℕ  -- 1
  pub type : ℕ  -- 4
  pub vc : ℕ  -- 3

pub record Frame : Type 0 where
  pub header : FrameHeader
  pub flits : List ℕ

abbrev pub tloe_nak : ℕ
tloe_nak = 0

abbrev pub tloe_ack : ℕ
tloe_ack = 1

abbrev pub type_normal : ℕ
type_normal = 0

abbrev pub type_ackonly : ℕ
type_ackonly = 1

abbrev pub type_open_connection : ℕ
type_open_connection = 2

abbrev pub type_close_connection : ℕ
type_close_connection = 3

abbrev pub max_size_flit : ℕ
max_size_flit = 65

abbrev pub default_frame_size : ℕ
default_frame_size = 8 * 7

-- `MAX_BUFFER_SIZE` of tloe_endpoint.h, the size of each send and receive buffer
abbrev pub max_buffer_size : ℕ
max_buffer_size = 1500

-- a header or a frame that memset has cleared, with room for `n` bytes of flits
abbrev pub zero_header : FrameHeader
zero_header = record {
  credit = 0;
  chan = 0;
  reserve3 = 0;
  ack = 0;
  seq_num_ack = 0;
  seq_num = 0;
  reserve2 = 0;
  reserve1 = 0;
  type = 0;
  vc = 0;
}

abbrev pub zero_frame : ℕ → Frame
zero_frame n = record { header = zero_header; flits = replicate n 0 }

-- The header as the 64-bit word that it is in memory, the first bit-field lowest.
unfoldable pub header_word : FrameHeader → ℕ
header_word h =
    h.credit
    + 2 ^ 5
      * (h.chan
          + 2 ^ 3
            * (h.reserve3
                + 2
                  * (h.ack
                      + 2
                        * (h.seq_num_ack
                            + 2 ^ 22
                              * (h.seq_num
                                  + 2 ^ 22
                                    * (h.reserve2
                                        + 4 * (h.reserve1 + 2 * (h.type + 2 ^ 4 * h.vc))))))))

unfoldable pub word_header : ℕ → FrameHeader
word_header w = record {
  credit = w % 2 ^ 5;
  chan = w / 2 ^ 5 % 2 ^ 3;
  reserve3 = w / 2 ^ 8 % 2;
  ack = w / 2 ^ 9 % 2;
  seq_num_ack = w / 2 ^ 10 % 2 ^ 22;
  seq_num = w / 2 ^ 32 % 2 ^ 22;
  reserve2 = w / 2 ^ 54 % 4;
  reserve1 = w / 2 ^ 56 % 2;
  type = w / 2 ^ 57 % 2 ^ 4;
  vc = w / 2 ^ 61 % 2 ^ 3;
}

unfoldable pub tloe_set_ack : Frame → ℕ → Frame
tloe_set_ack f ack = record f { header = record (f.header) { ack = ack % 2 } }

unfoldable pub tloe_get_ack : Frame → ℕ
tloe_get_ack f = f.header.ack

-- where the mask of a packet lies: at word `((packet_size >> 3) - 1) - 1`. A size below 16 would
-- give an index below 0.
abbrev pub mask_offset : ℕ → ℕ
mask_offset packet_size = (packet_size / 8 - 2) * 8

unfoldable pub tloe_set_mask : Frame → ℕ → ℕ → Outcome Frame
tloe_set_mask f mask packet_size = do
  require (leb 16 packet_size) out_of_bounds
  flits ← write_bytes f.flits (mask_offset packet_size) (le_bytes 8 mask)
  ok (record f { flits = flits })

unfoldable pub tloe_get_mask : Frame → ℕ → Outcome ℕ
tloe_get_mask f packet_size = do
  require (leb 16 packet_size) out_of_bounds
  word ← read_bytes f.flits (mask_offset packet_size) 8
  ok (le_value word)

unfoldable pub tloe_get_fsize : Option TlMsg → ℕ
tloe_get_fsize none = default_frame_size
tloe_get_fsize (some m) =
    let fsize = 8 + tlmsg_get_total_size m in
    if ltb fsize default_frame_size then default_frame_size else fsize

-- `tl_loc` is an index of a flit. The copy is as long as the sizes say that the message is; one
-- that is shorter than its own header cannot be read.
unfoldable pub tloe_get_tlmsg : Frame → ℕ → Outcome TlMsg
tloe_get_tlmsg f tl_loc = do
  word ← read_bytes f.flits (tl_loc * 8) 8
  let header = of_word (le_value word)
  let total_size = tlmsg_get_total_size (record { header = header; payload = [] })
  bytes ← read_bytes f.flits (tl_loc * 8) total_size
  require (leb 8 total_size) out_of_bounds
  ok (record { header = header; payload = drop 8 bytes })

-- the block of memory that holds a message
unfoldable pub msg_bytes : TlMsg → List ℕ
msg_bytes m = le_bytes 8 (to_word m.header) ++ m.payload

unfoldable pub tloe_set_tlmsg : Frame → TlMsg → Outcome Frame
tloe_set_tlmsg f m = do
  bytes ← read_bytes (msg_bytes m) 0 (tlmsg_get_total_size m)
  flits ← write_bytes f.flits 0 bytes
  ok (record f { flits = flits })

unfoldable pub is_zero_tl_frame : Frame → ℕ → Outcome Bool
is_zero_tl_frame f size = do mask ← tloe_get_mask f size; ok (mask == 0)

unfoldable pub is_ackonly_frame : Frame → Bool
is_ackonly_frame f = f.header.type == type_ackonly

unfoldable pub is_conn_msg : Frame → ℤ
is_conn_msg f = if f.header.type == 2 || f.header.type == 3 then pos f.header.type else negsuc 0

-- the first `n` words, each with its bytes turned round (`htobe64`, `be64toh`)
unfoldable pub swap_words : ℕ → List ℕ → List ℕ
swap_words zero bytes = []
swap_words (suc n) bytes = reverse (take 8 bytes) ++ swap_words n (drop 8 bytes)

-- What the send buffer holds in its first `size` bytes.
unfoldable pub tloe_frame_to_packet : Frame → ℕ → Outcome (List ℕ)
tloe_frame_to_packet f size = do
  require (leb size max_buffer_size) out_of_bounds
  let flit_cnt = (size - 8) / 8
  flits ← read_bytes f.flits 0 (flit_cnt * 8)
  let bytes = reverse (le_bytes 8 (header_word f.header)) ++ swap_words flit_cnt flits
  ok (take size (bytes ++ replicate (size - 8 - flit_cnt * 8) 0))

-- A packet that is too short for a header would leave the header to bytes never received.
unfoldable pub packet_to_tloe_frame : List ℕ → Frame → Outcome Frame
packet_to_tloe_frame packet f = do
  let num_flits = length packet / 8 - 1
  word ← read_bytes packet 0 8
  bytes ← read_bytes packet 8 (num_flits * 8)
  flits ← write_bytes f.flits 0 (swap_words num_flits bytes)
  ok (record { header = word_header (le_value (reverse word)); flits = flits })
