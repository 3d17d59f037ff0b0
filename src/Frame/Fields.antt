-- ===== src/Frame/Fields.antt =====
-- The header's bit-fields and the word that they make up.
use omnixtend_c.Base.{◌^◌, ◌<◌, ◌≡◌, arith}
use omnixtend_c.Frame.{FrameHeader, header_word, word_header}

pub record Fits (h : FrameHeader) : Type 0 where
  pub credit : h.credit < 2 ^ 5
  pub chan : h.chan < 2 ^ 3
  pub reserve3 : h.reserve3 < 2
  pub ack : h.ack < 2
  pub seq_num_ack : h.seq_num_ack < 2 ^ 22
  pub seq_num : h.seq_num < 2 ^ 22
  pub reserve2 : h.reserve2 < 4
  pub reserve1 : h.reserve1 < 2
  pub type : h.type < 2 ^ 4
  pub vc : h.vc < 2 ^ 3

pub header_word-lt : (h : FrameHeader) → Fits h → header_word h < 2 ^ 64
unfolding header_word
header_word-lt h f = omega arith

-- A frame header whose fields fit their bits is read back from its 64-bit word.
pub word_header-header_word : (h : FrameHeader) → Fits h → word_header (header_word h) ≡ h
unfolding header_word word_header
word_header-header_word h f = ground arith
