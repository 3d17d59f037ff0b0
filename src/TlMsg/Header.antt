-- ===== src/TlMsg/Header.antt =====
-- The message header as the 64-bit word that it is in memory: GCC's layout on a little-endian
-- machine puts the first bit-field lowest.
use omnixtend_c.Base.{ℕ, ◌+◌, ◌*◌, ◌/◌, ◌%◌, ◌^◌, ◌<◌, ◌≡◌, arith}
use omnixtend_c.TlMsg.{TlHeader}

pub record Fits (h : TlHeader) : Type 0 where
  pub source : h.source < 2 ^ 26
  pub reserved : h.reserved < 2 ^ 12
  pub err : h.err < 4
  pub domain : h.domain < 2 ^ 8
  pub size : h.size < 16
  pub param : h.param < 16
  pub reserved2 : h.reserved2 < 2
  pub opcode : h.opcode < 8
  pub chan : h.chan < 8
  pub reserved1 : h.reserved1 < 2

unfoldable pub to_word : TlHeader → ℕ
to_word h =
    h.source
    + 2 ^ 26
      * (h.reserved
          + 2 ^ 12
            * (h.err
                + 4
                  * (h.domain
                      + 2 ^ 8
                        * (h.size
                            + 16
                              * (h.param
                                  + 16
                                    * (h.reserved2
                                        + 2 * (h.opcode + 8 * (h.chan + 8 * h.reserved1))))))))

unfoldable pub of_word : ℕ → TlHeader
of_word w = record {
  source = w % 2 ^ 26;
  reserved = w / 2 ^ 26 % 2 ^ 12;
  err = w / 2 ^ 38 % 4;
  domain = w / 2 ^ 40 % 2 ^ 8;
  size = w / 2 ^ 48 % 16;
  param = w / 2 ^ 52 % 16;
  reserved2 = w / 2 ^ 56 % 2;
  opcode = w / 2 ^ 57 % 8;
  chan = w / 2 ^ 60 % 8;
  reserved1 = w / 2 ^ 63 % 2;
}

pub to_word-lt : (h : TlHeader) → Fits h → to_word h < 2 ^ 64
unfolding to_word
to_word-lt h f = omega arith

-- A TileLink header whose fields fit their bits is read back from its 64-bit word.
pub of_word-to_word : (h : TlHeader) → Fits h → of_word (to_word h) ≡ h
unfolding to_word of_word
of_word-to_word h f = ground arith
