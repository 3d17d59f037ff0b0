-- ===== src/TlMsg.antt =====
-- tilelink_msg.h and tilelink_msg.c: TileLink messages and the sizes that the code gives them.
-- A message is its 64-bit header, by bit-field, and the bytes behind it.
pub mod Header
pub mod Sizes
use omnixtend_c.Base.{
  ℕ, ◌+◌, ◌-◌, ◌/◌, ◌%◌, ◌^◌, List, Bool, ◌||◌, ◌==◌, if◌then◌else◌, ℤ, pos, negsuc,
}

pub record TlHeader : Type 0 where
  pub source : ℕ  -- 26 bits
  pub reserved : ℕ  -- 12
  pub err : ℕ  -- 2
  pub domain : ℕ  -- 8
  pub size : ℕ  -- 4
  pub param : ℕ  -- 4
  pub reserved2 : ℕ  -- 1
  pub opcode : ℕ  -- 3
  pub chan : ℕ  -- 3
  pub reserved1 : ℕ  -- 1

pub record TlMsg : Type 0 where
  pub header : TlHeader
  pub payload : List ℕ

abbrev pub channel_num : ℕ
channel_num = 6

abbrev pub channel_a : ℕ
channel_a = 1

abbrev pub channel_b : ℕ
channel_b = 2

abbrev pub channel_c : ℕ
channel_c = 3

abbrev pub channel_d : ℕ
channel_d = 4

abbrev pub channel_e : ℕ
channel_e = 5

abbrev pub a_putfulldata_opcode : ℕ
a_putfulldata_opcode = 0

abbrev pub a_putpartialdata_opcode : ℕ
a_putpartialdata_opcode = 1

abbrev pub a_arithmeticdata_opcode : ℕ
a_arithmeticdata_opcode = 2

abbrev pub a_logicaldata_opcode : ℕ
a_logicaldata_opcode = 3

abbrev pub a_get_opcode : ℕ
a_get_opcode = 4

abbrev pub c_accessackdata_opcode : ℕ
c_accessackdata_opcode = 1

abbrev pub c_probeackdata_opcode : ℕ
c_probeackdata_opcode = 5

abbrev pub c_releasedata_opcode : ℕ
c_releasedata_opcode = 7

abbrev pub d_accessack_opcode : ℕ
d_accessack_opcode = 0

abbrev pub d_accessackdata_opcode : ℕ
d_accessackdata_opcode = 1

abbrev pub d_hintack_opcode : ℕ
d_hintack_opcode = 2

abbrev pub d_grant_opcode : ℕ
d_grant_opcode = 4

abbrev pub d_grantdata_opcode : ℕ
d_grantdata_opcode = 5

abbrev pub d_releaseack_opcode : ℕ
d_releaseack_opcode = 6

-- `(int)(1ULL << n)`. A shift by a count outside 0..63 is undefined in C; the model takes the count
-- by its low six bits, as the x86-64 instruction does, so that a shift by -1 gives 0.
abbrev pub shl_one : ℤ → ℕ
shl_one (pos n) = 2 ^ (n % 64) % 2 ^ 32
shl_one (negsuc n) = 2 ^ (63 - n % 64) % 2 ^ 32

abbrev pub is_abc : ℕ → Bool
is_abc chan = chan == channel_a || chan == channel_b || chan == channel_c

unfoldable pub tlmsg_get_header_size : TlMsg → ℕ
tlmsg_get_header_size m = shl_one header_size
  where
    open m.header use {chan, opcode}

    header_size : ℤ
    header_size =
        if is_abc chan
        then pos 4
        else if chan == channel_d
        then (if opcode == d_accessack_opcode
              || opcode == d_hintack_opcode
              || opcode == d_releaseack_opcode
              || opcode == d_accessackdata_opcode
            then pos 3
            else if opcode == d_grant_opcode || opcode == d_grantdata_opcode
            then pos 4
            else negsuc 0)
        else if chan == channel_e
        then pos 3
        else negsuc 0

-- The opcodes for B repeat the values of those for A.
unfoldable pub tlmsg_get_data_size : TlMsg → ℕ
tlmsg_get_data_size m = shl_one data_size
  where
    open m.header use {chan, opcode, size}

    data_size : ℤ
    data_size =
        if is_abc chan
        then (if opcode == a_putfulldata_opcode
              || opcode == a_arithmeticdata_opcode
              || opcode == a_logicaldata_opcode
              || opcode == c_accessackdata_opcode
              || opcode == c_probeackdata_opcode
              || opcode == c_releasedata_opcode
              || opcode == a_putpartialdata_opcode
            then pos size
            else negsuc 0)
        else if chan == channel_d
        then (if opcode == d_accessackdata_opcode || opcode == d_grantdata_opcode
            then pos size
            else negsuc 0)
        else negsuc 0

unfoldable pub tlmsg_get_total_size : TlMsg → ℕ
tlmsg_get_total_size m = tlmsg_get_header_size m + tlmsg_get_data_size m

unfoldable pub convert_size_to_flits : ℕ → ℕ
convert_size_to_flits size = (size + 7) / 8

-- Both sizes are non-negative, so both are added.
unfoldable pub tlmsg_get_flits_cnt : TlMsg → ℕ
tlmsg_get_flits_cnt m =
    convert_size_to_flits (tlmsg_get_header_size m) + convert_size_to_flits (tlmsg_get_data_size m)
