-- ===== src/SeqNum.antt =====
-- tloe_seq_mgr.c, the functions on sequence numbers alone, and the constants of tloe_endpoint.h
-- that they use. A `uint32_t` is a number below 2 ^ 32. (The functions of the file that read or
-- write an endpoint are in Endpoint.)
pub mod Order
use omnixtend_c.Base.{
  ℕ, ◌+◌, ◌-◌, ◌/◌, ◌%◌, ◌^◌, bit_and, ◌==◌, ltb, if◌then◌else◌, ℤ, pos, negsuc, signed32,
  is_negative, is_positive,
}

abbrev pub max_seq_num : ℕ
max_seq_num = 2 ^ 22 - 1

abbrev pub half_max_seq_num : ℕ
half_max_seq_num = (max_seq_num + 1) / 2

-- `diff` is the bit pattern of `(int)a - (int)b`. `HALF_MAX_SEQ_NUM` is unsigned, so C compares
-- `diff` and `-diff` with it as bit patterns.
unfoldable pub tloe_seqnum_cmp : ℕ → ℕ → ℤ
tloe_seqnum_cmp a b =
    let diff : ℕ = (a + 2 ^ 32 - b) % 2 ^ 32 in
    if diff == 0
    then pos 0
    else if is_positive (signed32 diff)
    then (if ltb diff half_max_seq_num then pos 1 else negsuc 0)
    else (if ltb ((2 ^ 32 - diff) % 2 ^ 32) half_max_seq_num then negsuc 0 else pos 1)

-- `t` is the bit pattern of `(int)seq_num - 1`.
unfoldable pub tloe_seqnum_prev : ℕ → ℕ
tloe_seqnum_prev seq_num =
    let t : ℕ = (seq_num + 2 ^ 32 - 1) % 2 ^ 32 in
    if is_negative (signed32 t) then max_seq_num else t

unfoldable pub tloe_seqnum_next : ℕ → ℕ
tloe_seqnum_next seq_num = bit_and ((seq_num + 1) % 2 ^ 32) max_seq_num
