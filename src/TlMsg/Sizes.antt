-- ===== src/TlMsg/Sizes.antt =====
-- The sizes that tilelink_msg.c computes.
use omnixtend_c.Base.{
  ℕ, zero, suc, ◌+◌, ◌^◌, ◌≤◌, ◌<◌, ◌≡◌, refl, ◌⊎◌, arith, Bool, true, ◌&&◌, ◌||◌, ◌==◌,
  if◌then◌else◌, pos, leb, List,
}
use omnixtend_c.TlMsg.{
  TlMsg, shl_one, is_abc, tlmsg_get_header_size, tlmsg_get_data_size, tlmsg_get_total_size,
  convert_size_to_flits, tlmsg_get_flits_cnt,
}

all_below : ℕ → (ℕ → Bool) → Bool
all_below zero p = true
all_below (suc n) p = p n && all_below n p

all_below_lem : (n : ℕ) (p : ℕ → Bool) (x : ℕ) → all_below n p ≡ true → x < n → p x ≡ true
unfolding all_below
all_below_lem zero p x h lt = absurd (omega arith)
all_below_lem (suc n) p x h lt = ground (arith, all_below_lem n p x)

small_shifts : all_below 16 (λ n. (shl_one (pos n) == 2 ^ n) && leb (2 ^ n) (2 ^ 15)) ≡ true
unfolding all_below
small_shifts = refl

-- The four bits of a size shift with no overflow.
pub shl_one_lem : (n : ℕ) → n < 16 → (shl_one (pos n) ≡ 2 ^ n) × (2 ^ n ≤ 2 ^ 15)
shl_one_lem n h =
    both (shl_one (pos n)) (2 ^ n) (2 ^ n) (2 ^ 15)
      (all_below_lem 16 (λ n. (shl_one (pos n) == 2 ^ n) && leb (2 ^ n) (2 ^ 15)) n small_shifts h)
  where
    both : (a b c d : ℕ) → ((a == b) && leb c d) ≡ true → (a ≡ b) × (c ≤ d)
    both a b c d e = ground arith

-- the opcodes that the code takes for carriers of data
abbrev pub carries_data : ℕ → ℕ → Bool
carries_data chan opcode =
    (is_abc chan && (leb opcode 3 || opcode == 5 || opcode == 7))
    || (chan == 4 && (opcode == 1 || opcode == 5))

pub header_size_cases :
    (m : TlMsg)
    → (tlmsg_get_header_size m ≡ 0)
      ⊎ ((tlmsg_get_header_size m ≡ 8) ⊎ (tlmsg_get_header_size m ≡ 16))
unfolding tlmsg_get_header_size
header_size_cases m = ground arith

-- For a size field of four bits, the data size is 2 ^ size for the opcodes 0 to 3, 5 and 7 on the
-- channels A, B and C and for the opcodes 1 and 5 on channel D, and 0 for all others.
pub data_size_lem :
    (m : TlMsg)
    → m.header.size < 16
    → tlmsg_get_data_size m
      ≡ (if carries_data m.header.chan m.header.opcode then 2 ^ m.header.size else 0)
unfolding tlmsg_get_data_size
data_size_lem m h = ground (arith, shl_one_lem m.header.size h)

-- The number of flits that credits are counted in is that of the message's total size, so that a
-- message is charged for the flits that it takes up.
pub flits-total :
    (m : TlMsg) → tlmsg_get_flits_cnt m ≡ convert_size_to_flits (tlmsg_get_total_size m)
unfolding tlmsg_get_flits_cnt tlmsg_get_total_size convert_size_to_flits
flits-total m = omega (arith, header_size_cases m)

pub total_size-le : (m : TlMsg) → m.header.size < 16 → tlmsg_get_total_size m ≤ 16 + 2 ^ 15
unfolding tlmsg_get_total_size
total_size-le m h =
    ground (arith, header_size_cases m, data_size_lem m h, shl_one_lem m.header.size h)

-- The sizes are read off the header alone.
pub total_size-header :
    (m : TlMsg) (p : List ℕ)
    → tlmsg_get_total_size (record m { payload = p }) ≡ tlmsg_get_total_size m
unfolding tlmsg_get_total_size tlmsg_get_header_size tlmsg_get_data_size
total_size-header m p = refl
