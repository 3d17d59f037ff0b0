-- ===== src/SeqNum/Order.antt =====
-- Sequence numbers as counters that are cut to 22 bits.
use omnixtend_c.Base.{
  ℕ, ◌+◌, ◌-◌, ◌%◌, ◌^◌, ◌<◌, ◌≡◌, ◌⊎◌, ◌↔◌, arith, ◌==◌, if◌then◌else◌, pos, negsuc, neg,
  bit_and-mod_22,
}
use omnixtend_c.SeqNum.{
  max_seq_num, half_max_seq_num, tloe_seqnum_cmp, tloe_seqnum_prev, tloe_seqnum_next,
}

-- the distance from `b` forward to `a`, round the ring of sequence numbers
abbrev pub ahead : ℕ → ℕ → ℕ
ahead a b = (a + 2 ^ 22 - b) % 2 ^ 22

-- Two counters less than 2 ^ 21 apart, cut to 22 bits, compare as the counters do, in either order.
pub cmp_of_counters :
    (i d : ℕ)
    → d < half_max_seq_num
    → (tloe_seqnum_cmp ((i + d) % 2 ^ 22) (i % 2 ^ 22) ≡ (if d == 0 then pos 0 else pos 1))
      × (tloe_seqnum_cmp (i % 2 ^ 22) ((i + d) % 2 ^ 22) ≡ (if d == 0 then pos 0 else negsuc 0))
unfolding tloe_seqnum_cmp
cmp_of_counters i d h = (ground arith, ground arith)

-- For numbers below 2 ^ 22, the comparison with exchanged arguments has the opposite sign, also at
-- a distance of half the ring.
pub cmp_antisym :
    (a b : ℕ) → a < 2 ^ 22 → b < 2 ^ 22 → tloe_seqnum_cmp b a ≡ neg (tloe_seqnum_cmp a b)
unfolding tloe_seqnum_cmp
cmp_antisym a b ha hb = ground arith

-- Of two numbers below 2 ^ 22, the comparison puts the first after the second exactly if the
-- distance forward from the second to the first, round the ring, is positive and less than half the
-- ring, or is half the ring and the first is the smaller number.
pub cmp_ahead :
    (a b : ℕ)
    → a < 2 ^ 22
    → b < 2 ^ 22
    → (tloe_seqnum_cmp a b ≡ pos 1) ↔ (
        ((0 < ahead a b) × (ahead a b < half_max_seq_num))
        ⊎ ((ahead a b ≡ half_max_seq_num) × (a < b)))
unfolding tloe_seqnum_cmp
cmp_ahead a b ha hb = (λ h. ground arith, λ h. ground arith)

pub next_lem : (n : ℕ) → tloe_seqnum_next n ≡ (n + 1) % 2 ^ 22
unfolding tloe_seqnum_next
next_lem n = omega (arith, bit_and-mod_22 ((n + 1) % 2 ^ 32))

pub next_of_counter : (n : ℕ) → tloe_seqnum_next (n % 2 ^ 22) ≡ (n + 1) % 2 ^ 22
next_of_counter n = omega (arith, next_lem (n % 2 ^ 22))

-- On the numbers below 2 ^ 22, the functions for the next and the previous sequence number undo
-- each other.
pub prev-next :
    (n : ℕ)
    → n < 2 ^ 22
    → (tloe_seqnum_prev (tloe_seqnum_next n) ≡ n) × (tloe_seqnum_next (tloe_seqnum_prev n) ≡ n)
unfolding tloe_seqnum_prev
prev-next n h = ground (arith, next_lem n, next_lem (n - 1), next_lem max_seq_num)

pub prev_of_counter : (n : ℕ) → tloe_seqnum_prev (n % 2 ^ 22) % 2 ^ 22 ≡ (n + 2 ^ 22 - 1) % 2 ^ 22
unfolding tloe_seqnum_prev
prev_of_counter n = ground arith
