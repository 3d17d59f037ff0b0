-- ===== src/Tests/Numbers.antt =====
-- Sequence numbers at the end of the ring.
use omnixtend_c.Base.{◌<◌, ◌≡◌, ◌⊎◌, ◌↔◌, arith, pos}
use omnixtend_c.SeqNum.{half_max_seq_num, tloe_seqnum_cmp}
use omnixtend_c.SeqNum.Order.{ahead, cmp_ahead}

cmp_ahead_example : (tloe_seqnum_cmp 1 4194302 ≡ pos 1) ↔ (
    ((0 < ahead 1 4194302) × (ahead 1 4194302 < half_max_seq_num))
    ⊎ ((ahead 1 4194302 ≡ half_max_seq_num) × (1 < 4194302)))
cmp_ahead_example = cmp_ahead 1 4194302 (omega arith) (omega arith)
