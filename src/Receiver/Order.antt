-- ===== src/Receiver/Order.antt =====
-- How a receiver tells the frame that it waits for from an old one and from one that comes too soon.
use omnixtend_c.Base.{ℕ, ◌+◌, ◌%◌, ◌^◌, ◌<◌, ◌≡◌, arith, if◌then◌else◌, ◌==◌}
use omnixtend_c.SeqNum.{half_max_seq_num}
use omnixtend_c.SeqNum.Order.{cmp_of_counters}
use omnixtend_c.Frame.{Frame}
use omnixtend_c.Endpoint.{Endpoint}
use omnixtend_c.Receiver.{req_normal, req_duplicate, req_oos, tloe_rx_get_req_type}

module _ (e : Endpoint) (f : Frame) (n d : ℕ) (h : d < half_max_seq_num) where
  -- If the counter of the frames received is n and a frame has the counter n + d, both cut to 22
  -- bits and d < 2 ^ 21, the frame is normal for d = 0 and out of sequence otherwise.
  pub req_type_ahead :
      e.next_rx_seq ≡ n % 2 ^ 22
      → f.header.seq_num ≡ (n + d) % 2 ^ 22
      → tloe_rx_get_req_type e f ≡ (if d == 0 then req_normal else req_oos)
  unfolding tloe_rx_get_req_type
  req_type_ahead a b = rw (a, b) (ground (arith, cmp_of_counters n d h))

  -- If a frame has the counter n and the counter of the frames received is n + d, both cut to 22
  -- bits and d < 2 ^ 21, the frame is normal for d = 0 and a duplicate otherwise.
  pub req_type_behind :
      e.next_rx_seq ≡ (n + d) % 2 ^ 22
      → f.header.seq_num ≡ n % 2 ^ 22
      → tloe_rx_get_req_type e f ≡ (if d == 0 then req_normal else req_duplicate)
  unfolding tloe_rx_get_req_type
  req_type_behind a b = rw (a, b) (ground (arith, cmp_of_counters n d h))
