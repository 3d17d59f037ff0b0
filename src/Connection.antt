-- ===== src/Connection.antt =====
-- tloe_connection.h and tloe_connection.c: opening and closing a connection. A loop that waits for
-- the peer runs over the rounds that are given: each has what `tloe_fabric_recv` returned and whether
-- `check_timer` found the resend time over. The result says whether the loop has ended; after the
-- last round it would go on.
pub mod Frames
pub mod Waiting
pub mod Slave
pub mod Master
pub mod Last
pub mod Handshake
pub mod WellFormed
pub mod Closing
pub mod Ended
use omnixtend_c.Base.{
  ℕ, zero, suc, ◌+◌, ◌-◌, ◌*◌, ◌%◌, ◌^◌, Bool, true, false, ◌&&◌, ◌||◌, Option, none, some, List,
  [], ◌∷◌, ◌==◌, if◌then◌else◌, Outcome, ok, ◌>>=◌, is_negative, is_positive, not,
}
use omnixtend_c.TlMsg.{channel_a}
use omnixtend_c.Frame.{
  Frame, tloe_ack, type_normal, type_ackonly, type_open_connection, type_close_connection,
  max_size_flit, zero_frame, tloe_set_mask, tloe_frame_to_packet, packet_to_tloe_frame,
}
use omnixtend_c.SeqNum.{tloe_seqnum_cmp, tloe_seqnum_prev, tloe_seqnum_next}
use omnixtend_c.FlowControl.{credit_default, set_credit, check_all_channels}
use omnixtend_c.Endpoint.{
  Endpoint, tloe_fabric_send, tloe_seqnum_next_tx_seq_inc, tloe_seqnum_update_next_rx_seq,
  tloe_seqnum_update_acked_seq,
}

abbrev pub conn_packet_size : ℕ
conn_packet_size = 56

pub record Round : Type 0 where
  pub packet : Option (List ℕ)
  pub expired : Bool

unfoldable pub conn_frame : ℕ → ℕ → ℕ → ℕ → ℕ → Frame
conn_frame type seq_num seq_num_ack chan credit =
    let f = zero_frame (max_size_flit * 8) in
    record f {
      header = record (f.header) {
        type = type % 2 ^ 4;
        seq_num = seq_num % 2 ^ 22;
        seq_num_ack = seq_num_ack % 2 ^ 22;
        ack = tloe_ack;
        chan = chan % 2 ^ 3;
        credit = credit % 2 ^ 5;
      };
    }

-- The mask that is set between the header's fields is independent of them.
unfoldable pub send_frame : Endpoint → ℕ → ℕ → ℕ → ℕ → ℕ → Outcome Endpoint
unfolding conn_frame
send_frame e type seq_num seq_num_ack chan credit = do
  f ← tloe_set_mask (conn_frame type seq_num seq_num_ack chan credit) 0 conn_packet_size
  packet ← tloe_frame_to_packet f conn_packet_size
  ok (tloe_fabric_send e packet)

-- What both sides do with a credit that they take.
unfoldable pub take_credit : Endpoint → Frame → Outcome Endpoint
take_credit e f = do
  fc ← set_credit e.fc f.header.chan f.header.credit
  let e = tloe_seqnum_update_next_rx_seq (record e { fc = fc }) f
  ok (tloe_seqnum_update_acked_seq e f)

unfoldable pub recv_conn_master : Endpoint → Option (List ℕ) → Outcome Endpoint
unfolding take_credit
recv_conn_master e none = ok e
recv_conn_master e (some packet) = do
  f ← packet_to_tloe_frame packet (zero_frame (max_size_flit * 8))
  let order = tloe_seqnum_cmp f.header.seq_num e.next_rx_seq
  if is_negative order || is_positive order then ok e else take_credit e f

unfoldable pub recv_conn_slave : Endpoint → Bool → Option (List ℕ) → Outcome (Bool × Endpoint)
unfolding take_credit
recv_conn_slave e conn_flag none = ok (conn_flag, e)
recv_conn_slave e conn_flag (some packet) = do
  f ← packet_to_tloe_frame packet (zero_frame (max_size_flit * 8))
  if f.header.type == type_open_connection || conn_flag
      then (do e ← take_credit e f; ok (true, e))
      else ok (false, e)

-- The loop over the channels from `i` on, with `n` rounds left; `opens` is the type of the frame for
-- channel A.
unfoldable pub serve_from : ℕ → ℕ → ℕ → Endpoint → Outcome Endpoint
serve_from opens zero i e = ok e
serve_from opens (suc n) i e =
    send_frame e (if i == channel_a then opens else type_normal) (i - 1)
      (tloe_seqnum_prev e.next_rx_seq) i credit_default
    >>= λ e'. serve_from opens n (i + 1) (record e' { next_tx_seq = i })

unfoldable pub serve_conn_master : Endpoint → Outcome Endpoint
unfolding serve_from
serve_conn_master e = serve_from type_open_connection 5 1 e

unfoldable pub serve_conn_slave : Endpoint → Outcome Endpoint
unfolding serve_from
serve_conn_slave e = serve_from type_normal 5 1 e

unfoldable pub open_master_loop : Bool → Endpoint → Bool → List Round → Outcome (Bool × Endpoint)
open_master_loop wde e timer [] = ok (false, e)
open_master_loop wde e timer (r ∷ rounds) = (if timer then serve_conn_master e else ok e) >>= λ e'.
    recv_conn_master e' r.packet >>= λ e''. elim (check_all_channels wde e''.fc) [
      | true ↦ ok (true, e'')
      | false ↦ open_master_loop wde e'' r.expired rounds
    ]

unfoldable pub open_conn_master : Bool → Endpoint → List Round → Outcome (Bool × Endpoint)
unfolding open_master_loop
open_conn_master wde e rounds = do
  r ← open_master_loop wde e true rounds
  if r.0
      then (do
        e ← send_frame r.1 type_normal r.1.next_tx_seq (tloe_seqnum_prev r.1.next_rx_seq) 0 0
        ok (true, tloe_seqnum_next_tx_seq_inc e))
      else ok r

unfoldable pub open_slave_loop :
    Bool → Endpoint → Bool → Bool → List Round → Outcome (Bool × Endpoint)
open_slave_loop wde e conn_flag timer [] = ok (false, e)
open_slave_loop wde e conn_flag timer (r ∷ rounds) =
    (if conn_flag && timer then serve_conn_slave e else ok e) >>= λ e'.
    recv_conn_slave e' conn_flag r.packet >>= λ c. elim (check_all_channels wde c.1.fc) [
      | true ↦ ok (true, c.1)
      | false ↦ open_slave_loop wde c.1 c.0 r.expired rounds
    ]

unfoldable pub open_conn_slave : Bool → Endpoint → List Round → Outcome (Bool × Endpoint)
unfolding open_slave_loop
open_conn_slave wde e rounds = do
  r ← open_slave_loop wde e false true rounds
  if r.0
      then (do
        e ← send_frame r.1 type_ackonly r.1.next_tx_seq (tloe_seqnum_prev r.1.next_rx_seq) 0 0
        ok (true, e))
      else ok r

unfoldable pub serve_close_conn : Endpoint → Outcome Endpoint
serve_close_conn e =
    send_frame e type_close_connection e.next_tx_seq (tloe_seqnum_prev e.next_rx_seq) 0 0

-- Both sides answer whether a close frame has come; the slave keeps what it knew.
unfoldable pub recv_close_conn : Endpoint → Bool → Option (List ℕ) → Outcome (Bool × Endpoint)
recv_close_conn e known none = ok (known, e)
recv_close_conn e known (some packet) = do
  f ← packet_to_tloe_frame packet (zero_frame (max_size_flit * 8))
  if f.header.type == type_close_connection
      then ok (
        true,
        record e {
          next_rx_seq = tloe_seqnum_next f.header.seq_num;
          acked_seq = f.header.seq_num_ack;
        },
      )
      else ok (known, e)

unfoldable pub close_master_loop : Endpoint → Bool → List Round → Outcome (Bool × Endpoint)
close_master_loop e timer [] = ok (false, e)
close_master_loop e timer (r ∷ rounds) = (if timer then serve_close_conn e else ok e) >>= λ e'.
    recv_close_conn e' false r.packet >>= λ c. elim c.0 [
      | true ↦ ok c
      | false ↦ close_master_loop c.1 r.expired rounds
    ]

unfoldable pub close_conn_master : Endpoint → List Round → Outcome (Bool × Endpoint)
unfolding close_master_loop
close_conn_master e rounds = close_master_loop e true rounds

-- The answer is sent in the round after the peer's frame, before that round's receive.
unfoldable pub close_slave_loop : Endpoint → Bool → List Round → Outcome (Bool × Endpoint)
close_slave_loop e conn_flag [] = ok (false, e)
close_slave_loop e conn_flag (r ∷ rounds) =
    (if conn_flag then serve_close_conn e else ok e) >>= λ e'.
    recv_close_conn e' conn_flag r.packet >>= λ c. elim conn_flag [
      | true ↦ ok (true, c.1)
      | false ↦ close_slave_loop c.1 c.0 rounds
    ]

unfoldable pub close_conn_slave : Endpoint → List Round → Outcome (Bool × Endpoint)
unfolding close_slave_loop
close_conn_slave e rounds = close_slave_loop e false rounds

unfoldable pub is_conn : Endpoint → Bool
is_conn e = not (e.connection == 0)
