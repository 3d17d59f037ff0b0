-- ===== src/Simulator.antt =====
-- tloe_ns_thread.c: the network simulator that stands between two endpoints. A round takes what the
-- two message queues had (`none` if the receive failed) and whether they took what was sent on; the
-- queues themselves are the system's.
pub mod Drops
pub mod Ports
pub mod Wiring
pub mod Flush
pub mod Console
use omnixtend_c.Base.{
  ℕ, ◌-◌, Bool, true, false, Option, none, some, List, [], ◌∷◌, ◌++◌, length, ltb, leb,
  if◌then◌else◌, Outcome, ok, out_of_bounds, require, ◌>>=◌, ◌>>◌,
}

-- The drop counters, what port B and port A were sent, oldest first, and `is_done`.
pub record Simulator : Type 0 where
  pub drop_count_a_to_b : ℕ
  pub drop_count_b_to_a : ℕ
  pub to_b : List (List ℕ)
  pub to_a : List (List ℕ)
  pub is_done : Bool

pub record Arrivals : Type 0 where
  pub from_a : Option (List ℕ)
  pub b_takes : Bool
  pub from_b : Option (List ℕ)
  pub a_takes : Bool

abbrev pub buffer_size : ℕ
buffer_size = 1024

-- `tloe_mq_recv` does not see the size of the buffer: a longer packet is written over its end. An
-- empty one is not sent on.
unfoldable pub relay_a_to_b : Simulator → Option (List ℕ) → Bool → Outcome Simulator
relay_a_to_b s none takes = ok s
relay_a_to_b s (some packet) takes =
    require (leb (length packet) buffer_size) out_of_bounds
    >> (if ltb 0 (length packet)
        then (if ltb 0 s.drop_count_a_to_b
            then ok (record s { drop_count_a_to_b = s.drop_count_a_to_b - 1 })
            else if takes
            then ok (record s { to_b = s.to_b ++ packet ∷ [] })
            else ok s)
        else ok s)

unfoldable pub relay_b_to_a : Simulator → Option (List ℕ) → Bool → Outcome Simulator
relay_b_to_a s none takes = ok s
relay_b_to_a s (some packet) takes =
    require (leb (length packet) buffer_size) out_of_bounds
    >> (if ltb 0 (length packet)
        then (if ltb 0 s.drop_count_b_to_a
            then ok (record s { drop_count_b_to_a = s.drop_count_b_to_a - 1 })
            else if takes
            then ok (record s { to_a = s.to_a ++ packet ∷ [] })
            else ok s)
        else ok s)

-- The thread's loop over the rounds that are given, until it finds `is_done` set.
unfoldable pub thread_fn : Simulator → List Arrivals → Outcome Simulator
unfolding relay_a_to_b relay_b_to_a
thread_fn s [] = ok s
thread_fn s (r ∷ rounds) = elim s.is_done [
  | true ↦ ok s
  | false ↦ relay_a_to_b s r.from_a r.b_takes >>= λ a.
      relay_b_to_a a r.from_b r.a_takes >>= λ b. thread_fn b rounds
]

unfoldable pub tloe_ns_set_drop_count_a_to_b : Simulator → ℕ → Simulator
tloe_ns_set_drop_count_a_to_b s count = record s { drop_count_a_to_b = count }

unfoldable pub tloe_ns_set_drop_count_b_to_a : Simulator → ℕ → Simulator
tloe_ns_set_drop_count_b_to_a s count = record s { drop_count_b_to_a = count }

unfoldable pub tloe_ns_set_drop_count_bidirectional : Simulator → ℕ → Simulator
tloe_ns_set_drop_count_bidirectional s count = record s {
  drop_count_a_to_b = count;
  drop_count_b_to_a = count;
}

-- Starting and stopping: a second start or stop changes nothing.
unfoldable pub tloe_ns_thread_start : Simulator → Simulator
tloe_ns_thread_start s = record s { is_done = false }

unfoldable pub tloe_ns_thread_stop : Simulator → Simulator
tloe_ns_thread_stop s = record s { is_done = true }
