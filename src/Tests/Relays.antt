-- ===== src/Tests/Relays.antt =====
-- A simulator that is to drop two packets on the way to port B, while three come.
use omnixtend_c.Base.{◌≡◌, refl, arith, ok, true, false, none, some, List, [], ◌∷◌}
use omnixtend_c.Simulator.{Simulator, Arrivals, thread_fn}
use omnixtend_c.Simulator.Console.{main_loop}
use omnixtend_c.Simulator.Console.Count.{commanded_drops}

abbrev started : Simulator
started = record {
  drop_count_a_to_b = 0;
  drop_count_b_to_a = 0;
  to_b = [];
  to_a = [];
  is_done = false;
}

abbrev three_rounds : List Arrivals
three_rounds =
    record { from_a = some (1 ∷ []); b_takes = true; from_b = none; a_takes = true }
    ∷ record { from_a = some (2 ∷ []); b_takes = true; from_b = some (9 ∷ []); a_takes = true }
    ∷ record { from_a = some (3 ∷ []); b_takes = true; from_b = none; a_takes = true }
    ∷ []

-- the command `w 2`
commanded_drops_example :
    (s : Simulator) × (s' : Simulator) × (main_loop started ((119 ∷ 32 ∷ 50 ∷ 10 ∷ []) ∷ []) ≡ ok s)
    × (thread_fn s three_rounds ≡ ok s')
    × (s'.to_b ≡ (3 ∷ []) ∷ [])
    × (s'.to_a ≡ [])
commanded_drops_example = commanded_drops started 2 three_rounds refl (omega arith) (omega arith) (
  refl,
  refl,
  omega arith,
  tt,
  (refl, refl, omega arith, omega arith, (refl, refl, omega arith, tt, tt)),
)
