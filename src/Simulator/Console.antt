-- ===== src/Simulator/Console.antt =====
-- tloe_ns.c: the simulator's command line and its commands. A string is its bytes in front of the
-- 0; what is printed is left out.
pub mod Count
use omnixtend_c.Base.{
  ℕ, zero, suc, ◌+◌, ◌-◌, ◌*◌, ◌^◌, Bool, true, false, ◌&&◌, ◌||◌, Option, none, some, List, [],
  ◌∷◌, take, drop, ltb, leb, ◌==◌, if◌then◌else◌, Outcome, ok, undefined, require, ◌>>=◌, ◌>>◌, ℤ,
  pos, neg, is_positive,
}
use omnixtend_c.Mq.{str_eq}
use omnixtend_c.Simulator.{
  Simulator, tloe_ns_thread_start, tloe_ns_thread_stop, tloe_ns_set_drop_count_a_to_b,
  tloe_ns_set_drop_count_b_to_a, tloe_ns_set_drop_count_bidirectional,
}

-- The options that `getopt` finds.
pub data Opt : Type 0 where
  option_p : List ℕ → Opt
  option_h unknown : Opt

unfoldable pub parse_options : ℕ → List ℕ → List Opt → Option (List ℕ)
parse_options queue_name_size queue_name [] = some queue_name
parse_options queue_name_size queue_name (option_p arg ∷ opts) =
    parse_options queue_name_size (take (queue_name_size - 1) arg) opts
parse_options queue_name_size queue_name (option_h ∷ opts) = none
parse_options queue_name_size queue_name (unknown ∷ opts) = none

-- The name of the queue, `none` for the result -1.
unfoldable pub parse_cli_argument : ℕ → List Opt → Option (List ℕ)
unfolding parse_options
parse_cli_argument queue_name_size opts = elim (parse_options queue_name_size [] opts) [
  | none ↦ none
  | some queue_name ↦ elim queue_name [ [] ↦ none | c ∷ cs ↦ some (c ∷ cs) ]
]

abbrev pub is_space : ℕ → Bool
is_space c = c == 32 || (leb 9 c && leb c 13)

unfoldable pub is_empty_command : List ℕ → Bool
is_empty_command [] = true
is_empty_command (c ∷ cmd) = if is_space c then is_empty_command cmd else false

-- the string without the newline and what comes behind it
abbrev pub up_to_newline : List ℕ → List ℕ
up_to_newline [] = []
up_to_newline (c ∷ cmd) = if c == 10 then [] else c ∷ up_to_newline cmd

-- `atoi`: spaces, a sign and digits. A number that no `int` holds is left undefined by C.
abbrev pub is_digit : ℕ → Bool
is_digit c = leb 48 c && leb c 57

abbrev pub digits_from : ℕ → List ℕ → ℕ
digits_from n [] = n
digits_from n (c ∷ cs) = if is_digit c then digits_from (n * 10 + (c - 48)) cs else n

abbrev pub skip_spaces : List ℕ → List ℕ
skip_spaces [] = []
skip_spaces (c ∷ cs) = if is_space c then skip_spaces cs else c ∷ cs

abbrev pub signed_digits : List ℕ → ℤ
signed_digits [] = pos 0
signed_digits (c ∷ cs) =
    if c == 45
    then neg (pos (digits_from 0 cs))
    else if c == 43
    then pos (digits_from 0 cs)
    else pos (digits_from 0 (c ∷ cs))

abbrev in_int : ℤ → Bool
in_int (pos n) = ltb n (2 ^ 31)
in_int (ℤ.negsuc n) = ltb n (2 ^ 31)

unfoldable pub atoi : List ℕ → Outcome ℤ
atoi s = let n = signed_digits (skip_spaces s) in require (in_int n) undefined >> ok n

-- What a command comes to: whether `tloe_ns_flush_ports` is called, and whether the loop ends.
pub record Turn : Type 0 where
  pub simulator : Simulator
  pub flushes : Bool
  pub quits : Bool

abbrev pub goes_on : Simulator → Turn
goes_on s = record { simulator = s; flushes = false; quits = false }

-- A count that is not positive is refused.
unfoldable pub with_count : (Simulator → ℕ → Simulator) → Simulator → List ℕ → Outcome Turn
unfolding atoi
with_count set s arg = do
  count ← atoi arg
  elim count [ pos n ↦ ok (goes_on (if ltb 0 n then set s n else s)) | ℤ.negsuc n ↦ ok (goes_on s) ]

-- whether `strncmp` of two bytes with the letter and a space gives 0
abbrev pub is_letter_and_space : ℕ → List ℕ → Bool
is_letter_and_space letter cmd = str_eq (take 2 cmd) (letter ∷ 32 ∷ [])

abbrev pub is_start : List ℕ → Bool
is_start cmd =
    str_eq cmd (115 ∷ 116 ∷ 97 ∷ 114 ∷ 116 ∷ [])
    || (str_eq cmd (114 ∷ 117 ∷ 110 ∷ []) || str_eq cmd (114 ∷ []))

abbrev pub is_stop : List ℕ → Bool
is_stop cmd =
    str_eq cmd (115 ∷ 116 ∷ 111 ∷ 112 ∷ [])
    || (str_eq cmd (104 ∷ 97 ∷ 108 ∷ 116 ∷ []) || str_eq cmd (104 ∷ []))

abbrev pub is_flush : List ℕ → Bool
is_flush cmd = str_eq cmd (102 ∷ 108 ∷ 117 ∷ 115 ∷ 104 ∷ []) || str_eq cmd (102 ∷ [])

abbrev pub is_quit : List ℕ → Bool
is_quit cmd = str_eq cmd (113 ∷ 117 ∷ 105 ∷ 116 ∷ []) || str_eq cmd (113 ∷ [])

-- One command, of a line that `fgets` has read.
unfoldable pub command : Simulator → List ℕ → Outcome Turn
unfolding is_empty_command with_count
command s line =
    let cmd = up_to_newline line in
    if is_empty_command cmd
    then ok (goes_on s)
    else if str_eq cmd (115 ∷ [])
    then ok (goes_on (if s.is_done then tloe_ns_thread_start s else tloe_ns_thread_stop s))
    else if is_start cmd
    then ok (goes_on (tloe_ns_thread_start s))
    else if is_stop cmd
    then ok (goes_on (tloe_ns_thread_stop s))
    else if is_flush cmd
    then ok (record { simulator = s; flushes = true; quits = false })
    else if is_letter_and_space 97 cmd
    then with_count tloe_ns_set_drop_count_a_to_b s (drop 2 cmd)
    else if is_letter_and_space 98 cmd
    then with_count tloe_ns_set_drop_count_b_to_a s (drop 2 cmd)
    else if is_letter_and_space 119 cmd
    then with_count tloe_ns_set_drop_count_bidirectional s (drop 2 cmd)
    else if is_quit cmd
    then ok (record {
      simulator = if s.is_done then s else tloe_ns_thread_stop s;
      flushes = false;
      quits = true;
    })
    else ok (goes_on s)

-- The loop, until the input ends or a command ends it.
unfoldable pub main_loop : Simulator → List (List ℕ) → Outcome Simulator
unfolding command
main_loop s [] = ok s
main_loop s (line ∷ lines) = command s line >>= λ t. elim t.quits [
  | true ↦ ok t.simulator
  | false ↦ main_loop t.simulator lines
]

-- The static variables at first.
abbrev pub stopped : Simulator
stopped = record {
  drop_count_a_to_b = 0;
  drop_count_b_to_a = 0;
  to_b = [];
  to_a = [];
  is_done = true;
}

abbrev pub cli_queue_name : ℕ
cli_queue_name = 64

unfoldable pub main : List Opt → List (List ℕ) → Outcome (ℕ × Simulator)
unfolding parse_cli_argument main_loop
main opts lines = elim (parse_cli_argument cli_queue_name opts) [
  | none ↦ ok (1, stopped)
  | some queue_name ↦ main_loop stopped lines >>= λ s. ok (0, s)
]
