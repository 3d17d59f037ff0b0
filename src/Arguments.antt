-- ===== src/Arguments.antt =====
-- tloe_endpoint.c: what `parse_arguments` makes of the options that `getopt` finds. A string is its
-- bytes in front of the terminating 0; the usage that is printed on an error is left out.
pub mod Options
pub mod Accepted
use omnixtend_c.Base.{
  ℕ, ◌-◌, Bool, true, false, Option, none, some, List, [], ◌∷◌, take, ◌==◌, ◌&&◌, ◌||◌, not,
  if◌then◌else◌,
}
use omnixtend_c.Mq.{role_master, role_slave}

abbrev pub fabric_ether : ℕ
fabric_ether = 0

abbrev pub fabric_mq : ℕ
fabric_mq = 1

-- An option with its argument; `unknown` is what `getopt` answers with `?`.
pub data Opt : Type 0 where
  option_i option_d option_p : List ℕ → Opt
  option_m option_s unknown : Opt

-- What `parse_arguments` fills, with `none` for -1.
pub record Arguments : Type 0 where
  pub fabric_type : Option ℕ
  pub master : Option ℕ
  pub optarg_a : List ℕ
  pub optarg_b : List ℕ

-- `strncpy` of `size - 1` bytes and a 0 behind them
abbrev pub copied : ℕ → List ℕ → List ℕ
copied size arg = take (size - 1) arg

unfoldable pub check_fabric_type_conflict : Option ℕ → ℕ → Bool
check_fabric_type_conflict none expected = false
check_fabric_type_conflict (some current) expected = not (current == expected)

-- One turn of the loop, `none` where it ends with an error.
unfoldable pub parse_option : ℕ → ℕ → Arguments → Opt → Option Arguments
unfolding check_fabric_type_conflict
parse_option a_size b_size r (option_i arg) =
    if check_fabric_type_conflict r.fabric_type fabric_ether
    then none
    else some (record r { fabric_type = some fabric_ether; optarg_a = copied a_size arg })
parse_option a_size b_size r (option_d arg) =
    if check_fabric_type_conflict r.fabric_type fabric_ether
    then none
    else some (record r { fabric_type = some fabric_ether; optarg_b = copied b_size arg })
parse_option a_size b_size r (option_p arg) =
    if check_fabric_type_conflict r.fabric_type fabric_mq
    then none
    else some (record r { fabric_type = some fabric_mq; optarg_a = copied a_size arg })
parse_option a_size b_size r option_m = some (record r { master = some 1 })
parse_option a_size b_size r option_s = some (record r { master = some 0 })
parse_option a_size b_size r unknown = none

unfoldable pub parse_options : ℕ → ℕ → Arguments → List Opt → Option Arguments
unfolding parse_option
parse_options a_size b_size r [] = some r
parse_options a_size b_size r (o ∷ opts) = elim (parse_option a_size b_size r o) [
  | none ↦ none
  | some r' ↦ parse_options a_size b_size r' opts
]

abbrev pub is_empty {ℓ} : {A : Type ℓ} → List A → Bool
is_empty [] = true
is_empty (x ∷ xs) = false

abbrev pub role_name : ℕ → List ℕ
role_name master = if master == 0 then role_slave else role_master

-- The tests behind the loop.
unfoldable pub check_arguments : Arguments → Option Arguments
check_arguments r = elim (r.fabric_type) [
  | none ↦ none
  | some t ↦
      if t == fabric_ether && (is_empty r.optarg_a || is_empty r.optarg_b)
      then none
      else elim (r.master) [
        | none ↦ none
        | some master ↦
            some (if t == fabric_mq then record r { optarg_b = role_name master } else r)
      ]
]

-- The buffers are cleared by the caller.
unfoldable pub parse_arguments : ℕ → ℕ → List Opt → Option Arguments
unfolding parse_options check_arguments
parse_arguments a_size b_size opts =
    elim (parse_options a_size b_size
      (record { fabric_type = none; master = none; optarg_a = []; optarg_b = [] }) opts) [
        | none ↦ none
        | some r ↦ check_arguments r
      ]
