-- ===== src/Arguments/Options.antt =====
-- tloe_endpoint.c: the loop of `parse_arguments` over the options.
use mathlib.Core.Option.{some_inj, none-ne-some}
use omnixtend_c.Base.{
  ℕ, ◌≡◌, ◌≢◌, inl, inr, refl, ap, ◌∙◌, false, Option, none, some, List, [], ◌∷◌, All, ◌==◌,
  Bool-cases, ==→eq, eq→==, sym,
}
use omnixtend_c.Arguments.{
  Opt, option_i, option_d, option_p, option_m, option_s, unknown, Arguments, fabric_ether,
  fabric_mq, copied, check_fabric_type_conflict, parse_option, parse_options,
}

-- The option is for the medium `t`, or for either.
abbrev pub Belongs : ℕ → Opt → Type 0
Belongs t (option_i arg) = t ≡ fabric_ether
Belongs t (option_d arg) = t ≡ fabric_ether
Belongs t (option_p arg) = t ≡ fabric_mq
Belongs t option_m = Unit
Belongs t option_s = Unit
Belongs t unknown = t ≢ t

-- The last of the values that the options give, or `before`.
abbrev pub last_given {ℓ} : {A : Type ℓ} → (Opt → Option A) → A → List Opt → A
last_given pick before [] = before
last_given pick before (o ∷ opts) = elim (pick o) [
  | none ↦ last_given pick before opts
  | some a ↦ last_given pick a opts
]

abbrev pub names : ℕ → Opt → Option (List ℕ)
names size (option_i arg) = some (copied size arg)
names size (option_p arg) = some (copied size arg)
names size (option_d arg) = none
names size option_m = none
names size option_s = none
names size unknown = none

abbrev pub addresses : ℕ → Opt → Option (List ℕ)
addresses size (option_d arg) = some (copied size arg)
addresses size (option_i arg) = none
addresses size (option_p arg) = none
addresses size option_m = none
addresses size option_s = none
addresses size unknown = none

abbrev pub roles : Opt → Option (Option ℕ)
roles option_m = some (some 1)
roles option_s = some (some 0)
roles (option_i arg) = none
roles (option_d arg) = none
roles (option_p arg) = none
roles unknown = none

abbrev pub media : Opt → Option (Option ℕ)
media (option_i arg) = some (some fabric_ether)
media (option_d arg) = some (some fabric_ether)
media (option_p arg) = some (some fabric_mq)
media option_m = none
media option_s = none
media unknown = none

-- The medium is open, or is `t`.
abbrev pub Undecided : ℕ → Option ℕ → Type 0
Undecided t none = Unit {0}
Undecided t (some t') = t' ≡ t

-- what the caller clears
abbrev pub cleared : Arguments
cleared = record { fabric_type = none; master = none; optarg_a = []; optarg_b = [] }

-- what the options say, on top of what was known
abbrev pub said : ℕ → ℕ → Arguments → List Opt → Arguments
said a_size b_size r opts = record {
  fabric_type = last_given media r.fabric_type opts;
  master = last_given roles r.master opts;
  optarg_a = last_given (names a_size) r.optarg_a opts;
  optarg_b = last_given (addresses b_size) r.optarg_b opts;
}

no_conflict : (t : ℕ) (o : Option ℕ) → Undecided t o → check_fabric_type_conflict o t ≡ false
unfolding check_fabric_type_conflict
no_conflict t none h = refl
no_conflict t (some t') h = rw (eq→== t' t h) refl

no_conflict_inv : (t : ℕ) (o : Option ℕ) → check_fabric_type_conflict o t ≡ false → Undecided t o
unfolding check_fabric_type_conflict
no_conflict_inv t none h = tt
no_conflict_inv t (some t') h = elim (Bool-cases (t' == t)) [ inl e ↦ ==→eq t' t e | inr e ↦ cc ]

module _ (a_size b_size : ℕ) where
  pub parse_options_lem :
      (t : ℕ) (r : Arguments) (opts : List Opt)
      → Undecided t r.fabric_type
      → All (Belongs t) opts
      → parse_options a_size b_size r opts ≡ some (said a_size b_size r opts)
  unfolding parse_options parse_option
  parse_options_lem t r [] u b = refl
  parse_options_lem t r (option_i arg ∷ opts) u (e, b) =
      rw (no_conflict fabric_ether r.fabric_type (rw e at u), parse_options)
        (parse_options_lem t
          (record r { fabric_type = some fabric_ether; optarg_a = copied a_size arg }) opts (sym e)
          b)
  parse_options_lem t r (option_d arg ∷ opts) u (e, b) =
      rw (no_conflict fabric_ether r.fabric_type (rw e at u), parse_options)
        (parse_options_lem t
          (record r { fabric_type = some fabric_ether; optarg_b = copied b_size arg }) opts (sym e)
          b)
  parse_options_lem t r (option_p arg ∷ opts) u (e, b) =
      rw (no_conflict fabric_mq r.fabric_type (rw e at u), parse_options)
        (parse_options_lem t
          (record r { fabric_type = some fabric_mq; optarg_a = copied a_size arg }) opts (sym e) b)
  parse_options_lem t r (option_m ∷ opts) u (e, b) =
      parse_options_lem t (record r { master = some 1 }) opts u b
  parse_options_lem t r (option_s ∷ opts) u (e, b) =
      parse_options_lem t (record r { master = some 0 }) opts u b
  parse_options_lem t r (unknown ∷ opts) u (e, b) = absurd (e refl)

  pub parse_options_only :
      (r : Arguments) {r' : Arguments} (t : ℕ) (opts : List Opt)
      → parse_options a_size b_size r opts ≡ some r'
      → r'.fabric_type ≡ some t
      → Undecided t r.fabric_type × All (Belongs t) opts
  unfolding parse_options parse_option
  parse_options_only r t [] h k =
      let e : r.fabric_type ≡ some t = ap (λ a. a.fabric_type) (some_inj.0 h) ∙ k in (rw e refl, tt)
  parse_options_only r t (option_i arg ∷ opts) h k =
      elim (Bool-cases (check_fabric_type_conflict r.fabric_type fabric_ether)) [
        | inl c ↦ absurd (none-ne-some _ (rw (c, parse_options) at h))
        | inr c ↦
            let (e, b) =
              parse_options_only
                (record r { fabric_type = some fabric_ether; optarg_a = copied a_size arg }) t opts
                (rw (c, parse_options) at h) k in
            (rw e at (no_conflict_inv fabric_ether r.fabric_type c), (sym e, b))
      ]
  parse_options_only r t (option_d arg ∷ opts) h k =
      elim (Bool-cases (check_fabric_type_conflict r.fabric_type fabric_ether)) [
        | inl c ↦ absurd (none-ne-some _ (rw (c, parse_options) at h))
        | inr c ↦
            let (e, b) =
              parse_options_only
                (record r { fabric_type = some fabric_ether; optarg_b = copied b_size arg }) t opts
                (rw (c, parse_options) at h) k in
            (rw e at (no_conflict_inv fabric_ether r.fabric_type c), (sym e, b))
      ]
  parse_options_only r t (option_p arg ∷ opts) h k =
      elim (Bool-cases (check_fabric_type_conflict r.fabric_type fabric_mq)) [
        | inl c ↦ absurd (none-ne-some _ (rw (c, parse_options) at h))
        | inr c ↦
            let (e, b) =
              parse_options_only
                (record r { fabric_type = some fabric_mq; optarg_a = copied a_size arg }) t opts
                (rw (c, parse_options) at h) k in
            (rw e at (no_conflict_inv fabric_mq r.fabric_type c), (sym e, b))
      ]
  parse_options_only r t (option_m ∷ opts) h k =
      let (e, b) = parse_options_only (record r { master = some 1 }) t opts h k in (e, (tt, b))
  parse_options_only r t (option_s ∷ opts) h k =
      let (e, b) = parse_options_only (record r { master = some 0 }) t opts h k in (e, (tt, b))
  parse_options_only r t (unknown ∷ opts) h k = absurd (none-ne-some _ h)
