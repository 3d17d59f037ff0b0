-- ===== src/Arguments/Accepted.antt =====
-- tloe_endpoint.c: the tests behind the loop of `parse_arguments`, and the whole of it.
use mathlib.Core.Option.{some_inj, none-ne-some}
use omnixtend_c.Base.{
  ℕ, ◌≡◌, ◌≢◌, ◌⊎◌, inl, inr, refl, ap₂, ◌∙◌, arith, Bool, true, false, Option, none, some, List,
  [], All, ◌==◌, ◌&&◌, ◌||◌, if◌then◌else◌, Bool-cases, Option-cases, ==→eq, ==→ne, eq→==, ne→==,
  sym,
}
use omnixtend_c.Arguments.{
  Opt, Arguments, fabric_ether, fabric_mq, parse_options, check_arguments, parse_arguments,
  is_empty, role_name,
}
use omnixtend_c.Arguments.Options.{
  Belongs, last_given, names, addresses, roles, media, cleared, parse_options_lem,
  parse_options_only,
}

abbrev accepted : ℕ → ℕ → List ℕ → List ℕ → Arguments
accepted t m a b = record { fabric_type = some t; master = some m; optarg_a = a; optarg_b = b }

-- The tests behind the loop hold.
check_arguments_lem :
    (t m : ℕ) (a b : List ℕ)
    → (t ≡ fabric_mq) ⊎ ((is_empty a ≡ false) × (is_empty b ≡ false))
    → check_arguments (accepted t m a b)
      ≡ some (accepted t m a (if t == fabric_mq then role_name m else b))
unfolding check_arguments
check_arguments_lem t m a b (inl e) =
    rw (ne→== t fabric_ether (omega arith), eq→== t fabric_mq e) refl
check_arguments_lem t m a b (inr (ha, hb)) = elim (Bool-cases (t == fabric_mq)) [
  | inl e ↦ rw (ha, hb, e, ne→== t fabric_ether (omega (arith, ==→eq t fabric_mq e))) refl
  | inr e ↦ elim (Bool-cases (t == fabric_ether)) [
    | inl e' ↦ rw (e', ha, hb, e) refl
    | inr e' ↦ rw (e', e) refl
  ]
]

neither {ℓ} : {A : Type ℓ} (b : Bool) {a : A} → (if b then a else a) ≡ a
neither true = refl
neither false = refl

check_arguments_sound :
    (o o' : Option ℕ) (a b : List ℕ) {r : Arguments}
    → check_arguments (record { fabric_type = o; master = o'; optarg_a = a; optarg_b = b }) ≡ some r
    → (t m : ℕ) × (o ≡ some t)
      × (r.fabric_type ≡ some t)
      × (r.master ≡ some m)
      × ((t ≢ fabric_ether) ⊎ ((is_empty r.optarg_a ≡ false) × (is_empty r.optarg_b ≡ false)))
unfolding check_arguments
check_arguments_sound none o' a b h = absurd (none-ne-some _ h)
check_arguments_sound (some t) none a b h =
    absurd (none-ne-some _ (sym (neither (t == fabric_ether && (is_empty a || is_empty b))) ∙ h))
check_arguments_sound (some t) (some m) a b h = elim (Bool-cases (t == fabric_mq)) [
  | inl e ↦
      let mq : t ≡ fabric_mq = ==→eq t fabric_mq e in
      rw (some_inj.0 (sym h ∙ check_arguments_lem t m a b (inl mq)))
        (t, m, refl, refl, refl, inl (omega (arith, mq)))
  | inr e ↦ elim (Bool-cases (t == fabric_ether)) [
    | inr e' ↦
        rw (some_inj.0 (sym (rw (e', e, check_arguments) at h)))
          (t, m, refl, refl, refl, inl (==→ne t fabric_ether e'))
    | inl e' ↦ elim (Bool-cases (is_empty a)) [
      | inl empty ↦ absurd (none-ne-some _ (rw (e', empty, check_arguments) at h))
      | inr ha ↦ elim (Bool-cases (is_empty b)) [
        | inl empty ↦ absurd (none-ne-some _ (rw (e', ha, empty, check_arguments) at h))
        | inr hb ↦
            rw (some_inj.0 (sym h ∙ check_arguments_lem t m a b (inr (ha, hb))), e)
              (t, m, refl, refl, refl, inr (ha, hb))
      ]
    ]
  ]
]

module _ (a_size b_size : ℕ) where
  -- A command line of options for one medium, which is named, and with a role, and for Ethernet
  -- with an interface and an address that are not empty, is accepted. Of each setting the last
  -- option counts, names are cut to their buffers, and for message queues the second name is the
  -- role.
  pub parse_arguments_accepts :
      (t m : ℕ) (opts : List Opt)
      → All (Belongs t) opts
      → last_given media none opts ≡ some t
      → last_given roles none opts ≡ some m
      → (t ≡ fabric_mq)
        ⊎ ((is_empty (last_given (names a_size) [] opts) ≡ false)
            × (is_empty (last_given (addresses b_size) [] opts) ≡ false))
      → parse_arguments a_size b_size opts
        ≡ some record {
          fabric_type = some t;
          master = some m;
          optarg_a = last_given (names a_size) [] opts;
          optarg_b = if t == fabric_mq then role_name m else last_given (addresses b_size) [] opts;
        }
  unfolding parse_arguments check_arguments
  parse_arguments_accepts t m opts b et em full =
      let a = last_given (names a_size) [] opts in
      let b' = last_given (addresses b_size) [] opts in
      rw (parse_options_lem a_size b_size t cleared opts tt b, parse_arguments)
        (ap₂
            (λ x y.
              check_arguments (record { fabric_type = x; master = y; optarg_a = a; optarg_b = b' }))
            et em
          ∙ check_arguments_lem t m a b' full)

  -- If `parse_arguments` accepts a command line, a medium and a role are set, every option is known
  -- and belongs to that medium or to both, and for Ethernet both the interface and the address are
  -- not empty. So options of both media together, and a missing role or name, are refused.
  pub parse_arguments_sound :
      (opts : List Opt) (r : Arguments)
      → parse_arguments a_size b_size opts ≡ some r
      → (t m : ℕ) × (r.fabric_type ≡ some t)
        × (r.master ≡ some m)
        × All (Belongs t) opts
        × ((t ≢ fabric_ether) ⊎ ((is_empty r.optarg_a ≡ false) × (is_empty r.optarg_b ≡ false)))
  unfolding parse_arguments
  parse_arguments_sound opts r h = elim (Option-cases (parse_options a_size b_size cleared opts)) [
    | inl e ↦ absurd (none-ne-some _ (rw (e, parse_arguments) at h))
    | inr (r', e) ↦
        let (t, m, et, now, em, full) =
          check_arguments_sound (r'.fabric_type) (r'.master) (r'.optarg_a) (r'.optarg_b)
            (rw (e, parse_arguments) at h) in
        (t, m, now, em, (parse_options_only a_size b_size cleared t opts e et).1, full)
  ]
