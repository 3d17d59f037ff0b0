-- ===== src/Simulator/Console/Count.antt =====
-- tloe_ns.c: the commands with a count, for a count that is written in decimal.
use omnixtend_c.Base.{
  ℕ, zero, suc, ◌+◌, ◌-◌, ◌*◌, ◌/◌, ◌%◌, ◌^◌, ◌<◌, ◌≡◌, refl, ap, ◌∙◌, arith, true, false, List, [],
  ◌∷◌, ◌++◌, drop, All, ltb, lt→ltb, ◌==◌, ok, pos, ltb→ge, ltb→lt, Bool-cases, inl, inr,
}
use omnixtend_c.Simulator.{Simulator, Arrivals, thread_fn, tloe_ns_set_drop_count_bidirectional}
use omnixtend_c.Simulator.Drops.{AllTaken, arrived_at_a, arrived_at_b, thread_fn_lem}
use omnixtend_c.Simulator.Console.{
  is_space, is_empty_command, up_to_newline, is_digit, digits_from, atoi, with_count, goes_on,
  command, main_loop,
}

-- the digits of a number below the fuel
abbrev pub decimal_from : ℕ → ℕ → List ℕ
decimal_from zero n = []
decimal_from (suc fuel) n = elim (ltb n 10) [
  | true ↦ (48 + n) ∷ []
  | false ↦ decimal_from fuel (n / 10) ++ (48 + n % 10) ∷ []
]

abbrev pub decimal : ℕ → List ℕ
decimal n = decimal_from (suc n) n

abbrev AllDigits : List ℕ → Type 0
AllDigits ds = All (λ c. is_digit c ≡ true) ds

AllDigits-append :
    (xs : List ℕ) (c : ℕ) → AllDigits xs → is_digit c ≡ true → AllDigits (xs ++ c ∷ [])
AllDigits-append [] c h hc = (hc, tt)
AllDigits-append (x ∷ xs) c (hx, h) hc = (hx, AllDigits-append xs c h hc)

digits_from-append :
    (n : ℕ) (xs : List ℕ) (c : ℕ)
    → AllDigits xs
    → is_digit c ≡ true
    → digits_from n (xs ++ c ∷ []) ≡ digits_from n xs * 10 + (c - 48)
digits_from-append n [] c h hc = rw hc refl
digits_from-append n (x ∷ xs) c (hx, h) hc =
    rw hx (digits_from-append (n * 10 + (x - 48)) xs c h hc)

digit : (d : ℕ) → d < 10 → is_digit (48 + d) ≡ true
digit d h = ground arith

decimal_from_lem :
    (fuel n : ℕ)
    → n < fuel
    → AllDigits (decimal_from fuel n) × (digits_from 0 (decimal_from fuel n) ≡ n)
decimal_from_lem zero n h = absurd (omega arith)
decimal_from_lem (suc fuel) n h = elim (Bool-cases (ltb n 10)) [
  | inl small ↦
      let d = digit n (ltb→lt n 10 small) in rw (small, decimal_from, d) ((refl, tt), omega arith)
  | inr large ↦
      let many = ltb→ge n 10 large in
      let (all, value) = decimal_from_lem fuel (n / 10) (omega arith) in
      let d = digit (n % 10) (omega arith) in
      rw (large, decimal_from)
        (
          AllDigits-append (decimal_from fuel (n / 10)) (48 + n % 10) all d,
          digits_from-append 0 (decimal_from fuel (n / 10)) (48 + n % 10) all d
              ∙ omega (arith, value),
        )
]

up_to_newline-digits : (ds : List ℕ) → AllDigits ds → up_to_newline (ds ++ 10 ∷ []) ≡ ds
up_to_newline-digits [] h = refl
up_to_newline-digits (d ∷ ds) (hd, h) =
    let other : (d == 10) ≡ false = ground arith in
    rw other (ap (◌∷◌ d) (up_to_newline-digits ds h))

atoi-digits :
    (ds : List ℕ) → AllDigits ds → digits_from 0 ds < 2 ^ 31 → atoi ds ≡ ok (pos (digits_from 0 ds))
unfolding atoi
atoi-digits [] h small = refl
atoi-digits (d ∷ ds) (hd, h) small =
    let no_space : is_space d ≡ false = ground arith in
    let no_minus : (d == 45) ≡ false = ground arith in
    let no_plus : (d == 43) ≡ false = ground arith in
    rw (no_space, no_minus, no_plus, lt→ltb (digits_from 0 (d ∷ ds)) (2 ^ 31) small) refl

-- The line `w` with a count sets both drop counts to it.
count_command :
    (s : Simulator) (n : ℕ)
    → 0 < n
    → n < 2 ^ 31
    → command s (119 ∷ 32 ∷ decimal n ++ 10 ∷ [])
      ≡ ok (goes_on (tloe_ns_set_drop_count_bidirectional s n))
unfolding command is_empty_command with_count
count_command s n positive small =
    let (all, value) = decimal_from_lem (suc n) n (omega arith) in
    rw
      (
        up_to_newline-digits (decimal n) all,
        command,
        atoi-digits (decimal n) all (rw value small),
        value,
        lt→ltb 0 n positive,
      )
      refl

-- On a simulator that runs, the line `w` with a count in decimal, of at least 1 and less than
-- 2 ^ 31, makes the thread drop exactly the first packets of each direction, as many as the count
-- says, and relay all others in order: over rounds in which both queues take what they are sent and
-- no packet is longer than the thread's buffer of 1024 bytes, an empty packet counting as none.
pub commanded_drops :
    (s : Simulator) (n : ℕ) (rounds : List Arrivals)
    → s.is_done ≡ false
    → 0 < n
    → n < 2 ^ 31
    → AllTaken rounds
    → (s' : Simulator) × (s'' : Simulator) × (main_loop s ((119 ∷ 32 ∷ decimal n ++ 10 ∷ []) ∷ [])
        ≡ ok s')
      × (thread_fn s' rounds ≡ ok s'')
      × (s''.to_b ≡ s.to_b ++ drop n (arrived_at_a rounds))
      × (s''.to_a ≡ s.to_a ++ drop n (arrived_at_b rounds))
unfolding main_loop tloe_ns_set_drop_count_bidirectional
commanded_drops s n rounds runs positive small t =
    let (s'', run, there, back) =
      thread_fn_lem (tloe_ns_set_drop_count_bidirectional s n) rounds runs t in
    (
      tloe_ns_set_drop_count_bidirectional s n,
      s'',
      rw (count_command s n positive small) refl,
      run,
      there,
      back,
    )
