-- ===== src/Simulator/Drops.antt =====
-- Which packets the relay drops.
use omnixtend_c.Base.{
  ℕ, zero, suc, ◌-◌, ◌≡◌, refl, sym, ap, ap₂, ◌∙◌, arith, true, Option, none, some, List, [], ◌∷◌,
  ◌++◌, append-nil, append_assoc, drop, length, lt→ltb, ◌≤◌, false, ok, Outcome, ◌>>=◌,
}
use omnixtend_c.Memory.Laws.{le→leb}
use omnixtend_c.Simulator.{Simulator, Arrivals, buffer_size, relay_a_to_b, relay_b_to_a, thread_fn}

-- the packets that have come, in order; an empty one does not count
abbrev come : Option (List ℕ) → List (List ℕ)
come none = []
come (some []) = []
come (some (b ∷ packet)) = (b ∷ packet) ∷ []

abbrev pub arrived_at_a : List Arrivals → List (List ℕ)
arrived_at_a [] = []
arrived_at_a (r ∷ rounds) = come r.from_a ++ arrived_at_a rounds

abbrev pub arrived_at_b : List Arrivals → List (List ℕ)
arrived_at_b [] = []
arrived_at_b (r ∷ rounds) = come r.from_b ++ arrived_at_b rounds

-- A packet that the thread's buffer holds.
abbrev pub IsHeld : Option (List ℕ) → Type 0
IsHeld none = Unit {0}
IsHeld (some packet) = length packet ≤ buffer_size

-- The queues behind the ports take what they are sent, and what comes fits the buffer.
abbrev pub AllTaken : List Arrivals → Type 0
AllTaken [] = Unit {0}
AllTaken (r ∷ rounds) =
    (r.b_takes ≡ true) × (r.a_takes ≡ true) × IsHeld r.from_a × IsHeld r.from_b × AllTaken rounds

drop-nil {ℓ} : {A : Type ℓ} (n : ℕ) → drop {A = A} n [] ≡ []
drop-nil zero = refl
drop-nil (suc n) = refl

drop-come :
    (n : ℕ) (o : Option (List ℕ)) (rest : List (List ℕ))
    → drop n (come o) ++ drop (n - length (come o)) rest ≡ drop n (come o ++ rest)
drop-come n none rest =
    ap (λ l. l ++ drop (n - 0) rest) (drop-nil n) ∙ ap (λ k. drop k rest) (omega arith)
drop-come n (some []) rest =
    ap (λ l. l ++ drop (n - 0) rest) (drop-nil n) ∙ ap (λ k. drop k rest) (omega arith)
drop-come zero (some (b ∷ p)) rest = refl
drop-come (suc n) (some (b ∷ p)) rest =
    ap (λ l. l ++ drop (suc n - 1) rest) (drop-nil n) ∙ ap (λ k. drop k rest) (omega arith)

-- What a relay of what came leaves, where `n` are to be dropped.
abbrev left_of : ℕ → Option (List ℕ) → ℕ
left_of n o = n - length (come o)

kept_a :
    (s : Simulator)
    → s ≡ record s {
      drop_count_a_to_b = s.drop_count_a_to_b - 0;
      to_b = s.to_b ++ drop s.drop_count_a_to_b [];
    }
kept_a s =
    ap₂ (λ c t. record s { drop_count_a_to_b = c; to_b = t }) (omega arith)
      (sym (ap (λ l. s.to_b ++ l) (drop-nil s.drop_count_a_to_b) ∙ append-nil s.to_b))

relay_a :
    (s : Simulator) (o : Option (List ℕ))
    → IsHeld o
    → relay_a_to_b s o true
      ≡ ok (record s {
        drop_count_a_to_b = left_of s.drop_count_a_to_b o;
        to_b = s.to_b ++ drop s.drop_count_a_to_b (come o);
      })
unfolding relay_a_to_b
relay_a s none h = ap ok (kept_a s)
relay_a s (some []) h = ap ok (kept_a s)
relay_a s (some (b ∷ p)) h = go s.drop_count_a_to_b refl
  where
    go :
        (c : ℕ)
        → s.drop_count_a_to_b ≡ c
        → relay_a_to_b s (some (b ∷ p)) true
          ≡ ok (record s {
            drop_count_a_to_b = left_of s.drop_count_a_to_b (some (b ∷ p));
            to_b = s.to_b ++ drop s.drop_count_a_to_b ((b ∷ p) ∷ []);
          })
    go zero e =
        rw
          (
            e,
            relay_a_to_b,
            le→leb (length (b ∷ p)) buffer_size h,
            lt→ltb 0 (length (b ∷ p)) (omega arith),
          )
          refl
    go (suc c) e =
        rw
          (
            e,
            relay_a_to_b,
            le→leb (length (b ∷ p)) buffer_size h,
            lt→ltb 0 (length (b ∷ p)) (omega arith),
            lt→ltb 0 (suc c) (omega arith),
            drop-nil c,
            append-nil,
          )
          refl

kept_b :
    (s : Simulator)
    → s ≡ record s {
      drop_count_b_to_a = s.drop_count_b_to_a - 0;
      to_a = s.to_a ++ drop s.drop_count_b_to_a [];
    }
kept_b s =
    ap₂ (λ c t. record s { drop_count_b_to_a = c; to_a = t }) (omega arith)
      (sym (ap (λ l. s.to_a ++ l) (drop-nil s.drop_count_b_to_a) ∙ append-nil s.to_a))

relay_b :
    (s : Simulator) (o : Option (List ℕ))
    → IsHeld o
    → relay_b_to_a s o true
      ≡ ok (record s {
        drop_count_b_to_a = left_of s.drop_count_b_to_a o;
        to_a = s.to_a ++ drop s.drop_count_b_to_a (come o);
      })
unfolding relay_b_to_a
relay_b s none h = ap ok (kept_b s)
relay_b s (some []) h = ap ok (kept_b s)
relay_b s (some (b ∷ p)) h = go s.drop_count_b_to_a refl
  where
    go :
        (c : ℕ)
        → s.drop_count_b_to_a ≡ c
        → relay_b_to_a s (some (b ∷ p)) true
          ≡ ok (record s {
            drop_count_b_to_a = left_of s.drop_count_b_to_a (some (b ∷ p));
            to_a = s.to_a ++ drop s.drop_count_b_to_a ((b ∷ p) ∷ []);
          })
    go zero e =
        rw
          (
            e,
            relay_b_to_a,
            le→leb (length (b ∷ p)) buffer_size h,
            lt→ltb 0 (length (b ∷ p)) (omega arith),
          )
          refl
    go (suc c) e =
        rw
          (
            e,
            relay_b_to_a,
            le→leb (length (b ∷ p)) buffer_size h,
            lt→ltb 0 (length (b ∷ p)) (omega arith),
            lt→ltb 0 (suc c) (omega arith),
            drop-nil c,
            append-nil,
          )
          refl

-- Over rounds in which the queues behind both ports take what they are sent, and in which no packet
-- is longer than the buffer, the simulator, if it runs, relays what came in order, less the first
-- packets, as many in each direction as its drop count says.
pub thread_fn_lem :
    (s : Simulator) (rounds : List Arrivals)
    → s.is_done ≡ false
    → AllTaken rounds
    → (s' : Simulator) × (thread_fn s rounds ≡ ok s')
      × (s'.to_b ≡ s.to_b ++ drop s.drop_count_a_to_b (arrived_at_a rounds))
      × (s'.to_a ≡ s.to_a ++ drop s.drop_count_b_to_a (arrived_at_b rounds))
unfolding thread_fn
thread_fn_lem s [] runs t = (
  s,
  refl,
  sym (ap (λ l. s.to_b ++ l) (drop-nil s.drop_count_a_to_b) ∙ append-nil s.to_b),
  sym (ap (λ l. s.to_a ++ l) (drop-nil s.drop_count_b_to_a) ∙ append-nil s.to_a),
)
thread_fn_lem s (r ∷ rounds) runs (tb, ta, ha, hb, t) =
    let a : Simulator = record s {
      drop_count_a_to_b = left_of s.drop_count_a_to_b r.from_a;
      to_b = s.to_b ++ drop s.drop_count_a_to_b (come r.from_a);
    } in
    let b : Simulator = record a {
      drop_count_b_to_a = left_of s.drop_count_b_to_a r.from_b;
      to_a = s.to_a ++ drop s.drop_count_b_to_a (come r.from_b);
    } in
    let (s', run, rest_b, rest_a) = thread_fn_lem b rounds runs t in
    let next : Simulator → Outcome Simulator =
      λ x. relay_b_to_a x r.from_b r.a_takes >>= λ y. thread_fn y rounds in
    let goes_on : thread_fn s (r ∷ rounds) ≡ (relay_a_to_b s r.from_a r.b_takes >>= next) =
      ap (λ d. elim d [ true ↦ ok s | false ↦ relay_a_to_b s r.from_a r.b_takes >>= next ]) runs in
    (
      s',
      goes_on
          ∙ ap (λ x. relay_a_to_b s r.from_a x >>= next) tb
          ∙ ap (λ o. o >>= next) (relay_a s r.from_a ha)
          ∙ ap (λ x. relay_b_to_a a r.from_b x >>= λ y. thread_fn y rounds) ta
          ∙ ap (λ o. o >>= λ y. thread_fn y rounds) (relay_b a r.from_b hb)
          ∙ run,
      rest_b
          ∙ append_assoc s.to_b (drop s.drop_count_a_to_b (come r.from_a)) _
          ∙ ap (λ l. s.to_b ++ l) (drop-come s.drop_count_a_to_b r.from_a (arrived_at_a rounds)),
      rest_a
          ∙ append_assoc s.to_a (drop s.drop_count_b_to_a (come r.from_b)) _
          ∙ ap (λ l. s.to_a ++ l) (drop-come s.drop_count_b_to_a r.from_b (arrived_at_b rounds)),
    )
