-- ===== src/CircularQueue/Traverse.antt =====
-- The loop over a queue that retransmission.c and the other users of the struct write out.
use native.Mathlib.Nat.{mod-lt}
use omnixtend_c.Base.{
  ℕ, zero, suc, ◌+◌, ◌%◌, ◌<◌, ◌≡◌, ◌≢◌, refl, sym, ap, ◌∙◌, arith, Option, none, some, List, [],
  ◌∷◌, length, get_or, length-set, get_or-set_self, get_or-set_ne, Outcome, ok, fail, ◌>>=◌, eq→==,
  ne→==,
}
use omnixtend_c.CircularQueue.{CircularQueue, write_slot, for_each, traverse}
use omnixtend_c.CircularQueue.Contents.{
  window, count, contents, IsValid, window_head, window-set_outside, add-mod-ne, mod_shift',
  mod_start,
}
use omnixtend_c.CircularQueue.Laws.{rear_end, count-lt}

module _ {ℓ κ} {A : Type ℓ} {S : Type κ} (body : A → S → Outcome (A × S)) where
  -- The body run over a list, from its head.
  unfoldable pub map_accum : List A → S → Outcome (List A × S)
  map_accum [] s = ok ([], s)
  map_accum (a ∷ l) s = body a s >>= λ r. map_accum l r.1 >>= λ t. ok (r.0 ∷ t.0, t.1)

  -- The loop's outcome `r` from slot `i` on, `n` slots before the end, against the list's outcome.
  abbrev Walks :
      CircularQueue A → ℕ → ℕ → Outcome (List A × S) → Outcome (CircularQueue A × S) → Type (ℓ ⊔ κ)
  Walks q i n (fail e) r = r ≡ fail e
  Walks q i n (ok t) r =
      (new : List (Option A)) × (r ≡ ok (record q { slots = new }, t.1))
      × (length new ≡ length q.slots)
      × (window new q.size i n ≡ t.0)
      × (length t.0 ≡ n)
      × ((j : ℕ)
          → ((m : ℕ) → m < n → j ≢ (i + m) % q.size)
          → get_or new j none ≡ get_or q.slots j none)

  -- The first slot in front of what holds of the others.
  cons-Walks :
      (q : CircularQueue A) (i n : ℕ) (a : A) (o : Outcome (List A × S))
      (r : Outcome (CircularQueue A × S))
      → i < q.size
      → suc n < q.size
      → length q.slots ≡ q.size
      → Walks (write_slot q i a) ((i + 1) % q.size) n o r
      → Walks q i (suc n) (o >>= λ t. ok (a ∷ t.0, t.1)) r
  cons-Walks q i n a (fail e) r hi hn hs w = w
  cons-Walks q i n a (ok t) r hi hn hs (new, e, l, c, m, keep) = (
    new,
    e,
    l ∙ length-set q.slots i (some a),
    rw (keep i apart ∙ get_or-set_self q.slots i (some a) none (omega arith)) (ap (◌∷◌ a) c),
    ap suc m,
    λ j h.
        keep j (λ k hk f. h (suc k) (omega arith) (f ∙ mod_shift' q.size i k))
        ∙ get_or-set_ne q.slots (some a) none
            (λ f. h 0 (omega arith) (sym f ∙ sym (mod_start q.size i hi))),
  )
    where
      apart : (k : ℕ) → k < n → i ≢ ((i + 1) % q.size + k) % q.size
      apart k hk f = add-mod-ne q.size i k hi (omega arith) (sym (f ∙ mod_shift' q.size i k))

  for_each-Walks :
      (n fuel i : ℕ) (q : CircularQueue A) (s : S)
      → n < fuel
      → i < q.size
      → n < q.size
      → length q.slots ≡ q.size
      → length (window q.slots q.size i n) ≡ n
      → q.rear ≡ (i + n) % q.size
      → Walks q i n (map_accum (window q.slots q.size i n) s) (for_each body fuel i q s)
  unfolding for_each map_accum
  for_each-Walks zero zero i q s hf hi hn hs hl hr = absurd (omega arith)
  for_each-Walks zero (suc fuel) i q s hf hi hn hs hl hr =
      let e : i ≡ q.rear = sym (hr ∙ mod_start q.size i hi) in
      rw (eq→== i q.rear e, for_each) (q.slots, refl, refl, refl, refl, λ j h. refl)
  for_each-Walks (suc n) zero i q s hf hi hn hs hl hr = absurd (omega arith)
  for_each-Walks (suc n) (suc fuel) i q s hf hi hn hs hl hr =
      let (a, e, c, l) = window_head q.slots q.size i n hl in
      let d = ne→== i q.rear (λ f. add-mod-ne q.size i n hi hn (sym (f ∙ hr))) in
      rw (d, c, for_each, e)
        (go a
          (λ r.
            let same = window-set_outside q.slots q.size (some r.0) n i 0 hi (omega arith) in
            rw same at (
              for_each-Walks n fuel ((i + 1) % q.size) (write_slot q i r.0) r.1 (omega arith)
                (mod-lt (i + 1) (omega arith)) (omega arith) (length-set q.slots i (some r.0) ∙ hs)
                (rw same l) (hr ∙ sym (mod_shift' q.size i n))))
          (body a s))
    where
      i' : ℕ
      i' = (i + 1) % q.size

      go :
          (a : A)
          → ((r : A × S)
              → Walks
                  (write_slot q i r.0)
                  i'
                  n
                  (map_accum (window q.slots q.size i' n) r.1)
                  (for_each body fuel i' (write_slot q i r.0) r.1))
          → (o : Outcome (A × S))
          → Walks q i
              (suc n)
              (o >>= λ r. map_accum (window q.slots q.size i' n) r.1 >>= λ t. ok (r.0 ∷ t.0, t.1))
              (o >>= λ r. for_each body fuel i' (write_slot q i r.0) r.1)
      go a rest (fail e) = refl
      go a rest (ok r) = cons-Walks q i n r.0 _ _ hi hn hs (rest r)

  -- What a loop over the queue `q` comes to, if the body run over its contents comes to `o`.
  abbrev pub Traverses :
      CircularQueue A → Outcome (List A × S) → Outcome (CircularQueue A × S) → Type (ℓ ⊔ κ)
  Traverses q (fail e) r = r ≡ fail e
  Traverses q (ok t) r =
      (q' : CircularQueue A) × (r ≡ ok (q', t.1))
      × IsValid q'
      × (contents q' ≡ t.0)
      × (q'.size ≡ q.size)
      × (q'.front ≡ q.front)
      × (q'.rear ≡ q.rear)

  -- On a valid queue, the loop from `front` to `rear` with a body that may change the element,
  -- carry a state and fail comes to what the body run over the list of the contents comes to: it
  -- fails as that does, or it ends in a valid queue of the same front, rear and size that holds the
  -- list's result.
  pub traverse_lem :
      (q : CircularQueue A) (s : S)
      → IsValid q
      → Traverses q (map_accum (contents q) s) (traverse body q s)
  unfolding traverse
  traverse_lem q s v = go (map_accum (contents q) s) (for_each body (suc q.size) q.front q s) (
      for_each-Walks (count q) (suc q.size) q.front q s (omega (arith, count-lt q v)) v.front_in
        (count-lt q v) v.storage v.filled (rear_end q v))
    where
      go :
          (o : Outcome (List A × S)) (r : Outcome (CircularQueue A × S))
          → Walks q q.front (count q) o r
          → Traverses q o r
      go (fail e) r w = w
      go (ok t) r (new, e, l, c, m, keep) = (
        record q { slots = new },
        e,
        record {
          front_in = v.front_in;
          rear_in = v.rear_in;
          storage = l ∙ v.storage;
          filled = rw c m;
        },
        c,
        refl,
        refl,
        refl,
      )
