-- ===== src/CircularQueue/Laws.antt =====
-- The operations of util/circular_queue.c against a first-in first-out list of bounded length.
use native.Mathlib.Nat.{mod-eq_of_lt, mod_self, mod-lt, add-mod_right}
use omnixtend_c.Base.{
  ℕ, zero, suc, ◌+◌, ◌-◌, ◌%◌, ◌<◌, ◌≡◌, ◌≢◌, refl, ap, ◌∙◌, arith, true, false, Option, none, some,
  List, [], ◌∷◌, ◌++◌, length, get_or, set, length-set, length-append, length-replicate,
  if◌then◌else◌, ◌==◌, Bool-cases, inl, inr, ==→ne, eq→==, ne→==,
}
use omnixtend_c.Fifo
use omnixtend_c.CircularQueue.{
  CircularQueue, create_queue, is_queue_empty, is_queue_full, enqueue, dequeue, getfront,
}
use omnixtend_c.CircularQueue.Contents.{count, contents, IsValid, window_head, window-set_end}

next_slot : (i size : ℕ) → i < size → (i + 1) % size ≡ (if i + 1 == size then 0 else i + 1)
next_slot i size h = ground (arith, mod-eq_of_lt {n = i + 1} {m = size}, mod_self size)

module _ {ℓ} {A : Type ℓ} where
  pub create_queue_lem :
      (n : ℕ) → 0 < n → IsValid (create_queue {A = A} n) × (contents (create_queue {A = A} n) ≡ [])
  unfolding create_queue
  create_queue_lem n h =
      (record { front_in = h; rear_in = h; storage = length-replicate n none; filled = refl }, refl)

  pub is_queue_full_lem :
      (q : CircularQueue A) → IsValid q → is_queue_full q ≡ (length (contents q) == (q.size - 1))
  unfolding is_queue_full
  is_queue_full_lem q v =
      rw v.filled (ground (arith, next_slot q.rear q.size v.rear_in, v.front_in))

  pub is_queue_empty_lem :
      (q : CircularQueue A) → IsValid q → is_queue_empty q ≡ (length (contents q) == 0)
  unfolding is_queue_empty
  is_queue_empty_lem q v = rw v.filled (ground (arith, v.front_in, v.rear_in))

  pub rear_end : (q : CircularQueue A) → IsValid q → q.rear ≡ (q.front + count q) % q.size
  rear_end q v = ground (
    arith,
    v.front_in,
    v.rear_in,
    mod-eq_of_lt {n = q.rear} {m = q.size},
    add-mod_right q.rear q.size,
  )

  count-enqueue :
      (q : CircularQueue A) (s : List (Option A))
      → IsValid q
      → count q ≢ q.size - 1
      → count (record q { slots = s; rear = (q.rear + 1) % q.size }) ≡ suc (count q)
  count-enqueue q s v h = ground (arith, v.front_in, v.rear_in, next_slot q.rear q.size v.rear_in)

  count-dequeue :
      (q : CircularQueue A) (n : ℕ)
      → IsValid q
      → count q ≡ suc n
      → count (record q { front = (q.front + 1) % q.size }) ≡ n
  count-dequeue q n v h = ground (arith, v.front_in, v.rear_in, next_slot q.front q.size v.front_in)

  pub count-lt : (q : CircularQueue A) → IsValid q → count q < q.size
  count-lt q v = ground (arith, v.front_in, v.rear_in)

  -- What `enqueue` makes of a queue that is not full.
  abbrev put_rear : CircularQueue A → A → CircularQueue A
  put_rear q a = record q { slots = set q.slots q.rear (some a); rear = (q.rear + 1) % q.size }

  contents-put_rear :
      (q : CircularQueue A) (a : A)
      → IsValid q
      → count q ≢ q.size - 1
      → contents (put_rear q a) ≡ contents q ++ a ∷ []
  contents-put_rear q a v h = rw (count-enqueue q (set q.slots q.rear (some a)) v h) (
      window-set_end q.slots q.size a (count q) q.front q.rear v.storage v.front_in (count-lt q v)
        (rear_end q v))

  put_rear-IsValid :
      (q : CircularQueue A) (a : A) → IsValid q → count q ≢ q.size - 1 → IsValid (put_rear q a)
  put_rear-IsValid q a v h = record {
    front_in = v.front_in;
    rear_in = mod-lt (q.rear + 1) (omega (arith, v.front_in));
    storage = length-set q.slots q.rear (some a) ∙ v.storage;
    filled = omega (
      arith,
      ap length (contents-put_rear q a v h),
      length-append (contents q) (a ∷ []),
      count-enqueue q (set q.slots q.rear (some a)) v h,
      v.filled,
    );
  }

  -- On a valid queue, `enqueue` acts as a push to the end of a list of at most size - 1 elements:
  -- it returns whether there was room, adds the element if so, and leaves a valid queue of the same
  -- size.
  pub enqueue_refines :
      (q : CircularQueue A) (a : A)
      → IsValid q
      → let (b, q') = enqueue q a in
        ((b, contents q') ≡ Fifo.push (q.size - 1) (contents q) a) × IsValid q' × (q'.size ≡ q.size)
  unfolding enqueue
  enqueue_refines q a v = elim (Bool-cases (length (contents q) == (q.size - 1))) [
    | inl full ↦ rw (is_queue_full_lem q v, full) (refl, v, refl)
    | inr space ↦
        let h : count q ≢ q.size - 1 = omega (arith, v.filled, ==→ne _ _ space) in
        rw (is_queue_full_lem q v, space)
          (ap (λ c. (true, c)) (contents-put_rear q a v h), put_rear-IsValid q a v h, refl)
  ]

  abbrev get_front : CircularQueue A → CircularQueue A
  get_front q = record q { front = (q.front + 1) % q.size }

  -- A queue that is not empty has a first element, and the rest is what `dequeue` leaves.
  pub split_front :
      (q : CircularQueue A) (n : ℕ)
      → IsValid q
      → count q ≡ suc n
      → (a : A) × (get_or q.slots q.front none ≡ some a)
        × (contents q ≡ a ∷ contents (get_front q))
        × IsValid (get_front q)
  split_front q n v h =
      let (a, e, c, l) = window_head q.slots q.size q.front n (rw h at (v.filled)) in
      let d = count-dequeue q n v h in
      (
        a,
        e,
        rw (h, d) c,
        record {
          front_in = mod-lt (q.front + 1) (omega (arith, v.front_in));
          rear_in = v.rear_in;
          storage = v.storage;
          filled = rw d l;
        },
      )

  -- On a valid queue, `dequeue` acts as a pop from the front of a list: it returns the oldest
  -- element, or none if there is no element, and leaves the rest in a valid queue of the same size.
  pub dequeue_refines :
      (q : CircularQueue A)
      → IsValid q
      → let (o, q') = dequeue q in
        ((o, contents q') ≡ Fifo.pop (contents q)) × IsValid q' × (q'.size ≡ q.size)
  unfolding dequeue
  dequeue_refines q v = go (count q) refl
    where
      go :
          (n : ℕ)
          → count q ≡ n
          → let (o, q') = dequeue q in
            ((o, contents q') ≡ Fifo.pop (contents q)) × IsValid q' × (q'.size ≡ q.size)
      go zero e =
          let f : is_queue_empty q ≡ true = is_queue_empty_lem q v ∙ eq→== _ _ (v.filled ∙ e) in
          rw (f, e) (refl, v, refl)
      go (suc n) e =
          let f : is_queue_empty q ≡ false =
            is_queue_empty_lem q v ∙ ne→== _ _ (omega (arith, v.filled)) in
          let (a, g, c, w) = split_front q n v e in rw (f, g, c) (refl, w, refl)

  getfront-dequeue : (q : CircularQueue A) → getfront q ≡ (dequeue q).0
  unfolding getfront dequeue
  getfront-dequeue q = ground arith

  -- `getfront` shows the element that `dequeue` would return, and changes nothing.
  pub getfront_lem : (q : CircularQueue A) → IsValid q → getfront q ≡ (Fifo.pop (contents q)).0
  getfront_lem q v = getfront-dequeue q ∙ ap (λ r. r.0) (dequeue_refines q v).0
