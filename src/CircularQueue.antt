-- ===== src/CircularQueue.antt =====
-- util/circular_queue.h and util/circular_queue.c: a queue of pointers in an array that is used
-- round and round. A slot is `none` for a null pointer or memory that malloc left uninitialised.
-- The mutex and the condition variable of the struct are never used by the operations.
pub mod Delete
pub mod Contents
pub mod Laws
pub mod Traverse
use omnixtend_c.Base.{
  ℕ, zero, suc, ◌+◌, ◌%◌, Bool, true, false, Option, none, some, List, [], ◌∷◌, ◌==◌, if◌then◌else◌,
  get_or, set, replicate, Outcome, ok, fail, null_pointer, out_of_bounds, ◌>>=◌,
}

pub record CircularQueue {ℓ} (A : Type ℓ) : Type ℓ where
  pub front : ℕ
  pub rear : ℕ
  pub size : ℕ
  pub slots : List (Option A)

module _ {ℓ} {A : Type ℓ} where
  -- `create_queue` with the fields that its call of `init_queue` sets.
  unfoldable pub create_queue : ℕ → CircularQueue A
  create_queue size = record { front = 0; rear = 0; size = size; slots = replicate size none }

  unfoldable pub is_queue_empty : CircularQueue A → Bool
  is_queue_empty q = q.front == q.rear

  unfoldable pub is_queue_full : CircularQueue A → Bool
  is_queue_full q = (q.rear + 1) % q.size == q.front

  unfoldable pub enqueue : CircularQueue A → A → Bool × CircularQueue A
  unfolding is_queue_full
  enqueue q a =
      if is_queue_full q
      then (false, q)
      else (true, record q { slots = set q.slots q.rear (some a); rear = (q.rear + 1) % q.size })

  unfoldable pub dequeue : CircularQueue A → Option A × CircularQueue A
  unfolding is_queue_empty
  dequeue q =
      if is_queue_empty q
      then (none, q)
      else (get_or q.slots q.front none, record q { front = (q.front + 1) % q.size })

  unfoldable pub getfront : CircularQueue A → Option A
  unfolding is_queue_empty
  getfront q = if is_queue_empty q then none else get_or q.slots q.front none

  -- What `delete_queue` frees, from slot `i` on: each slot that is not empty. The fuel bounds the
  -- rounds.
  unfoldable pub free_from : ℕ → ℕ → CircularQueue A → Outcome (List A)
  free_from zero i q = fail out_of_bounds
  free_from (suc fuel) i q = elim (i == q.rear) [
    | true ↦ ok []
    | false ↦ free_from fuel ((i + 1) % q.size) q >>= λ rest. elim (get_or q.slots i none) [
      | none ↦ ok rest
      | some a ↦ ok (a ∷ rest)
    ]
  ]

  unfoldable pub delete_queue : CircularQueue A → Outcome (List A)
  unfolding free_from
  delete_queue q = free_from (suc q.size) q.front q

  -- A write to the element that a slot points at.
  abbrev pub write_slot : CircularQueue A → ℕ → A → CircularQueue A
  write_slot q i a = record q { slots = set q.slots i (some a) }

  -- for (i = front; i != rear; i = (i + 1) % size), with a body that may change the element and a
  -- state of its own. The fuel bounds the rounds; the loop would go on where it has run out.
  unfoldable pub for_each {κ} :
      {S : Type κ}
      → (A → S → Outcome (A × S))
      → ℕ
      → ℕ
      → CircularQueue A
      → S
      → Outcome (CircularQueue A × S)
  for_each body zero i q s = fail out_of_bounds
  for_each body (suc fuel) i q s = elim (i == q.rear) [
    | true ↦ ok (q, s)
    | false ↦ elim (get_or q.slots i none) [
      | none ↦ fail null_pointer
      | some a ↦ body a s >>= λ r. for_each body fuel ((i + 1) % q.size) (write_slot q i r.0) r.1
    ]
  ]

  -- The loop from the front, with one round for each slot and one for the final test.
  unfoldable pub traverse {κ} :
      {S : Type κ} → (A → S → Outcome (A × S)) → CircularQueue A → S → Outcome (CircularQueue A × S)
  traverse body q s = for_each body (suc q.size) q.front q s
