-- ===== src/Fifo.antt =====
-- The abstract view of a queue of util/circular_queue.h: a list, oldest first, of bounded length.
use omnixtend_c.Base.{
  ℕ, Bool, true, false, Option, none, some, List, [], ◌∷◌, ◌++◌, length, ◌==◌, if◌then◌else◌,
}

module _ {ℓ} {A : Type ℓ} where
  abbrev pub push : ℕ → List A → A → Bool × List A
  push cap xs a = if length xs == cap then (false, xs) else (true, xs ++ a ∷ [])

  abbrev pub pop : List A → Option A × List A
  pop [] = (none, [])
  pop (x ∷ xs) = (some x, xs)
