-- ===== src/Tests/Queues.antt =====
-- A queue that goes round the end of its array.
use omnixtend_c.Base.{ℕ, ◌+◌, ◌≡◌, refl, arith, none, some, [], ◌∷◌, Outcome, ok}
use omnixtend_c.Fifo
use omnixtend_c.CircularQueue.{CircularQueue, enqueue, dequeue, traverse}
use omnixtend_c.CircularQueue.Contents.{IsValid, contents}
use omnixtend_c.CircularQueue.Laws.{enqueue_refines, dequeue_refines}
use omnixtend_c.CircularQueue.Traverse.{map_accum, Traverses, traverse_lem}

abbrev wrapped : CircularQueue ℕ
wrapped = record { front = 2; rear = 1; size = 4; slots = some 9 ∷ none ∷ some 7 ∷ some 8 ∷ [] }

wrapped-IsValid : IsValid wrapped
wrapped-IsValid = record {
  front_in = omega arith;
  rear_in = omega arith;
  storage = refl;
  filled = refl;
}

contents-wrapped : contents wrapped ≡ 7 ∷ 8 ∷ 9 ∷ []
contents-wrapped = refl

enqueue_refines_example :
    let (b, q) = enqueue wrapped 5 in
    ((b, contents q) ≡ Fifo.push 3 (contents wrapped) 5) × IsValid q × (q.size ≡ 4)
enqueue_refines_example = enqueue_refines wrapped 5 wrapped-IsValid

dequeue_refines_example :
    let (o, q) = dequeue wrapped in
    ((o, contents q) ≡ Fifo.pop (contents wrapped)) × IsValid q × (q.size ≡ 4)
dequeue_refines_example = dequeue_refines wrapped wrapped-IsValid

abbrev sum_up : ℕ → ℕ → Outcome (ℕ × ℕ)
sum_up a s = ok (a + 1, s + a)

traverse_lem_example :
    Traverses sum_up wrapped (map_accum sum_up (contents wrapped) 0) (traverse sum_up wrapped 0)
traverse_lem_example = traverse_lem sum_up wrapped 0 wrapped-IsValid
