-- ===== src/CircularQueue/Delete.antt =====
-- What `delete_queue` frees.
use native.Mathlib.Nat.{mod-lt}
use omnixtend_c.Base.{
  ℕ, zero, suc, ◌+◌, ◌%◌, ◌<◌, ◌≡◌, refl, sym, ◌∙◌, arith, Option, none, some, List, ◌∷◌, get_or,
  ok, eq→==, ne→==,
}
use omnixtend_c.CircularQueue.{CircularQueue, free_from, delete_queue}
use omnixtend_c.CircularQueue.Contents.{
  window, push_some, count, contents, IsValid, add-mod-ne, mod_shift', mod_start,
}
use omnixtend_c.CircularQueue.Laws.{rear_end, count-lt}

module _ {ℓ} {A : Type ℓ} (q : CircularQueue A) where
  pushed :
      (o : Option A) (l : List A)
      → (elim o [ none ↦ ok l | some a ↦ ok (a ∷ l) ]) ≡ ok (push_some o l)
  pushed none l = refl
  pushed (some a) l = refl

  free_from_lem :
      (n fuel i : ℕ)
      → n < fuel
      → i < q.size
      → n < q.size
      → q.rear ≡ (i + n) % q.size
      → free_from fuel i q ≡ ok (window q.slots q.size i n)
  unfolding free_from
  free_from_lem n zero i h k l e = absurd (omega arith)
  free_from_lem zero (suc fuel) i h k l e =
      rw (eq→== i q.rear (sym (e ∙ mod_start q.size i k)), free_from) refl
  free_from_lem (suc n) (suc fuel) i h k l e =
      let goes_on = ne→== i q.rear (λ same. add-mod-ne q.size i n k l (sym (same ∙ e))) in
      let rest =
        free_from_lem n fuel ((i + 1) % q.size) (omega arith) (mod-lt (i + 1) (omega arith))
          (omega arith) (e ∙ sym (mod_shift' q.size i n)) in
      rw (goes_on, free_from, rest) (pushed (get_or q.slots i none) _)

  -- todo
  pub delete_queue_lem : IsValid q → delete_queue q ≡ ok (contents q)
  unfolding delete_queue
  delete_queue_lem v =
      free_from_lem (count q) (suc q.size) q.front (omega (arith, count-lt q v)) (v.front_in)
        (count-lt q v) (rear_end q v)
