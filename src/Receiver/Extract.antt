-- ===== src/Receiver/Extract.antt =====
-- The messages that a receiver takes out of a frame.
use omnixtend_c.Base.{ℕ, zero, suc, ◌-◌, ◌≡◌, ◌≢◌, refl, ap, true, [], ◌∷◌, ◌++◌, length, ok, ne→==}
use omnixtend_c.TlMsg.{TlMsg}
use omnixtend_c.Frame.{Frame, tloe_get_tlmsg}
use omnixtend_c.CircularQueue.{CircularQueue, enqueue}
use omnixtend_c.CircularQueue.Contents.{IsValid, contents}
use omnixtend_c.CircularQueue.Laws.{enqueue_refines}
use omnixtend_c.Receiver.{extract_from}

pub extract_zero :
    (fuel i : ℕ) (f : Frame) (q : CircularQueue TlMsg) → extract_from fuel 0 i f q ≡ ok q
unfolding extract_from
extract_zero zero i f q = refl
extract_zero (suc fuel) i f q = refl

-- `enqueue` on a queue with room.
pub enqueue_room {ℓ} :
    {A : Type ℓ} (q : CircularQueue A) (a : A)
    → IsValid q
    → length (contents q) ≢ q.size - 1
    → ((enqueue q a).0 ≡ true)
      × (contents (enqueue q a).1 ≡ contents q ++ a ∷ [])
      × IsValid (enqueue q a).1
      × ((enqueue q a).1.size ≡ q.size)
enqueue_room q a v h =
    let (r, w, s) = enqueue_refines q a v in
    let r' = rw (ne→== _ _ h) at r in (ap (λ p. p.0) r', ap (λ p. p.1) r', w, s)

extract_bit :
    (fuel : ℕ) (f : Frame) (q : CircularQueue TlMsg) (m : TlMsg)
    → tloe_get_tlmsg f 0 ≡ ok m
    → (enqueue q m).0 ≡ true
    → extract_from (suc fuel) 1 0 f q ≡ ok (enqueue q m).1
unfolding extract_from
extract_bit fuel f q m e added = rw (e, added) (extract_zero fuel 1 f (enqueue q m).1)

-- If a message can be read at the front of a frame and the buffer is valid and has room, the loop
-- over the mask 1 ends with the message at the end of the buffer, once, and the buffer valid and of
-- the same size.
pub extract_one :
    (f : Frame) (q : CircularQueue TlMsg) (m : TlMsg)
    → IsValid q
    → length (contents q) ≢ q.size - 1
    → tloe_get_tlmsg f 0 ≡ ok m
    → (q' : CircularQueue TlMsg) × (extract_from 64 1 0 f q ≡ ok q')
      × (contents q' ≡ contents q ++ m ∷ [])
      × IsValid q'
      × (q'.size ≡ q.size)
extract_one f q m v h e =
    let (added, now, w, s) = enqueue_room q m v h in
    ((enqueue q m).1, extract_bit 63 f q m e added, now, w, s)
