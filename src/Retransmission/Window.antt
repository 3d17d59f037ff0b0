-- ===== src/Retransmission/Window.antt =====
-- What `slide_window` takes off the buffer.
use native.Mathlib.Nat.{add-zero}
use omnixtend_c.Base.{
  ℕ, zero, suc, ◌+◌, ◌-◌, ◌%◌, ◌^◌, ◌≤◌, ◌<◌, ◌≡◌, refl, sym, ap, ap₂, ◌∙◌, arith, Bool, true,
  false, none, some, List, [], ◌∷◌, length, drop, if◌then◌else◌, Bool-cases, inl, inr, pos, negsuc,
  is_positive, ◌==◌,
}
use omnixtend_c.Fifo
use omnixtend_c.SeqNum.{half_max_seq_num, tloe_seqnum_cmp}
use omnixtend_c.SeqNum.Order.{cmp_of_counters}
use omnixtend_c.CircularQueue.{CircularQueue, getfront, dequeue}
use omnixtend_c.CircularQueue.Contents.{IsValid, contents, length-contents-lt}
use omnixtend_c.CircularQueue.Laws.{getfront_lem, dequeue_refines}
use omnixtend_c.Frame.{Frame}
use omnixtend_c.Endpoint.{Endpoint, RetransmitBufferElement}
use omnixtend_c.Retransmission.{slide_from, slide_window}

abbrev pub seq_of : RetransmitBufferElement → ℕ
seq_of r = r.tloe_frame.header.seq_num

-- The elements carry the sequence numbers from counter `i` on.
abbrev pub Consecutive : ℕ → List RetransmitBufferElement → Type 0
Consecutive i [] = Unit {0}
Consecutive i (r ∷ rs) = (seq_of r ≡ i % 2 ^ 22) × Consecutive (suc i) rs

-- the buffer without the elements at its head that `ack` does not come before
abbrev pub unacked : ℕ → List RetransmitBufferElement → List RetransmitBufferElement
unacked ack [] = []
unacked ack (r ∷ rs) =
    if is_positive (tloe_seqnum_cmp (seq_of r) ack) then r ∷ rs else unacked ack rs

pub slide_from_lem :
    (fuel : ℕ) (q : CircularQueue RetransmitBufferElement) (ack : ℕ)
    → IsValid q
    → length (contents q) < fuel
    → IsValid (slide_from fuel q ack)
      × (contents (slide_from fuel q ack) ≡ unacked ack (contents q))
      × ((slide_from fuel q ack).size ≡ q.size)
unfolding slide_from
slide_from_lem zero q ack v h = absurd (omega arith)
slide_from_lem (suc fuel) q ack v h =
    go (contents q) refl (slide_from_lem fuel (dequeue q).1 ack) (dequeue_refines q v)
  where
    Slides : CircularQueue RetransmitBufferElement → CircularQueue RetransmitBufferElement → Type 0
    Slides p p' = IsValid p' × (contents p' ≡ unacked ack (contents p)) × (p'.size ≡ p.size)

    go :
        (l : List RetransmitBufferElement)
        → contents q ≡ l
        → (IsValid (dequeue q).1
            → length (contents (dequeue q).1) < fuel
            → Slides (dequeue q).1 (slide_from fuel (dequeue q).1 ack))
        → (((dequeue q).0, contents (dequeue q).1) ≡ Fifo.pop (contents q))
          × IsValid (dequeue q).1
          × ((dequeue q).1.size ≡ q.size)
        → Slides q (slide_from (suc fuel) q ack)
    go [] e ih d =
        let f : getfront q ≡ none = getfront_lem q v ∙ ap (λ l. (Fifo.pop l).0) e in
        rw (f, slide_from) (v, e ∙ sym (ap (unacked ack) e), refl)
    go (r ∷ l) e ih (d, w, z) = elim (Bool-cases (is_positive (tloe_seqnum_cmp (seq_of r) ack))) [
      | inl ahead ↦ rw (f, slide_from, ahead) (v, e ∙ sym (ap (unacked ack) e ∙ (rw ahead)), refl)
      | inr passed ↦
          let (w', c, s) = ih w (omega (arith, ap length rest, ap length e)) in
          rw (f, slide_from, passed)
            (w', c ∙ ap (unacked ack) rest ∙ sym (ap (unacked ack) e ∙ (rw passed)), s ∙ z)
    ]
      where
        f : getfront q ≡ some r
        f = getfront_lem q v ∙ ap (λ l. (Fifo.pop l).0) e

        rest : contents (dequeue q).1 ≡ l
        rest = ap (λ p. p.1) d ∙ ap (λ l. (Fifo.pop l).1) e

acked_prefix :
    (i k ack : ℕ) (l : List RetransmitBufferElement)
    → Consecutive i l
    → k ≤ length l
    → length l < half_max_seq_num
    → ack ≡ (i + k + 2 ^ 22 - 1) % 2 ^ 22
    → unacked ack l ≡ drop k l
acked_prefix i zero ack [] c h s e = refl
acked_prefix i (suc k) ack [] c h s e = absurd (omega arith)
acked_prefix i zero ack (r ∷ l) (c, cs) h s e =
    let step = (cmp_of_counters (i + 2 ^ 22 - 1) 1 (omega arith)).0 in
    let a : seq_of r ≡ (i + 2 ^ 22 - 1 + 1) % 2 ^ 22 = omega (arith, c) in
    let b : ack ≡ (i + 2 ^ 22 - 1) % 2 ^ 22 = omega (arith, e) in rw (a, b, step)
acked_prefix i (suc k) ack (r ∷ l) (c, cs) h s e =
    rw passed (acked_prefix (suc i) k ack l cs (omega arith) (omega arith) (omega (arith, e)))
  where
    b : ack ≡ (i + k) % 2 ^ 22
    b = omega (arith, e)

    at_most : (t : Bool) → is_positive (if t then pos 0 else negsuc 0) ≡ false
    at_most true = refl
    at_most false = refl

    passed : is_positive (tloe_seqnum_cmp (seq_of r) ack) ≡ false
    passed =
        ap is_positive (ap₂ tloe_seqnum_cmp c b ∙ (cmp_of_counters i k (omega arith)).1)
        ∙ at_most (k == 0)

stale :
    (i j ack : ℕ) (l : List RetransmitBufferElement)
    → Consecutive i l
    → suc j < half_max_seq_num
    → ack ≡ (i + 2 ^ 22 - suc j) % 2 ^ 22
    → unacked ack l ≡ l
stale i j ack [] c h e = refl
stale i j ack (r ∷ l) (c, cs) h e =
    let step = (cmp_of_counters (i + 2 ^ 22 - suc j) (suc j) h).0 in
    let a : seq_of r ≡ (i + 2 ^ 22 - suc j + suc j) % 2 ^ 22 = omega (arith, c) in
    rw (ap is_positive (ap₂ tloe_seqnum_cmp a e ∙ step) ∙ positive)
  where
    positive : is_positive (if suc j == 0 then pos 0 else pos 1) ≡ true
    positive = ground arith

pub drop-Consecutive :
    (i k : ℕ) (l : List RetransmitBufferElement) → Consecutive i l → Consecutive (i + k) (drop k l)
drop-Consecutive i zero l c = rw add-zero c
drop-Consecutive i (suc k) [] c = tt
drop-Consecutive i (suc k) (r ∷ l) (c, cs) =
    let e : i + suc k ≡ suc i + k = omega arith in rw e (drop-Consecutive (suc i) k l cs)

module _ (e : Endpoint) (f : Frame) (i k : ℕ) (v : IsValid e.retransmit_buffer)
    (c : Consecutive i (contents e.retransmit_buffer))
    (h : length (contents e.retransmit_buffer) < half_max_seq_num) where
  slid :
      let q = (slide_window e f).retransmit_buffer in
      IsValid q
      × (contents q ≡ unacked f.header.seq_num_ack (contents e.retransmit_buffer))
      × (q.size ≡ e.retransmit_buffer.size)
  unfolding slide_window
  slid =
      slide_from_lem e.retransmit_buffer.size e.retransmit_buffer f.header.seq_num_ack v
        (length-contents-lt e.retransmit_buffer v)

  -- On a valid buffer of fewer than 2 ^ 21 frames that carry the sequence numbers from the counter
  -- i on, a frame whose seq_num_ack is the number of the k-th of them (for k = 0, the number before
  -- the first) takes exactly the first k off. What stays is valid and carries the numbers from i +
  -- k on.
  pub slide_window_acked :
      k ≤ length (contents e.retransmit_buffer)
      → f.header.seq_num_ack ≡ (i + k + 2 ^ 22 - 1) % 2 ^ 22
      → let q = (slide_window e f).retransmit_buffer in
        IsValid q
        × (contents q ≡ drop k (contents e.retransmit_buffer))
        × Consecutive (i + k) (contents q)
        × (q.size ≡ e.retransmit_buffer.size)
  slide_window_acked le ack =
      let (w, d, s) = slid in
      let rest = d ∙ acked_prefix i k _ (contents e.retransmit_buffer) c le h ack in
      (w, rest, rw rest (drop-Consecutive i k _ c), s)

  -- On a valid buffer of fewer than 2 ^ 21 frames that carry the sequence numbers from the counter
  -- i on, a frame whose seq_num_ack lies at most 2 ^ 21 - 1 behind i takes nothing off.
  pub slide_window_stale :
      suc k < half_max_seq_num
      → f.header.seq_num_ack ≡ (i + 2 ^ 22 - suc k) % 2 ^ 22
      → let q = (slide_window e f).retransmit_buffer in
        IsValid q
        × (contents q ≡ contents e.retransmit_buffer)
        × (q.size ≡ e.retransmit_buffer.size)
  slide_window_stale lt ack =
      let (w, d, s) = slid in (w, d ∙ stale i k _ (contents e.retransmit_buffer) c lt ack, s)
