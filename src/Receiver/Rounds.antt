-- ===== src/Receiver/Rounds.antt =====
-- tloe_receiver.c: the loop over a mask, for a frame with any number of messages.
use native.Mathlib.Nat.{pow-suc, div-div-eq-div-mul}
use omnixtend_c.Base.{
  ℕ, zero, suc, ◌+◌, ◌/◌, ◌%◌, ◌^◌, ◌<◌, ◌≡◌, refl, sym, ap, ◌∙◌, arith, true, false, List, [], ◌∷◌,
  ◌++◌, append-nil, append_assoc, map, length, length-append, ◌==◌, inl, inr, Bool-cases, ==→eq, ok,
}
use omnixtend_c.TlMsg.{TlMsg}
use omnixtend_c.Frame.{Frame, tloe_get_tlmsg}
use omnixtend_c.CircularQueue.{CircularQueue, enqueue}
use omnixtend_c.CircularQueue.Contents.{IsValid, contents}
use omnixtend_c.Receiver.{extract_from}
use omnixtend_c.Receiver.Extract.{extract_zero, enqueue_room}

-- The flits that a mask names, from flit `i` on: flit `j` if the binary digit `j` is 1.
abbrev pub named_from : ℕ → ℕ → ℕ → List ℕ
named_from zero mask i = []
named_from (suc n) mask i = elim (mask / 2 ^ i % 2 == 1) [
  | true ↦ i ∷ named_from n mask (i + 1)
  | false ↦ named_from n mask (i + 1)
]

abbrev pub named : ℕ → List ℕ
named mask = named_from 64 mask 0

-- At these flits of the frame stand these messages.
abbrev pub Carries : Frame → List ℕ → List TlMsg → Type 0
Carries f is ms = map (tloe_get_tlmsg f) is ≡ map ok ms

pub Carries-nil : (f : Frame) (ms : List TlMsg) → Carries f [] ms → ms ≡ []
Carries-nil f [] h = refl
Carries-nil f (m ∷ ms) h = cc

Carries-cons :
    (f : Frame) (i : ℕ) (is : List ℕ) (ms : List TlMsg)
    → Carries f (i ∷ is) ms
    → (m : TlMsg) × (rest : List TlMsg) × (ms ≡ m ∷ rest)
      × (tloe_get_tlmsg f i ≡ ok m)
      × Carries f is rest
Carries-cons f i is [] h = cc
Carries-cons f i is (m ∷ ms) h = (m, ms, refl, cc, cc)

next_digit : (mask i : ℕ) → mask / 2 ^ i / 2 ≡ mask / 2 ^ (i + 1)
next_digit mask i =
    div-div-eq-div-mul mask (2 ^ i) 2
    ∙ ap (λ p. mask / p) (sym (pow-suc 2 i))
    ∙ ap (λ j. mask / 2 ^ j) {x = suc i} {y = i + 1} (omega arith)

none_named : (n mask i : ℕ) → mask / 2 ^ i ≡ 0 → named_from n mask i ≡ []
none_named zero mask i h = refl
none_named (suc n) mask i h =
    let off : (mask / 2 ^ i % 2 == 1) ≡ false = ground arith in
    rw (off, named_from) (none_named n mask (i + 1) (omega (arith, next_digit mask i, h)))

-- What the loop over the rest of a mask leaves.
abbrev Extracted : ℕ → ℕ → ℕ → Frame → CircularQueue TlMsg → List TlMsg → Type 0
Extracted fuel mask i f q ms =
    (q' : CircularQueue TlMsg) × (extract_from fuel (mask / 2 ^ i) i f q ≡ ok q')
    × (contents q' ≡ contents q ++ ms)
    × IsValid q'
    × (q'.size ≡ q.size)

module _ (f : Frame) (mask k : ℕ) where
  extract_rest :
      (n i : ℕ) (q : CircularQueue TlMsg) (ms : List TlMsg)
      → mask / 2 ^ i < 2 ^ n
      → IsValid q
      → length (contents q) + length ms < q.size
      → Carries f (named_from n mask i) ms
      → Extracted (n + k) mask i f q ms
  unfolding extract_from
  extract_rest zero i q ms h v room c =
      let none_left : mask / 2 ^ i ≡ 0 = omega arith in
      let fuel : 0 + k ≡ k = omega arith in
      (
        q,
        ap (λ t. extract_from (0 + k) t i f q) none_left ∙ extract_zero (0 + k) i f q,
        rw (Carries-nil f ms c) (sym (append-nil (contents q))),
        v,
        refl,
      )
  extract_rest (suc n) i q ms h v room c =
      let half : mask / 2 ^ (i + 1) < 2 ^ n = omega (arith, pow-suc 2 n, next_digit mask i) in
      let fuel : suc n + k ≡ suc (n + k) = omega arith in
      elim (Bool-cases (mask / 2 ^ i == 0)) [
        | inl empty ↦
            let none_left = ==→eq _ _ empty in
            (
              q,
              ap (λ t. extract_from (suc n + k) t i f q) none_left ∙ extract_zero (suc n + k) i f q,
              rw (Carries-nil f ms (rw (none_named (suc n) mask i none_left) at c))
                  (sym (append-nil (contents q))),
              v,
              refl,
            )
        | inr bits ↦ elim (Bool-cases (mask / 2 ^ i % 2 == 1)) [
          | inr off ↦
              let (q', run, all, w, s) =
                extract_rest n (i + 1) q ms half v room (rw (off, named_from) at c) in
              (q', rw (fuel, extract_from, bits, off, next_digit mask i) run, all, w, s)
          | inl one ↦
              let (m, rest, e, here, later) =
                Carries-cons f i (named_from n mask (i + 1)) ms (rw (one, named_from) at c) in
              let count : length ms ≡ suc (length rest) = ap length e in
              let (added, now, w, s) = enqueue_room q m v (omega (arith, room, count)) in
              let (q', run, all, w', s') =
                extract_rest n (i + 1) (enqueue q m).1 rest half w
                  (omega
                    (arith, room, count, s, ap length now, length-append (contents q) (m ∷ [])))
                  later in
              (
                q',
                rw (fuel, extract_from, bits, one, here, added, next_digit mask i) run,
                all
                    ∙ ap (λ l. l ++ rest) now
                    ∙ append_assoc (contents q) (m ∷ []) rest
                    ∙ ap (λ l. contents q ++ l) (sym e),
                w',
                s' ∙ s,
              )
        ]
      ]

-- The loop over the bits of a 64-bit mask, with 64 rounds or any number more, returns, if the queue
-- is valid, a message can be read at every flit that the mask names, and the queue has room for
-- them all: it puts these messages at the end of the queue, in the order of their flits and each
-- once, and the queue stays valid and of the same size.
pub extract_from_lem :
    (f : Frame) (mask k : ℕ) (q : CircularQueue TlMsg) (ms : List TlMsg)
    → mask < 2 ^ 64
    → IsValid q
    → length (contents q) + length ms < q.size
    → Carries f (named mask) ms
    → (q' : CircularQueue TlMsg) × (extract_from (64 + k) mask 0 f q ≡ ok q')
      × (contents q' ≡ contents q ++ ms)
      × IsValid q'
      × (q'.size ≡ q.size)
extract_from_lem f mask k q ms h v room c =
    let whole : mask / 2 ^ 0 ≡ mask = omega arith in
    let (q', run, all, w, s) = extract_rest f mask k 64 0 q ms (omega (arith, whole)) v room c in
    (q', ap (λ t. extract_from (64 + k) t 0 f q) (sym whole) ∙ run, all, w, s)
