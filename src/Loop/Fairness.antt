-- ===== src/Loop/Fairness.antt =====
-- That the responses do not keep the requests waiting: `select_buffer` of tloe_endpoint.c.
use omnixtend_c.Base.{
  ℕ, suc, ◌-◌, ◌≤◌, ◌≡◌, refl, sym, ap, ◌⊎◌, ◌∙◌, arith, Option, Option-cases, none, some, inl, inr,
  List, [], ◌∷◌, length, ltb, Bool-cases, ltb→lt, All,
}
use omnixtend_c.TlMsg.{TlMsg}
use omnixtend_c.Fifo
use omnixtend_c.CircularQueue.{dequeue}
use omnixtend_c.CircularQueue.Contents.{IsValid, contents}
use omnixtend_c.CircularQueue.Laws.{dequeue_refines}
use omnixtend_c.Endpoint.{Endpoint}
use omnixtend_c.Loop.{select_buffer}

-- A request `m` that waits at the front of its queue.
pub record IsWaiting (m : TlMsg) (e : Endpoint) : Type 0 where
  pub requests : IsValid e.message_buffer
  pub responses : IsValid e.response_buffer
  pub behind : List TlMsg
  pub front : contents e.message_buffer ≡ m ∷ behind

-- What a call does with the request: it returns it, and counts from 4 again, or it returns the
-- oldest response, leaves the requests alone and counts down. Nothing else of the endpoint changes.
pub record IsTaken (m : TlMsg) (e : Endpoint) (r : Option TlMsg × ℕ × Endpoint) : Type 0 where
  pub returned : r.0 ≡ some m
  pub counter : r.1 ≡ 4
  pub messages : contents r.2.message_buffer ≡ (Fifo.pop (contents e.message_buffer)).1
  pub responses : contents r.2.response_buffer ≡ contents e.response_buffer
  pub same :
      r.2 ≡ record e { message_buffer = r.2.message_buffer; response_buffer = r.2.response_buffer }

pub record IsPassed (counter : ℕ) (e : Endpoint) (r : Option TlMsg × ℕ × Endpoint) : Type 0 where
  pub response : TlMsg
  pub others : List TlMsg
  pub oldest : contents e.response_buffer ≡ response ∷ others
  pub returned : r.0 ≡ some response
  pub responses : contents r.2.response_buffer ≡ others
  pub same : r.2 ≡ record e { response_buffer = r.2.response_buffer }
  pub down : suc r.1 ≡ counter
  pub left : 1 ≤ r.1

pop-none : (l : List TlMsg) → (Fifo.pop l).0 ≡ none → (Fifo.pop l).1 ≡ l
pop-none [] h = refl
pop-none (a ∷ l) h = cc

pop-some : (l : List TlMsg) (a : TlMsg) → (Fifo.pop l).0 ≡ some a → l ≡ a ∷ (Fifo.pop l).1
pop-some [] a h = cc
pop-some (b ∷ l) a h = cc

select_cases :
    (counter : ℕ) (e : Endpoint) (m : TlMsg)
    → IsWaiting m e
    → IsTaken m e (select_buffer counter e) ⊎ IsPassed counter e (select_buffer counter e)
unfolding select_buffer
select_cases counter e m w =
    let (d, v, z) = dequeue_refines e.message_buffer w.requests in
    let (dr, vr, zr) = dequeue_refines e.response_buffer w.responses in
    let front = ap (λ l. (Fifo.pop l).0) (w.front) in
    let first : (dequeue e.message_buffer).0 ≡ some m = ap (λ p. p.0) d ∙ front in
    elim (Bool-cases (ltb 0 (counter - 1))) [
      | inl left ↦ elim (Option-cases (dequeue e.response_buffer).0) [
        | inl none_ ↦
            let none_left =
              pop-none (contents e.response_buffer) (ap (λ p. p.0) (sym dr) ∙ none_) in
            rw (left, none_)
              (inl (record {
                returned = first;
                counter = refl;
                messages = ap (λ p. p.1) d;
                responses = ap (λ p. p.1) dr ∙ none_left;
                same = refl;
              }))
        | inr (r, some_) ↦
            let some_left =
              pop-some (contents e.response_buffer) r (ap (λ p. p.0) (sym dr) ∙ some_) in
            let more = ltb→lt 0 (counter - 1) left in
            rw (left, some_)
              (inr (record {
                response = r;
                others = (Fifo.pop (contents e.response_buffer)).1;
                oldest = some_left;
                returned = refl;
                responses = ap (λ p. p.1) dr;
                same = refl;
                down = omega (arith, more);
                left = omega (arith, more);
              }))
      ]
      | inr over ↦ rw over (
          inl (record {
            returned = first;
            counter = refl;
            messages = ap (λ p. p.1) d;
            responses = refl;
            same = refl;
          }))
    ]

-- Calls one after the other on the endpoints that they meet: the request is returned by one of
-- them, and the calls in front return responses.
pub data Served (m : TlMsg) : ℕ → List Endpoint → Type 0 where
  taken :
      {counter : ℕ} {e : Endpoint} {es : List Endpoint}
      → IsTaken m e (select_buffer counter e)
      → Served m counter (e ∷ es)
  passed :
      {counter : ℕ} {e : Endpoint} {es : List Endpoint}
      → IsPassed counter e (select_buffer counter e)
      → Served m (select_buffer counter e).1 es
      → Served m counter (e ∷ es)

-- A request that waits at the front of its queue is returned by one of the next calls of
-- `select_buffer`, by the `n`-th at the latest, if the counter, 4 at first, is at least 1 and at
-- most `n`. However the queues change between the calls, as long as the request stays at the front
-- and the queues are valid, each call before returns the oldest response, takes just that one off,
-- and counts down; the call that returns the request takes just that off and sets the counter to 4.
-- Nothing else of the endpoint changes.
pub select_buffer_serves :
    (m : TlMsg) (counter n : ℕ) (es : List Endpoint)
    → 1 ≤ counter
    → counter ≤ n
    → length es ≡ n
    → All (IsWaiting m) es
    → Served m counter es
select_buffer_serves m counter n [] pos few all w = absurd (omega (arith, all))
select_buffer_serves m counter n (e ∷ es) pos few all (w, ws) = elim (select_cases counter e m w) [
  | inl t ↦ taken t
  | inr p ↦ passed p (
      select_buffer_serves m (select_buffer counter e).1 (n - 1) es p.left (omega (arith, p.down))
        (omega (arith, all)) ws)
]
