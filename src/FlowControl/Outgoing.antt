-- ===== src/FlowControl/Outgoing.antt =====
-- The credits that an endpoint gives back to its peer: the channel and the amount of one frame.
use native.Mathlib.Nat.{pow-suc}
use omnixtend_c.Base.{
  ℕ, zero, suc, ◌+◌, ◌-◌, ◌%◌, ◌^◌, ◌≤◌, ◌<◌, ◌≡◌, refl, true, arith, leb, Bool-cases, ap, inl, inr,
  ◌⊎◌, ok,
}
use omnixtend_c.TlMsg.{channel_num}
use omnixtend_c.FlowControl.{
  Flowcontrol, update, sub32, clz_from, get_largest_pow, get_outgoing_credits, select_from,
  select_max_credit_channel,
}

leb→le : (a b : ℕ) → leb a b ≡ true → a ≤ b
leb→le a b h = ground arith

double : (n : ℕ) → 2 ^ suc n ≡ 2 ^ n + 2 ^ n
double n = omega (arith, pow-suc 2 n)

clz_bounds :
    (n v : ℕ)
    → 0 < v
    → v < 2 ^ n
    → (clz_from n v < n)
      × (2 ^ (n - 1 - clz_from n v) ≤ v)
      × (v < 2 ^ (n - 1 - clz_from n v) + 2 ^ (n - 1 - clz_from n v))
unfolding clz_from
clz_bounds zero v h k = absurd (omega arith)
clz_bounds (suc n) v h k = elim (Bool-cases (leb (2 ^ n) v)) [
  | inl top ↦
      let e : suc n - 1 - 0 ≡ n = omega arith in
      rw (top, e) (omega arith, leb→le _ _ top, omega (arith, double n))
  | inr low ↦
      let e : suc n - 1 - (1 + clz_from n v) ≡ n - 1 - clz_from n v = omega arith in
      let (a, b, c) = clz_bounds n v h (ground arith) in rw (low, e) (omega arith, b, c)
]

select_from_lem :
    (tx : ℕ → ℕ) (n i m c : ℕ)
    → c < i
    → tx c ≡ m
    → ((j : ℕ) → j < i → tx j ≤ m)
    → (select_from tx n i m c < i + n) × ((j : ℕ) → j < i + n → tx j ≤ tx (select_from tx n i m c))
unfolding select_from
select_from_lem tx zero i m c h e b = (omega arith, λ j k. rw e (b j (omega arith)))
select_from_lem tx (suc n) i m c h e b = elim (Bool-cases (leb (tx i) m)) [
  | inl old ↦
      let (p, q) =
        select_from_lem tx n (i + 1) m c (omega arith) e
          (λ j k. ground (arith, b j, ap tx {x = j} {y = i})) in
      rw old (omega arith, λ j k. q j (omega arith))
  | inr new ↦
      let (p, q) =
        select_from_lem tx n (i + 1) (tx i) i (omega arith) refl
          (λ j k. ground (arith, b j, ap tx {x = j} {y = i})) in
      rw new (omega arith, λ j k. q j (omega arith))
]

-- The channel that `select_max_credit_channel` chooses is inside the arrays, and no channel of the
-- arrays is owed more.
pub select_max_lem :
    (fc : Flowcontrol) (j : ℕ)
    → j < channel_num
    → (select_max_credit_channel fc < channel_num)
      × (fc.tx_flow_credits j ≤ fc.tx_flow_credits (select_max_credit_channel fc))
unfolding select_max_credit_channel
select_max_lem fc j h =
    let (p, q) =
      select_from_lem fc.tx_flow_credits 5 1 _ 0 (omega arith) refl
        (λ j k. omega (arith, ap fc.tx_flow_credits {x = j} {y = 0} (omega arith))) in
    (p, q j h)

pub largest_pow_lem :
    (v : ℕ)
    → 0 < v
    → v < 2 ^ 32
    → (r : ℕ) × (get_largest_pow v ≡ ok r) × (r < 32) × (2 ^ r ≤ v) × (v < 2 ^ r + 2 ^ r)
unfolding get_largest_pow
largest_pow_lem v h k =
    let (a, b, c) = clz_bounds 32 v h k in (31 - clz_from 32 v, ground arith, omega arith, b, c)

-- For a channel of the arrays to which between 1 and 2 ^ 32 - 1 credits are owed,
-- `get_outgoing_credits` returns an exponent below 32, so that it fits the header's five bits. Two
-- to its power is taken off what is owed on that channel, less than that stays owed, and what is
-- owed on other channels and the credits held stay.
pub outgoing_lem :
    (fc : Flowcontrol) (c : ℕ)
    → c < channel_num
    → 0 < fc.tx_flow_credits c
    → fc.tx_flow_credits c < 2 ^ 32
    → (r : ℕ) × (fc' : Flowcontrol) × (get_outgoing_credits fc c ≡ ok (r, fc'))
      × (r < 32)
      × (fc'.tx_flow_credits c + 2 ^ r ≡ fc.tx_flow_credits c)
      × (fc'.tx_flow_credits c < 2 ^ r)
      × (fc'.tx_flow_credits ≡ update fc.tx_flow_credits c (fc.tx_flow_credits c - 2 ^ r))
      × (fc'.credits ≡ fc.credits)
unfolding get_outgoing_credits
outgoing_lem fc c hc h k =
    let (r, e, lt, le, gt) = largest_pow_lem (fc.tx_flow_credits c) h k in
    let tx : ℕ → ℕ = update fc.tx_flow_credits c (sub32 (fc.tx_flow_credits c) (2 ^ r % 2 ^ 32)) in
    (
      r,
      record fc { tx_flow_credits = tx },
      ground (arith, e),
      lt,
      ground (arith, le, gt),
      ground (arith, le, gt),
      ap (update fc.tx_flow_credits c) (ground (arith, le, gt)),
      refl,
    )

select_from_owed :
    (tx : ℕ → ℕ) (n i m c : ℕ) → (select_from tx n i m c ≡ c) ⊎ (m < tx (select_from tx n i m c))
unfolding select_from
select_from_owed tx zero i m c = inl refl
select_from_owed tx (suc n) i m c = elim (Bool-cases (leb (tx i) m)) [
  | inl old ↦ rw old (select_from_owed tx n (i + 1) m c)
  | inr new ↦
      let more : m < tx i = ground arith in
      rw new (elim (select_from_owed tx n (i + 1) (tx i) i) [
        | inl here ↦ rw here (inr more)
        | inr later ↦ inr (omega (arith, later, more))
      ])
]

-- The channel chosen is 0, or it is owed credits.
pub select_max_owed :
    (fc : Flowcontrol)
    → (select_max_credit_channel fc ≡ 0) ⊎ (0 < fc.tx_flow_credits (select_max_credit_channel fc))
unfolding select_max_credit_channel
select_max_owed fc = elim (select_from_owed fc.tx_flow_credits 5 1 (fc.tx_flow_credits 0) 0) [
  | inl none_owed ↦ inl none_owed
  | inr owed ↦ inr (omega (arith, owed))
]
