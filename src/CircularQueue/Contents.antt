-- ===== src/CircularQueue/Contents.antt =====
-- What a queue holds, oldest first, and when its representation is sound.
use native.Mathlib.Nat.{mod-add-mod, mod-eq_of_lt, mod-eq-sub-mod, mod-lt, add-zero}
use omnixtend_c.Base.{
  ℕ, zero, suc, ◌+◌, ◌-◌, ◌%◌, ◌≤◌, ◌<◌, ◌≡◌, ◌≢◌, refl, sym, ap, ap₂, ◌∙◌, arith, Option, none,
  some, List, [], ◌∷◌, ◌++◌, length, get_or, set, ltb, if◌then◌else◌, get_or-set_self,
  get_or-set_ne,
}
use omnixtend_c.CircularQueue.{CircularQueue}

abbrev pub push_some {ℓ} : {A : Type ℓ} → Option A → List A → List A
push_some none xs = xs
push_some (some a) xs = a ∷ xs

-- Fewer than `size` steps round the array do not come back to the start.
pub add-mod-ne : (size h k : ℕ) → h < size → suc k < size → (h + suc k) % size ≢ h
add-mod-ne size h k hh hk = ground (
  arith,
  mod-eq_of_lt {n = h + suc k} {m = size},
  mod-eq-sub-mod {n = h + suc k} {m = size},
  mod-eq_of_lt {n = h + suc k - size} {m = size},
)

pub mod_start : (size h : ℕ) → h < size → (h + 0) % size ≡ h
mod_start size h hh = rw add-zero (mod-eq_of_lt hh)

pub mod_shift : (size h k : ℕ) → ((h + k) % size + 1) % size ≡ (h + suc k) % size
mod_shift size h k = rw mod-add-mod (ap (λ t. t % size) (omega arith))

pub mod_shift' : (size h k : ℕ) → ((h + 1) % size + k) % size ≡ (h + suc k) % size
mod_shift' size h k = rw mod-add-mod (ap (λ t. t % size) (omega arith))

module _ {ℓ} {A : Type ℓ} where
  -- the elements in the `n` slots from slot `h` on, going round at `size`
  abbrev pub window : List (Option A) → ℕ → ℕ → ℕ → List A
  window slots size h zero = []
  window slots size h (suc n) =
      push_some (get_or slots h none) (window slots size ((h + 1) % size) n)

  -- how many slots are in use
  abbrev pub count : CircularQueue A → ℕ
  count q = if ltb q.rear q.front then q.rear + q.size - q.front else q.rear - q.front

  abbrev pub contents : CircularQueue A → List A
  contents q = window q.slots q.size q.front (count q)

  -- The indices are in range, the array has `size` slots, and every slot in use has an element.
  pub record IsValid (q : CircularQueue A) : Type ℓ where
    pub front_in : q.front < q.size
    pub rear_in : q.rear < q.size
    pub storage : length q.slots ≡ q.size
    pub filled : length (contents q) ≡ count q

  pub length-window-le :
      (slots : List (Option A)) (size h n : ℕ) → length (window slots size h n) ≤ n
  length-window-le slots size h zero = omega arith
  length-window-le slots size h (suc n) =
      ground (arith, length-window-le slots size ((h + 1) % size) n)

  -- Where all the slots of a window are filled, the first one is.
  pub window_head :
      (slots : List (Option A)) (size h n : ℕ)
      → length (window slots size h (suc n)) ≡ suc n
      → (a : A) × (get_or slots h none ≡ some a)
        × (window slots size h (suc n) ≡ a ∷ window slots size ((h + 1) % size) n)
        × (length (window slots size ((h + 1) % size) n) ≡ n)
  window_head slots size h n e =
      go (get_or slots h none) refl (length-window-le slots size ((h + 1) % size) n) e
    where
      rest : List A
      rest = window slots size ((h + 1) % size) n

      go :
          (o : Option A)
          → get_or slots h none ≡ o
          → length rest ≤ n
          → length (push_some (get_or slots h none) rest) ≡ suc n
          → (a : A) × (get_or slots h none ≡ some a)
            × (push_some (get_or slots h none) rest ≡ a ∷ rest)
            × (length rest ≡ n)
      go none eq le f = let g : length rest ≡ suc n = rw eq at f in absurd (omega arith)
      go (some a) eq le f =
          (a, eq, rw eq, (let g : suc (length rest) ≡ suc n = rw eq at f in omega arith))

  push_some-append :
      (o : Option A) (xs : List A) (a : A) → push_some o (xs ++ a ∷ []) ≡ push_some o xs ++ a ∷ []
  push_some-append none xs a = refl
  push_some-append (some b) xs a = refl

  -- A write to a slot outside a window does not change the window.
  pub window-set_outside :
      (slots : List (Option A)) (size : ℕ) (v : Option A) (n h k : ℕ)
      → h < size
      → k + n < size
      → window (set slots h v) size ((h + suc k) % size) n
        ≡ window slots size ((h + suc k) % size) n
  window-set_outside slots size v zero h k hh hk = refl
  window-set_outside slots size v (suc n) h k hh hk = rw (mod_shift size h (suc k)) (
      ap₂ push_some (get_or-set_ne slots v none (λ e. add-mod-ne size h k hh (omega arith) (sym e)))
        (window-set_outside slots size v n h (suc k) hh (omega arith)))

  -- A write just past a window extends it.
  pub window-set_end :
      (slots : List (Option A)) (size : ℕ) (a : A) (n h i : ℕ)
      → length slots ≡ size
      → h < size
      → n < size
      → i ≡ (h + n) % size
      → window (set slots i (some a)) size h (suc n) ≡ window slots size h n ++ a ∷ []
  window-set_end slots size a zero h i hs hh hn e =
      rw (e, add-zero, mod-eq_of_lt hh, get_or-set_self slots h (some a) none (omega arith))
  window-set_end slots size a (suc n) h i hs hh hn e =
      rw
        (
          get_or-set_ne slots (some a) none (λ d. add-mod-ne size h n hh (omega arith) (sym e ∙ d)),
          window-set_end slots size a n ((h + 1) % size) i hs (mod-lt (h + 1) (omega arith))
              (omega arith) (e ∙ sym (mod_shift' size h n)),
        )
        (push_some-append (get_or slots h none) (window slots size ((h + 1) % size) n) a)

  pub length-contents-lt : (q : CircularQueue A) → IsValid q → length (contents q) < q.size
  length-contents-lt q v = ground arith
