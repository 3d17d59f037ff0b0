-- ===== src/Link/Tagged.antt =====
-- Packets under way, in order, each with a number: what holds of each, and of any two.
use omnixtend_c.Base.{ℕ, zero, suc, List, [], ◌∷◌, ◌++◌, All}

-- the numbers of the packets: `P` holds of each, `R` of any two in their order
pub data Tagged (P : ℕ → List ℕ → Type 0) (R : ℕ → ℕ → Type 0)
    : List (List ℕ) → List ℕ → Type 0 where
  idle : Tagged P R [] []
  under_way :
      {c : ℕ} {p : List ℕ} {ps : List (List ℕ)} {cs : List ℕ}
      → P c p
      → All (R c) cs
      → Tagged P R ps cs
      → Tagged P R (p ∷ ps) (c ∷ cs)

pub All-append {ℓ} :
    {A : Type ℓ} (P : A → Type 0) (xs ys : List A) → All P xs → All P ys → All P (xs ++ ys)
All-append P [] ys hx hy = hy
All-append P (x ∷ xs) ys (h, hx) hy = (h, All-append P xs ys hx hy)

-- the list without its element at an index
abbrev pub remove {ℓ} : {A : Type ℓ} → ℕ → List A → List A
remove n [] = []
remove zero (x ∷ xs) = xs
remove (suc n) (x ∷ xs) = x ∷ remove n xs

All-remove {ℓ} :
    {A : Type ℓ} (P : A → Type 0) (n : ℕ) (xs : List A) → All P xs → All P (remove n xs)
All-remove P zero [] h = tt
All-remove P (suc n) [] h = tt
All-remove P zero (x ∷ xs) (p, h) = h
All-remove P (suc n) (x ∷ xs) (p, h) = (p, All-remove P n xs h)

module _ (P : ℕ → List ℕ → Type 0) (R : ℕ → ℕ → Type 0) where
  -- New packets behind the others.
  pub append-Tagged :
      {ps qs : List (List ℕ)} {cs ds : List ℕ}
      → ((c : ℕ) (p : List ℕ) → P c p → All (R c) ds)
      → Tagged P R ps cs
      → Tagged P R qs ds
      → Tagged P R (ps ++ qs) (cs ++ ds)
  append-Tagged h idle u = u
  append-Tagged {ds} h (under_way {c} {p} {cs} here later t) u =
      under_way here (All-append (R c) cs ds later (h c p here)) (append-Tagged h t u)

  -- A packet is lost.
  pub remove-Tagged :
      {ps : List (List ℕ)} {cs : List ℕ} (n : ℕ)
      → Tagged P R ps cs
      → Tagged P R (remove n ps) (remove n cs)
  remove-Tagged zero idle = idle
  remove-Tagged (suc n) idle = idle
  remove-Tagged zero (under_way here later t) = t
  remove-Tagged (suc n) (under_way {c} {cs} here later t) =
      under_way here (All-remove (R c) n cs later) (remove-Tagged n t)

module _ (P Q : ℕ → List ℕ → Type 0) (R : ℕ → ℕ → Type 0) where
  -- Another statement about each packet.
  pub map-Tagged :
      {ps : List (List ℕ)} {cs : List ℕ}
      → ((c : ℕ) (p : List ℕ) → P c p → Q c p)
      → Tagged P R ps cs
      → Tagged Q R ps cs
  map-Tagged h idle = idle
  map-Tagged h (under_way {c} {p} here later t) = under_way (h c p here) later (map-Tagged h t)

  -- The same behind a packet with the number `b`, which has left.
  pub behind-Tagged :
      (b : ℕ) {ps : List (List ℕ)} {cs : List ℕ}
      → ((c : ℕ) (p : List ℕ) → R b c → P c p → Q c p)
      → Tagged P R ps cs
      → All (R b) cs
      → Tagged Q R ps cs
  behind-Tagged b h idle a = idle
  behind-Tagged b h (under_way {c} {p} here later t) (r, a) =
      under_way (h c p r here) later (behind-Tagged b h t a)
