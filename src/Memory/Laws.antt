-- ===== src/Memory/Laws.antt =====
-- Copies within the bounds of a block, and words of bytes.
use omnixtend_c.Base.{
  ℕ, zero, suc, ◌+◌, ◌*◌, ◌/◌, ◌≤◌, ◌<◌, ◌≡◌, refl, ap, arith, true, List, [], ◌∷◌, ◌++◌, leb,
  length, take, drop, length-append, length-take, length-drop, ok,
}
use omnixtend_c.Memory.{le_bytes, le_value, read_bytes, write_bytes}

pub length-le_bytes : (n w : ℕ) → length (le_bytes n w) ≡ n
unfolding le_bytes
length-le_bytes zero w = refl
length-le_bytes (suc n) w = ap suc (length-le_bytes n (w / 256))

abbrev pub pow256 : ℕ → ℕ
pow256 zero = 1
pow256 (suc n) = 256 * pow256 n

pub le_value-le_bytes : (n w : ℕ) → w < pow256 n → le_value (le_bytes n w) ≡ w
unfolding le_bytes le_value
le_value-le_bytes zero w h = omega arith
le_value-le_bytes (suc n) w h = omega (arith, le_value-le_bytes n (w / 256) (omega arith))

pub le→leb : (a b : ℕ) → a ≤ b → leb a b ≡ true
le→leb a b h = ground arith

pub read_bytes_lem :
    (block : List ℕ) (off n : ℕ)
    → off + n ≤ length block
    → read_bytes block off n ≡ ok (take n (drop off block))
unfolding read_bytes
read_bytes_lem block off n h = rw (le→leb _ _ h)

pub write_bytes_lem :
    (block : List ℕ) (off : ℕ) (new : List ℕ)
    → off + length new ≤ length block
    → write_bytes block off new ≡ ok (take off block ++ (new ++ drop (off + length new) block))
unfolding write_bytes
write_bytes_lem block off new h = rw (le→leb _ _ h)

pub length-write :
    (block : List ℕ) (off : ℕ) (new : List ℕ)
    → off + length new ≤ length block
    → length (take off block ++ (new ++ drop (off + length new) block)) ≡ length block
length-write block off new h = omega (
  arith,
  length-append (take off block) (new ++ drop (off + length new) block),
  length-append new (drop (off + length new) block),
  length-take off block,
  length-drop (off + length new) block,
)

pub take-take-append :
    (n off : ℕ) (block rest : List ℕ)
    → n ≤ off
    → off ≤ length block
    → take n (take off block ++ rest) ≡ take n block
take-take-append zero off block rest h k = refl
take-take-append (suc n) zero block rest h k = absurd (omega arith)
take-take-append (suc n) (suc off) [] rest h k = absurd (omega arith)
take-take-append (suc n) (suc off) (b ∷ block) rest h k =
    ap (◌∷◌ b) (take-take-append n off block rest (omega arith) (omega arith))
