-- ===== src/Memory.antt =====
-- C's memory as bytes: little-endian words, and the copies that memcpy makes, which fail where they
-- would leave the block.
pub mod Laws
use omnixtend_c.Base.{
  ℕ, zero, suc, ◌+◌, ◌*◌, ◌/◌, ◌%◌, List, [], ◌∷◌, ◌++◌, leb, length, take, drop, Outcome, ok,
  out_of_bounds, require, ◌>>◌,
}

-- the `n` bytes of a word, lowest first
unfoldable pub le_bytes : ℕ → ℕ → List ℕ
le_bytes zero w = []
le_bytes (suc n) w = w % 256 ∷ le_bytes n (w / 256)

unfoldable pub le_value : List ℕ → ℕ
le_value [] = 0
le_value (b ∷ bs) = b + 256 * le_value bs

-- memcpy out of a block: `n` bytes from offset `off`
unfoldable pub read_bytes : List ℕ → ℕ → ℕ → Outcome (List ℕ)
read_bytes block off n =
    require (leb (off + n) (length block)) out_of_bounds >> ok (take n (drop off block))

-- memcpy into a block
unfoldable pub write_bytes : List ℕ → ℕ → List ℕ → Outcome (List ℕ)
write_bytes block off new =
    require (leb (off + length new) (length block)) out_of_bounds
    >> ok (take off block ++ (new ++ drop (off + length new) block))
