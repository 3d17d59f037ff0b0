-- ===== src/Mq.antt =====
-- tloe_mq.h and tloe_mq.c: a pair of POSIX message queues. The system's calls are a record of
-- operations on a world `W` with descriptors `D`; a string is its bytes in front of the 0.
pub mod Names
use omnixtend_c.Base.{
  ℕ, ◌+◌, Bool, true, false, ◌&&◌, Option, none, some, List, [], ◌∷◌, ◌++◌, length, ltb, leb, ◌==◌,
  if◌then◌else◌, Outcome, ok, fail, exits, out_of_bounds, require, ◌>>=◌, ◌>>◌,
}

-- The calls of mqueue.h that the code makes. `mq_open` is told the name and whether O_CREAT is set,
-- and `mq_receive` the size of the buffer; `none` and `false` stand for -1.
pub record Mqueue (W D : Type 0) : Type 1 where
  pub mq_open : List ℕ → Bool → W → Option D × W
  pub mq_send : D → List ℕ → W → Bool × W
  pub mq_receive : D → ℕ → W → Option (List ℕ) × W
  pub mq_close : D → W → W
  -- the attributes, and how O_NONBLOCK is set in them
  pub Attr : Type 0
  pub nonblocking : Attr → Attr
  pub mq_getattr : D → W → Option Attr
  pub mq_setattr : D → Attr → W → Bool × W

pub record TloeMq (D : Type 0) : Type 0 where
  pub mq_tx : D
  pub mq_rx : D

abbrev pub tloe_mq_msg_size : ℕ
tloe_mq_msg_size = 1600

abbrev pub tloe_mq_max_queue_name_size : ℕ
tloe_mq_max_queue_name_size = 256

-- whether `strcmp` gives 0
abbrev pub str_eq : List ℕ → List ℕ → Bool
str_eq [] [] = true
str_eq [] (y ∷ ys) = false
str_eq (x ∷ xs) [] = false
str_eq (x ∷ xs) (y ∷ ys) = (x == y) && str_eq xs ys

-- `-a`, `-b`, `-master` and `-slave`
abbrev pub suffix_a : List ℕ
suffix_a = 45 ∷ 97 ∷ []

abbrev pub suffix_b : List ℕ
suffix_b = 45 ∷ 98 ∷ []

abbrev pub role_master : List ℕ
role_master = 45 ∷ 109 ∷ 97 ∷ 115 ∷ 116 ∷ 101 ∷ 114 ∷ []

abbrev pub role_slave : List ℕ
role_slave = 45 ∷ 115 ∷ 108 ∷ 97 ∷ 118 ∷ 101 ∷ []

module _ {W D : Type 0} (os : Mqueue W D) where
  unfoldable pub tloe_mq_send : TloeMq D → List ℕ → W → Bool × W
  tloe_mq_send mq packet w = os.mq_send mq.mq_tx packet w

  -- The caller's buffer has `size` bytes, but `mq_receive` is told 1600: a longer packet is written
  -- over its end.
  unfoldable pub tloe_mq_recv : TloeMq D → ℕ → W → Outcome (Option (List ℕ) × W)
  tloe_mq_recv mq size w =
      let (packet, w') = os.mq_receive mq.mq_rx tloe_mq_msg_size w in
      elim packet [
        | none ↦ ok (none, w')
        | some bytes ↦ require (leb (length bytes) size) out_of_bounds >>= λ _. ok (some bytes, w')
      ]

  unfoldable pub create_message_queue : List ℕ → List ℕ → Bool → W → Outcome (D × W)
  create_message_queue queue_name suffix create w = do
    require (ltb (length queue_name + length suffix) tloe_mq_max_queue_name_size) out_of_bounds
    let opened = os.mq_open (queue_name ++ suffix) create w
    elim opened.0 [ none ↦ fail exits | some mq ↦ ok (mq, opened.1) ]

  unfoldable pub tloe_mq_open : List ℕ → List ℕ → Bool → W → Outcome (TloeMq D × W)
  unfolding create_message_queue
  tloe_mq_open queue_name master create w = do
    let is_master = str_eq master role_master
    tx ← create_message_queue queue_name (if is_master then suffix_a else suffix_b) create w
    rx ← create_message_queue queue_name (if is_master then suffix_b else suffix_a) create tx.1
    ok (record { mq_tx = tx.0; mq_rx = rx.0 }, rx.1)

  -- A pointer that may be NULL.
  unfoldable pub tloe_mq_close : Option (TloeMq D) → W → W
  tloe_mq_close none w = w
  tloe_mq_close (some mq) w = os.mq_close mq.mq_rx (os.mq_close mq.mq_tx w)
