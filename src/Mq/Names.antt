-- ===== src/Mq/Names.antt =====
-- tloe_mq.c: which queues `tloe_mq_open` opens, on a system as mq_open(3) and mq_overview(7) describe
-- it.
use omnixtend_c.Base.{
  ℕ, suc, ◌+◌, ◌<◌, ◌≤◌, ◌≡◌, ap, refl, arith, Bool, true, false, ◌&&◌, not, some, List, [], ◌∷◌,
  ◌++◌, length, length-append, ◌==◌, leb, if◌then◌else◌, ok, lt→ltb,
}
use omnixtend_c.Mq.{
  Mqueue, TloeMq, create_message_queue, tloe_mq_open, str_eq, role_master, suffix_a, suffix_b,
}

abbrev pub no_slash : List ℕ → Bool
no_slash [] = true
no_slash (c ∷ cs) = not (c == 47) && no_slash cs

-- The name of a queue: a slash, then other characters, at least one, and at most 255 in all.
abbrev pub is_queue_name : List ℕ → Bool
is_queue_name [] = false
is_queue_name (c ∷ cs) = (c == 47) && (no_slash cs && (leb 1 (length cs) && leb (length cs) 254))

-- What can be told of the system's queues: the name that a descriptor is for, the queues that exist,
-- and that the limits leave room for so many more descriptors and queues.
pub record View (W D : Type 0) : Type 1 where
  pub queue_of : D → List ℕ
  pub Exists : List ℕ → W → Type 0
  pub Free : ℕ → W → Type 0

module _ {W D : Type 0} (os : Mqueue W D) (v : View W D) where
  -- With O_CREAT a queue name is enough, without it the queue has to be there.
  abbrev pub Openable : List ℕ → Bool → W → Type 0
  Openable name true w = is_queue_name name ≡ true
  Openable name false w = v.Exists name w

  pub record IsOpened (name : List ℕ) (create : Bool) (n : ℕ) (w : W) (d : D) (w' : W)
      : Type 0 where
    pub run : os.mq_open name create w ≡ (some d, w')
    pub names : v.queue_of d ≡ name
    pub there : v.Exists name w'
    pub others : (other : List ℕ) → v.Exists other w → v.Exists other w'
    pub free : v.Free n w'

  -- For a process that no queue's permissions keep out: within the limits, an open succeeds if the
  -- queue is there, or if it is to be created and the name is one of a queue. Nothing is said of an
  -- open without O_CREAT of a queue that is not there.
  pub record IsPosix : Type 0 where
    pub opens :
        (name : List ℕ) (create : Bool) (n : ℕ) (w : W)
        → Openable name create w
        → v.Free (suc n) w
        → (d : D) × (w' : W) × IsOpened name create n w d w'

no_slash-append :
    (xs ys : List ℕ) → no_slash xs ≡ true → no_slash ys ≡ true → no_slash (xs ++ ys) ≡ true
no_slash-append [] ys h k = k
no_slash-append (x ∷ xs) ys h k = ground (arith, no_slash-append xs ys)

-- A name with a suffix is a queue name, if it is short enough.
pub is_queue_name-append :
    (name suffix : List ℕ)
    → is_queue_name name ≡ true
    → no_slash suffix ≡ true
    → length name + length suffix ≤ 255
    → is_queue_name (name ++ suffix) ≡ true
is_queue_name-append [] suffix h k short = cc
is_queue_name-append (c ∷ cs) suffix h k short =
    ground (arith, no_slash-append cs suffix, length-append cs suffix)

either :
    (P : List ℕ → Type 0) (b : Bool)
    → P suffix_a
    → P suffix_b
    → P (if b then suffix_a else suffix_b) × P (if b then suffix_b else suffix_a)
either P true ha hb = (ha, hb)
either P false ha hb = (hb, ha)

-- The suffixes of the queues for sending and for receiving.
abbrev pub tx_suffix : List ℕ → List ℕ
tx_suffix role = if str_eq role role_master then suffix_a else suffix_b

abbrev pub rx_suffix : List ℕ → List ℕ
rx_suffix role = if str_eq role role_master then suffix_b else suffix_a

module _ {W D : Type 0} (os : Mqueue W D) (v : View W D) (posix : IsPosix os v) where
  still-Openable :
      (name : List ℕ) (create : Bool) (w w' : W)
      → (v.Exists name w → v.Exists name w')
      → Openable os v name create w
      → Openable os v name create w'
  still-Openable name true w w' keeps h = h
  still-Openable name false w w' keeps h = keeps h

  created :
      (name suffix : List ℕ) (create : Bool) (n : ℕ) (w : W)
      → length name + length suffix < 256
      → Openable os v (name ++ suffix) create w
      → v.Free (suc n) w
      → (d : D) × (w' : W) × (create_message_queue os name suffix create w ≡ ok (d, w'))
        × IsOpened os v (name ++ suffix) create n w d w'
  unfolding create_message_queue
  created name suffix create n w short h free =
      let (d, w', o) = posix.opens (name ++ suffix) create n w h free in
      (
        d,
        w',
        rw
            (
              lt→ltb (length name + length suffix) 256 short,
              ap (λ p. p.0) (o.run),
              ap (λ p. p.1) (o.run),
            )
            refl,
        o,
      )

  -- What an open of both queues has come to.
  pub record IsPair (name role : List ℕ) (n : ℕ) (w : W) (mq : TloeMq D) (w' : W) : Type 0 where
    pub sends : v.queue_of mq.mq_tx ≡ name ++ tx_suffix role
    pub receives : v.queue_of mq.mq_rx ≡ name ++ rx_suffix role
    pub there_a : v.Exists (name ++ suffix_a) w'
    pub there_b : v.Exists (name ++ suffix_b) w'
    pub others : (other : List ℕ) → v.Exists other w → v.Exists other w'
    pub free : v.Free n w'

  pub tloe_mq_open_lem :
      (name role : List ℕ) (create : Bool) (n : ℕ) (w : W)
      → length name < 254
      → Openable os v (name ++ suffix_a) create w
      → Openable os v (name ++ suffix_b) create w
      → v.Free (suc (suc n)) w
      → (mq : TloeMq D) × (w' : W) × (tloe_mq_open os name role create w ≡ ok (mq, w'))
        × IsPair name role n w mq w'
  unfolding tloe_mq_open
  tloe_mq_open_lem name role create n w short ha hb free =
      let m = str_eq role role_master in
      let (s1, s2) = either (λ s. length name + length s < 256) m (omega arith) (omega arith) in
      let (o1, o2) = either (λ s. Openable os v (name ++ s) create w) m ha hb in
      let (tx, w1, e1, q1) = created name (tx_suffix role) create (suc n) w s1 o1 free in
      let (rx, w2, e2, q2) =
        created name (rx_suffix role) create n w1 s2
          (still-Openable (name ++ rx_suffix role) create w w1 (q1.others (name ++ rx_suffix role))
            o2)
          (q1.free) in
      let (there_a, there_b) =
        both_there (λ s. v.Exists (name ++ s) w2) m (q2.others (name ++ tx_suffix role) (q1.there))
          (q2.there) in
      (
        record { mq_tx = tx; mq_rx = rx },
        w2,
        rw (e1, e2) refl,
        record {
          sends = q1.names;
          receives = q2.names;
          there_a = there_a;
          there_b = there_b;
          others = λ other h. q2.others other (q1.others other h);
          free = q2.free;
        },
      )
    where
      both_there :
          (P : List ℕ → Type 0) (b : Bool)
          → P (if b then suffix_a else suffix_b)
          → P (if b then suffix_b else suffix_a)
          → P suffix_a × P suffix_b
      both_there P true x y = (x, y)
      both_there P false x y = (y, x)
