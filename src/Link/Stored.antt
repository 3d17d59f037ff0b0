-- ===== src/Link/Stored.antt =====
-- The frames in the sender's buffer, as copies of the messages that it was given.
use native.Mathlib.Nat.{add-zero}
use omnixtend_c.Base.{
  ℕ, zero, suc, ◌+◌, ◌-◌, ◌*◌, ◌/◌, ◌≤◌, ◌≡◌, ap, arith, some, List, [], ◌∷◌, ◌++◌, map, length,
  drop, get_elem?, get_elem?-append, All,
}
use omnixtend_c.TlMsg.{TlMsg}
use omnixtend_c.Frame.{Frame}
use omnixtend_c.Frame.Packet.{packet_of}
use omnixtend_c.Endpoint.{Endpoint, RetransmitBufferElement, tloe_seqnum_set_seq_num_ack}
use omnixtend_c.Retransmission.Window.{Consecutive}
use omnixtend_c.Retransmission.Resend.{AllSendable, packet_again, mark_resent}
use omnixtend_c.Link.DataFrame.{IsData, reacked-IsData, data-IsSendable}
use omnixtend_c.Link.Tagged.{Tagged, idle, under_way}

module _ (first : ℕ) where
  -- The element carries the `i`-th message given.
  abbrev pub Holds : List TlMsg → ℕ → RetransmitBufferElement → Type 0
  Holds given i r =
      (m : TlMsg) × (k : ℕ) × (get_elem? given i ≡ some m)
      × (r.f_size ≡ 8 + k * 8)
      × IsData k (first + i) m r.tloe_frame

  abbrev pub Stored : List TlMsg → ℕ → List RetransmitBufferElement → Type 0
  Stored given i [] = Unit {0}
  Stored given i (r ∷ l) = Holds given i r × Stored given (suc i) l

  -- The packet carries the `c`-th message given.
  abbrev pub IsPacket : List TlMsg → ℕ → List ℕ → Type 0
  IsPacket given c p =
      (m : TlMsg) × (k : ℕ) × (f : Frame) × (get_elem? given c ≡ some m)
      × (p ≡ packet_of f k)
      × IsData k (first + c) m f

  -- It is so young that fewer than a window of messages were received since.
  abbrev pub Young : List TlMsg → ℕ → ℕ → List ℕ → Type 0
  Young given got c p = IsPacket given c p × (got ≤ c + 4)

  pub Stored-Consecutive :
      (given : List TlMsg) (i : ℕ) (l : List RetransmitBufferElement)
      → Stored given i l
      → Consecutive (first + i) l
  Stored-Consecutive given i [] s = tt
  Stored-Consecutive given i (r ∷ l) ((m, k, e, size, d), s) =
      let step : suc (first + i) ≡ first + suc i = omega arith in
      (d.seq_num, rw step (Stored-Consecutive given (suc i) l s))

  pub Stored-AllSendable :
      (given : List TlMsg) (i : ℕ) (l : List RetransmitBufferElement)
      → Stored given i l
      → AllSendable l
  Stored-AllSendable given i [] s = tt
  Stored-AllSendable given i (r ∷ l) ((m, k, e, size, d), s) = (
    rw size (data-IsSendable k (first + i) m r.tloe_frame d),
    Stored-AllSendable given (suc i) l s,
  )

  pub Stored-append :
      (given : List TlMsg) (i : ℕ) (l : List RetransmitBufferElement) (r : RetransmitBufferElement)
      → Stored given i l
      → Holds given (i + length l) r
      → Stored given i (l ++ r ∷ [])
  Stored-append given i [] r s h = let e : i + 0 ≡ i = omega arith in (rw e at h, tt)
  Stored-append given i (x ∷ l) r (hx, s) h =
      let e : i + suc (length l) ≡ suc i + length l = omega arith in
      (hx, Stored-append given (suc i) l r s (rw e at h))

  pub Stored-given :
      (given : List TlMsg) (m : TlMsg) (i : ℕ) (l : List RetransmitBufferElement)
      → Stored given i l
      → Stored (given ++ m ∷ []) i l
  Stored-given given m i [] s = tt
  Stored-given given m i (r ∷ l) ((m', k, e, size, d), s) =
      ((m', k, get_elem?-append given (m ∷ []) i e, size, d), Stored-given given m (suc i) l s)

  pub Stored-drop :
      (given : List TlMsg) (i k : ℕ) (l : List RetransmitBufferElement)
      → Stored given i l
      → Stored given (i + k) (drop k l)
  Stored-drop given i zero l s = rw add-zero s
  Stored-drop given i (suc k) [] s = tt
  Stored-drop given i (suc k) (r ∷ l) (h, s) =
      let e : i + suc k ≡ suc i + k = omega arith in rw e (Stored-drop given (suc i) k l s)

  pub Stored-resent :
      (e : Endpoint) (given : List TlMsg) (i : ℕ) (l : List RetransmitBufferElement)
      → Stored given i l
      → Stored given i (map (mark_resent e) l)
  Stored-resent e given i [] s = tt
  Stored-resent e given i (r ∷ l) (h, s) = (h, Stored-resent e given (suc i) l s)

  -- the numbers of the elements
  abbrev pub numbered : ℕ → List RetransmitBufferElement → List ℕ
  numbered i [] = []
  numbered i (r ∷ l) = i ∷ numbered (suc i) l

  pub numbered_later :
      (c i : ℕ) (l : List RetransmitBufferElement) → c ≤ i + 3 → All (λ d. c ≤ d + 3) (numbered i l)
  numbered_later c i [] h = tt
  numbered_later c i (r ∷ l) h = (h, numbered_later c (suc i) l (omega arith))

  -- The packets that are sent again carry what the elements hold.
  pub again-Tagged :
      (e : Endpoint) (given : List TlMsg) (got i : ℕ) (l : List RetransmitBufferElement)
      → got ≤ i + 4
      → Stored given i l
      → Tagged (Young given got) (λ c d. c ≤ d + 3) (map (packet_again e) l) (numbered i l)
  again-Tagged e given got i [] h s = idle
  again-Tagged e given got i (r ∷ l) h ((m, k, g, size, d), s) =
      let flits : (r.f_size - 8) / 8 ≡ k = omega (arith, size) in
      under_way
        (
          (
            m,
            k,
            tloe_seqnum_set_seq_num_ack r.tloe_frame e,
            g,
            ap (packet_of (tloe_seqnum_set_seq_num_ack r.tloe_frame e)) flits,
            reacked-IsData e k (first + i) m r.tloe_frame d,
          ),
          h,
        )
        (numbered_later i (suc i) l (omega arith))
        (again-Tagged e given got (suc i) l (omega arith) s)
