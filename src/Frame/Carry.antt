-- ===== src/Frame/Carry.antt =====
-- A TileLink message in a frame: what is put in, and what a receiver takes out.
use omnixtend_c.Base.{
  ℕ, ◌+◌, ◌-◌, ◌^◌, ◌≤◌, ◌<◌, ◌≡◌, sym, ap, ◌∙◌, arith, List, [], ◌++◌, append_assoc, length, take,
  drop, length-append, length-take, take-append, drop-append, take-append_le, drop-append_le,
  take-append_more, take_all, ok,
}
use omnixtend_c.Memory.{le_bytes, le_value}
use omnixtend_c.Memory.Laws.{
  length-le_bytes, le_value-le_bytes, le→leb, read_bytes_lem, write_bytes_lem, length-write,
  take-take-append,
}
use omnixtend_c.TlMsg.{TlHeader, TlMsg, tlmsg_get_total_size}
use omnixtend_c.TlMsg.Sizes.{total_size-header}
use omnixtend_c.TlMsg.Header.{Fits, to_word, of_word, to_word-lt, of_word-to_word}
use omnixtend_c.Frame.{
  Frame, mask_offset, tloe_set_mask, tloe_get_mask, tloe_get_tlmsg, tloe_set_tlmsg, msg_bytes,
}

-- A message whose memory is as long as the code says, and not shorter than a header.
pub record IsWellSized (m : TlMsg) : Type 0 where
  pub fits : Fits m.header
  pub known : 8 ≤ tlmsg_get_total_size m
  pub sized : 8 + length m.payload ≡ tlmsg_get_total_size m

pub length-msg_bytes : (m : TlMsg) → length (msg_bytes m) ≡ 8 + length m.payload
unfolding msg_bytes
length-msg_bytes m = omega (
  arith,
  length-append (le_bytes 8 (to_word m.header)) m.payload,
  length-le_bytes 8 (to_word m.header),
)

pub set_tlmsg_lem :
    (f : Frame) (m : TlMsg)
    → IsWellSized m
    → tlmsg_get_total_size m ≤ length f.flits
    → tloe_set_tlmsg f m
      ≡ ok (record f { flits = msg_bytes m ++ drop (tlmsg_get_total_size m) f.flits })
unfolding tloe_set_tlmsg
set_tlmsg_lem f m w h =
    rw
      (
        read_bytes_lem (msg_bytes m) 0 (tlmsg_get_total_size m) (omega (arith, long)),
        take_all (msg_bytes m) (tlmsg_get_total_size m) (omega (arith, long)),
        write_bytes_lem f.flits 0 (msg_bytes m) (omega (arith, long)),
      )
      (ap (λ k. ok (record f { flits = msg_bytes m ++ drop k f.flits })) (omega (arith, long)))
  where
    long : length (msg_bytes m) ≡ tlmsg_get_total_size m
    long = length-msg_bytes m ∙ w.sized

-- the flits of `f` behind `tloe_set_mask`
abbrev pub masked : List ℕ → ℕ → ℕ → List ℕ
masked flits mask off = take off flits ++ (le_bytes 8 mask ++ drop (off + 8) flits)

pub set_mask_lem :
    (f : Frame) (mask size : ℕ)
    → 16 ≤ size
    → mask_offset size + 8 ≤ length f.flits
    → tloe_set_mask f mask size ≡ ok (record f { flits = masked f.flits mask (mask_offset size) })
unfolding tloe_set_mask
set_mask_lem f mask size h k =
    rw
      (
        le→leb _ _ h,
        write_bytes_lem f.flits (mask_offset size) (le_bytes 8 mask)
            (omega (arith, length-le_bytes 8 mask)),
      )
      (ap
        (λ n. ok (record f {
          flits =
              take (mask_offset size) f.flits
              ++ (le_bytes 8 mask ++ drop (mask_offset size + n) f.flits);
        }))
        (length-le_bytes 8 mask))

pub length-masked :
    (flits : List ℕ) (mask off : ℕ)
    → off + 8 ≤ length flits
    → length (masked flits mask off) ≡ length flits
length-masked flits mask off h =
    rw (length-le_bytes 8 mask) at
      (length-write flits off (le_bytes 8 mask) (omega (arith, length-le_bytes 8 mask)))

pub get_mask_lem :
    (f : Frame) (flits : List ℕ) (mask size : ℕ)
    → mask < 2 ^ 64
    → 16 ≤ size
    → mask_offset size + 8 ≤ length flits
    → f.flits ≡ masked flits mask (mask_offset size)
    → tloe_get_mask f size ≡ ok mask
unfolding tloe_get_mask
get_mask_lem f flits mask size h s k e =
    rw
      (
        le→leb _ _ s,
        e,
        read_bytes_lem (masked flits mask off) off 8
            (omega (arith, length-masked flits mask off k)),
        there,
      )
      (ap ok (le_value-le_bytes 8 mask h))
  where
    off : ℕ
    off = mask_offset size

    there : take 8 (drop off (masked flits mask off)) ≡ le_bytes 8 mask
    there =
        ap (take 8) (drop-append (take off flits) _ off (omega (arith, length-take off flits)))
        ∙ take-append (le_bytes 8 mask) _ 8 (sym (length-le_bytes 8 mask))

pub get_tlmsg_lem :
    (f : Frame) (h : TlHeader) (t : ℕ)
    → Fits h
    → take 8 f.flits ≡ le_bytes 8 (to_word h)
    → tlmsg_get_total_size (record { header = h; payload = [] }) ≡ t
    → 8 ≤ t
    → t ≤ length f.flits
    → tloe_get_tlmsg f 0 ≡ ok (record { header = h; payload = drop 8 (take t f.flits) })
unfolding tloe_get_tlmsg
get_tlmsg_lem f h t v e d k l = rw (
  read_bytes_lem f.flits 0 8 (omega arith),
  e,
  back,
  d,
  read_bytes_lem f.flits 0 t (omega arith),
  le→leb _ _ k,
)
  where
    back : of_word (le_value (le_bytes 8 (to_word h))) ≡ h
    back = ap of_word (le_value-le_bytes 8 (to_word h) (to_word-lt h v)) ∙ of_word-to_word h v

-- A tail behind the flits stays behind them.
pub masked-append :
    (flits tail : List ℕ) (mask off : ℕ)
    → off + 8 ≤ length flits
    → masked flits mask off ++ tail ≡ masked (flits ++ tail) mask off
masked-append flits tail mask off h = rw (
  take-append_le off flits tail (omega arith),
  drop-append_le (off + 8) flits tail h,
  append_assoc (take off flits) (le_bytes 8 mask ++ drop (off + 8) flits) tail,
  append_assoc (le_bytes 8 mask) (drop (off + 8) flits) tail,
)

-- What a reader finds where a message of `total` bytes was laid down and a mask then written at
-- `off`, in flits that go on behind the message.
module _ (m : TlMsg) (w : IsWellSized m) (tail : List ℕ) (mask off : ℕ) where
  abbrev pub laid : List ℕ
  laid = msg_bytes m ++ tail

  msg_bytes-split : laid ≡ le_bytes 8 (to_word m.header) ++ (m.payload ++ tail)
  unfolding msg_bytes
  msg_bytes-split = append_assoc (le_bytes 8 (to_word m.header)) m.payload tail

  long : length (msg_bytes m) ≡ tlmsg_get_total_size m
  long = length-msg_bytes m ∙ w.sized

  head_kept :
      8 ≤ off → off ≤ length laid → take 8 (masked laid mask off) ≡ le_bytes 8 (to_word m.header)
  head_kept h k =
      take-take-append 8 off laid _ h k
      ∙ ap (take 8) msg_bytes-split
      ∙ take-append (le_bytes 8 (to_word m.header)) _ 8 (sym (length-le_bytes 8 (to_word m.header)))

  behind_header : drop 8 (msg_bytes m) ≡ m.payload
  unfolding msg_bytes
  behind_header =
      drop-append (le_bytes 8 (to_word m.header)) m.payload 8
        (sym (length-le_bytes 8 (to_word m.header)))

  -- A mask behind the message leaves it alone.
  pub get_tlmsg_clear :
      (h : Frame)
      → h.flits ≡ masked laid mask off
      → tlmsg_get_total_size m ≤ off
      → off + 8 ≤ length laid
      → tloe_get_tlmsg h 0 ≡ ok m
  get_tlmsg_clear h e t k =
      get_tlmsg_lem h m.header (tlmsg_get_total_size m) w.fits
        (ap (take 8) e ∙ head_kept (omega (arith, w.known)) (omega arith)) (total_size-header m [])
        w.known (omega (arith, ap length e, length-masked laid mask off k))
      ∙ ap (λ p. ok (record m { payload = p })) body
    where
      body : drop 8 (take (tlmsg_get_total_size m) h.flits) ≡ m.payload
      body =
          rw
            (
              e,
              take-take-append (tlmsg_get_total_size m) off laid
                  (le_bytes 8 mask ++ drop (off + 8) laid) t (omega arith),
              take-append (msg_bytes m) tail (tlmsg_get_total_size m) (sym long),
            )
            behind_header

  -- A mask on the message's last word takes its place.
  pub get_tlmsg_hit :
      (h : Frame)
      → h.flits ≡ masked laid mask off
      → off + 8 ≡ tlmsg_get_total_size m
      → 8 ≤ off
      → tloe_get_tlmsg h 0
        ≡ ok
            (record m { payload = take (tlmsg_get_total_size m - 16) m.payload ++ le_bytes 8 mask })
  get_tlmsg_hit h e t k =
      get_tlmsg_lem h m.header (tlmsg_get_total_size m) w.fits
        (ap (take 8) e ∙ head_kept k (omega (arith, room))) (total_size-header m []) w.known
        (omega (arith, ap length e, length-masked laid mask off room, room))
      ∙ ap (λ p. ok (record m { payload = p })) (ap (drop 8) bytes ∙ behind)
    where
      room : off + 8 ≤ length laid
      room = omega (arith, length-append (msg_bytes m) tail, long)

      front : List ℕ
      front = take (off - 8) m.payload

      front_bytes : take off laid ≡ le_bytes 8 (to_word m.header) ++ front
      front_bytes =
          ap (take off) msg_bytes-split
          ∙ take-append_more (le_bytes 8 (to_word m.header)) (m.payload ++ tail) off (off - 8)
              (omega (arith, length-le_bytes 8 (to_word m.header)))
          ∙ ap (◌++◌ (le_bytes 8 (to_word m.header)))
              (take-append_le (off - 8) m.payload tail (omega (arith, w.sized)))

      bytes :
          take (tlmsg_get_total_size m) h.flits
          ≡ le_bytes 8 (to_word m.header) ++ (front ++ le_bytes 8 mask)
      bytes =
          rw
            (
              e,
              take-append_more (take off laid) (le_bytes 8 mask ++ drop (off + 8) laid)
                  (tlmsg_get_total_size m) 8 (omega (arith, length-take off laid, room)),
              take-append (le_bytes 8 mask) (drop (off + 8) laid) 8 (sym (length-le_bytes 8 mask)),
              front_bytes,
            )
            (append_assoc (le_bytes 8 (to_word m.header)) front (le_bytes 8 mask))

      behind :
          drop 8 (le_bytes 8 (to_word m.header) ++ (front ++ le_bytes 8 mask))
          ≡ take (tlmsg_get_total_size m - 16) m.payload ++ le_bytes 8 mask
      behind =
          drop-append (le_bytes 8 (to_word m.header)) _ 8
            (sym (length-le_bytes 8 (to_word m.header)))
          ∙ ap (λ n. take n m.payload ++ le_bytes 8 mask) (omega arith)
