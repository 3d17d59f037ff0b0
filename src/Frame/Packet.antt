-- ===== src/Frame/Packet.antt =====
-- A frame survives its way through a packet.
use mathlib.Core.List.{reverse-reverse, reverse-cons}
use omnixtend_c.Base.{
  ℕ, zero, suc, ◌+◌, ◌-◌, ◌*◌, ◌/◌, ◌≤◌, ◌≡◌, refl, sym, ap, ◌∙◌, arith, List, [], ◌∷◌, ◌++◌,
  reverse, append-nil, length, take, drop, length-append, length-take, length-drop, take-append,
  drop-append, take_all, take-append-drop, ok,
}
use omnixtend_c.Memory.{le_bytes, le_value}
use omnixtend_c.Memory.Laws.{
  length-le_bytes, le_value-le_bytes, le→leb, read_bytes_lem, write_bytes_lem,
}
use omnixtend_c.Frame.{
  FrameHeader, Frame, max_buffer_size, header_word, word_header, swap_words, tloe_frame_to_packet,
  packet_to_tloe_frame,
}
use omnixtend_c.Frame.Fields.{Fits, header_word-lt, word_header-header_word}

pub length-reverse {ℓ} : {A : Type ℓ} (xs : List A) → length (reverse xs) ≡ length xs
length-reverse [] = refl
length-reverse (x ∷ xs) =
    omega
      (arith, ap length (reverse-cons x xs), length-append (reverse xs) (x ∷ []), length-reverse xs)

pub length-swap_words : (n : ℕ) (l : List ℕ) → length l ≡ n * 8 → length (swap_words n l) ≡ n * 8
unfolding swap_words
length-swap_words zero l h = refl
length-swap_words (suc n) l h = omega (
  arith,
  length-append (reverse (take 8 l)) (swap_words n (drop 8 l)),
  length-reverse (take 8 l),
  length-take 8 l,
  length-swap_words n (drop 8 l) (omega (arith, length-drop 8 l)),
)

-- Turning each word round twice gives the bytes again.
pub swap_words_twice : (n : ℕ) (l : List ℕ) → length l ≡ n * 8 → swap_words n (swap_words n l) ≡ l
unfolding swap_words
swap_words_twice zero [] h = refl
swap_words_twice zero (x ∷ l) h = absurd (omega arith)
swap_words_twice (suc n) l h =
    rw
      (
        take-append (reverse (take 8 l)) (swap_words n (drop 8 l)) 8 eight,
        drop-append (reverse (take 8 l)) (swap_words n (drop 8 l)) 8 eight,
        swap_words_twice n (drop 8 l) (omega (arith, length-drop 8 l)),
        reverse-reverse (take 8 l),
      )
      (take-append-drop 8 l)
  where
    eight : 8 ≡ length (reverse (take 8 l))
    eight = omega (arith, length-reverse (take 8 l), length-take 8 l)

-- the packet of a frame with `n` flits
unfoldable pub packet_of : Frame → ℕ → List ℕ
packet_of f n = reverse (le_bytes 8 (header_word f.header)) ++ swap_words n (take (n * 8) f.flits)

length-header : (h : FrameHeader) → length (reverse (le_bytes 8 (header_word h))) ≡ 8
length-header h = length-reverse (le_bytes 8 (header_word h)) ∙ length-le_bytes 8 (header_word h)

length-flits : (f : Frame) (n : ℕ) → n * 8 ≤ length f.flits → length (take (n * 8) f.flits) ≡ n * 8
length-flits f n h = omega (arith, length-take (n * 8) f.flits)

pub length-packet_of :
    (f : Frame) (n : ℕ) → n * 8 ≤ length f.flits → length (packet_of f n) ≡ 8 + n * 8
unfolding packet_of
length-packet_of f n h = omega (
  arith,
  length-append (reverse (le_bytes 8 (header_word f.header))) (swap_words n (take (n * 8) f.flits)),
  length-header f.header,
  length-swap_words n (take (n * 8) f.flits) (length-flits f n h),
)

pub frame_to_packet_lem :
    (f : Frame) (size n : ℕ)
    → size ≡ 8 + n * 8
    → size ≤ max_buffer_size
    → n * 8 ≤ length f.flits
    → tloe_frame_to_packet f size ≡ ok (packet_of f n)
unfolding tloe_frame_to_packet packet_of
frame_to_packet_lem f size n e hs hf =
    rw (le→leb _ _ hs, flit_cnt, read_bytes_lem f.flits 0 (n * 8) (omega arith), pad)
      (ap ok
        (rw append-nil (take_all (packet_of f n) size (omega (arith, length-packet_of f n hf)))))
  where
    flit_cnt : (size - 8) / 8 ≡ n
    flit_cnt = omega arith

    pad : size - 8 - n * 8 ≡ 0
    pad = omega arith

-- What a receiver makes of that packet in a frame of its own: the sender's header and flits, and
-- behind them what was there before.
abbrev pub received : Frame → ℕ → Frame → Frame
received f n r = record { header = f.header; flits = take (n * 8) f.flits ++ drop (n * 8) r.flits }

pub packet_to_frame_lem :
    (f r : Frame) (n : ℕ)
    → Fits f.header
    → n * 8 ≤ length f.flits
    → n * 8 ≤ length r.flits
    → packet_to_tloe_frame (packet_of f n) r ≡ ok (received f n r)
unfolding packet_to_tloe_frame packet_of
packet_to_frame_lem f r n v hf hr =
    rw
      (
        flit_cnt,
        read_bytes_lem (packet_of f n) 0 8 (omega (arith, size)),
        read_bytes_lem (packet_of f n) 8 (n * 8) (omega (arith, size)),
        back,
        write_bytes_lem r.flits 0 (take (n * 8) f.flits) (omega (arith, flits)),
        head,
      )
      (ap (λ k. ok (record { header = f.header; flits = take (n * 8) f.flits ++ drop k r.flits }))
        (omega (arith, flits)))
  where
    size : length (packet_of f n) ≡ 8 + n * 8
    size = length-packet_of f n hf

    flits : length (take (n * 8) f.flits) ≡ n * 8
    flits = length-flits f n hf

    flit_cnt : length (packet_of f n) / 8 - 1 ≡ n
    flit_cnt = omega (arith, size)

    front : take 8 (packet_of f n) ≡ reverse (le_bytes 8 (header_word f.header))
    front = take-append _ _ 8 (sym (length-header f.header))

    behind : drop 8 (packet_of f n) ≡ swap_words n (take (n * 8) f.flits)
    behind =
        drop-append (reverse (le_bytes 8 (header_word f.header))) _ 8 (sym (length-header f.header))

    head : word_header (le_value (reverse (take 8 (packet_of f n)))) ≡ f.header
    head =
        rw
          (
            front,
            reverse-reverse (le_bytes 8 (header_word f.header)),
            le_value-le_bytes 8 (header_word f.header) (header_word-lt f.header v),
          )
          (word_header-header_word f.header v)

    back : swap_words n (take (n * 8) (drop 8 (packet_of f n))) ≡ take (n * 8) f.flits
    back =
        rw
          (
            behind,
            take_all (swap_words n (take (n * 8) f.flits)) (n * 8)
                (omega (arith, length-swap_words n (take (n * 8) f.flits) flits)),
          )
          (swap_words_twice n (take (n * 8) f.flits) flits)

-- A frame of whole flits, at most 1500 bytes, whose header fields fit their bits, becomes a packet
-- of the size that was asked, and a receiver with room for the flits makes of it the sender's
-- header and flits, with its own flits behind.
pub packet_round_trip :
    (f r : Frame) (size n : ℕ)
    → Fits f.header
    → size ≡ 8 + n * 8
    → size ≤ max_buffer_size
    → n * 8 ≤ length f.flits
    → n * 8 ≤ length r.flits
    → (p : List ℕ) × (tloe_frame_to_packet f size ≡ ok p)
      × (length p ≡ size)
      × (packet_to_tloe_frame p r ≡ ok (received f n r))
packet_round_trip f r size n v e hs hf hr = (
  packet_of f n,
  frame_to_packet_lem f size n e hs hf,
  length-packet_of f n hf ∙ sym e,
  packet_to_frame_lem f r n v hf hr,
)
