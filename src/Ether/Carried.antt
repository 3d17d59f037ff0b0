-- ===== src/Ether/Carried.antt =====
-- tloe_ether.c: a packet through `tloe_ether_send` and `tloe_ether_recv`, and an interface that
-- `tloe_ether_open` opens.
use omnixtend_c.Base.{
  ℕ, ◌+◌, ◌-◌, ◌≤◌, ◌<◌, ◌≡◌, refl, sym, ap, ◌∙◌, arith, min, true, false, some, List, ◌++◌, take,
  drop, length, length-append, replicate, length-take, length-drop, take_all, take-append,
  take-append_more, drop-append, append_assoc, ltb, ge→ltb, lt→ltb, leb, ok,
}
use omnixtend_c.Memory.{le_bytes, le_value}
use omnixtend_c.Memory.Laws.{length-le_bytes}
use omnixtend_c.Ether.{
  TloeEther, Calls, ether_hdr_len, ether_max_len, ethermtu, tloe_ether_type, payload_taken,
  send_size, ether_frame, tloe_ether_recv, tloe_ether_open, tloe_ether_alloc_and_init,
  tloe_mac_str2bytes,
}

-- Addresses of six bytes and the type of the protocol.
pub record IsOpen (eth : TloeEther) : Type 0 where
  pub dest : length eth.dest_mac ≡ 6
  pub src : length eth.src_mac ≡ 6
  pub type : eth.ether_type ≡ tloe_ether_type

-- the bytes that fill a short frame
abbrev pub padding : List ℕ → List ℕ → List ℕ
padding payload buffer = take (50 - length payload) (drop (14 + length payload) buffer)

payload_taken_lem : (n : ℕ) → n ≤ ethermtu → payload_taken n ≡ n
unfolding payload_taken
payload_taken_lem n h = ground arith

send_size_lem : (n : ℕ) → n ≤ ethermtu → send_size n ≡ 14 + (n + (50 - n))
unfolding send_size
send_size_lem n h = ground arith

abbrev header : TloeEther → List ℕ
header eth = (eth.dest_mac ++ eth.src_mac) ++ le_bytes 2 eth.ether_type

module _ (eth : TloeEther) (w : IsOpen eth) where
  length-header : length (header eth) ≡ 14
  length-header = omega (
    arith,
    length-append (eth.dest_mac ++ eth.src_mac) (le_bytes 2 eth.ether_type),
    length-append eth.dest_mac eth.src_mac,
    length-le_bytes 2 eth.ether_type,
    w.dest,
    w.src,
  )

  ether_frame_lem :
      (payload buffer : List ℕ)
      → length payload ≤ ethermtu
      → ether_frame eth payload buffer ≡ header eth ++ (payload ++ padding payload buffer)
  unfolding ether_frame
  ether_frame_lem payload buffer short =
      let rest = drop (14 + length payload) buffer in
      rw
        (
          payload_taken_lem (length payload) short,
          send_size_lem (length payload) short,
          take_all payload (length payload) (omega arith),
        )
        (ap (take (14 + (length payload + (50 - length payload)))) (
            sym (
              append_assoc eth.dest_mac eth.src_mac
                (le_bytes 2 eth.ether_type ++ (payload ++ rest)))
            ∙ sym (
                append_assoc (eth.dest_mac ++ eth.src_mac) (le_bytes 2 eth.ether_type)
                  (payload ++ rest)))
          ∙ take-append_more (header eth) (payload ++ rest) _
              (length payload + (50 - length payload)) (omega (arith, length-header))
          ∙ ap (◌++◌ (header eth)) (take-append_more payload rest _ (50 - length payload) refl))

  typed : (body : List ℕ) → take 2 (drop 12 (header eth ++ body)) ≡ le_bytes 2 eth.ether_type
  typed body =
      ap (take 2) (
        ap (drop 12) (append_assoc (eth.dest_mac ++ eth.src_mac) (le_bytes 2 eth.ether_type) body)
        ∙ drop-append (eth.dest_mac ++ eth.src_mac) (le_bytes 2 eth.ether_type ++ body) 12
            (omega (arith, length-append eth.dest_mac eth.src_mac, w.dest, w.src)))
      ∙ take-append (le_bytes 2 eth.ether_type) body 2 (sym (length-le_bytes 2 eth.ether_type))

  tagged : le_value (le_bytes 2 eth.ether_type) ≡ tloe_ether_type
  unfolding le_value le_bytes
  tagged = rw (w.type) refl

  recv_body :
      (body buffer : List ℕ) (payload_size : ℕ)
      → length body ≤ 1504
      → length body ≤ payload_size
      → tloe_ether_recv buffer payload_size (some (header eth ++ body)) ≡ ok (some body)
  unfolding tloe_ether_recv
  recv_body body buffer payload_size short room =
      let n = 14 + length body in
      let whole : length (header eth ++ body) ≡ n =
        omega (arith, length-append (header eth) body, length-header) in
      let size : min (length (header eth ++ body)) ether_max_len ≡ n = omega (arith, whole) in
      let long : ltb n ether_hdr_len ≡ false = ge→ltb n 14 (omega arith) in
      let fits : ltb payload_size (n - ether_hdr_len) ≡ false =
        ge→ltb payload_size _ (omega arith) in
      let inside : leb (ether_hdr_len + (n - ether_hdr_len)) ether_max_len ≡ true = ground arith in
      let left : n - ether_hdr_len ≡ length body = omega arith in
      rw
        (
          size,
          take_all (header eth ++ body) n (omega (arith, whole)),
          long,
          fits,
          inside,
          append_assoc (header eth) body (drop n buffer),
          typed (body ++ drop n buffer),
          tagged,
          drop-append (header eth) (body ++ drop n buffer) 14 (sym length-header),
          left,
          take-append body (drop n buffer) (length body) refl,
        )
        refl

  -- A packet of at most 1500 bytes that `tloe_ether_send` puts into a frame, with addresses of six
  -- bytes and the protocol's type, is what `tloe_ether_recv` takes out of the frame, into a buffer
  -- that holds it and at least 50 bytes. A packet of fewer than 50 bytes is followed by bytes of
  -- the sender's stack, up to 50.
  pub ether_roundtrip :
      (payload buffer buffer' : List ℕ) (payload_size : ℕ)
      → length payload ≤ ethermtu
      → length buffer ≡ ether_max_len
      → length payload ≤ payload_size
      → 50 ≤ payload_size
      → tloe_ether_recv buffer' payload_size (some (ether_frame eth payload buffer))
        ≡ ok (some (payload ++ padding payload buffer))
  ether_roundtrip payload buffer buffer' payload_size short held room room' =
      rw (ether_frame_lem payload buffer short) (
        recv_body (payload ++ padding payload buffer) buffer' payload_size (omega (arith, total))
          (omega (arith, total)))
    where
      total : length (payload ++ padding payload buffer) ≡ length payload + (50 - length payload)
      total = omega (
        arith,
        length-append payload (padding payload buffer),
        length-take (50 - length payload) (drop (14 + length payload) buffer),
        length-drop (14 + length payload) buffer,
        held,
      )

-- placeholder
pub tloe_ether_open_lem :
    (calls : Calls) (scanned dest_mac : List ℕ) (sock index : ℕ) (address : List ℕ)
    → calls.socket ≡ some sock
    → calls.hwaddr ≡ some address
    → calls.fcntl ≡ true
    → calls.ifindex ≡ some index
    → 0 < calls.if_nametoindex
    → calls.bind ≡ true
    → length scanned ≤ 6
    → length dest_mac ≡ 6
    → 6 ≤ length address
    → (eth : TloeEther) × (tloe_ether_open calls scanned dest_mac ≡ ok eth)
      × IsOpen eth
      × (eth.sock ≡ some sock)
      × (eth.sll.sll_ifindex ≡ index)
      × (eth.dest_mac ≡ scanned ++ drop (length scanned) dest_mac)
      × (eth.src_mac ≡ take 6 address)
unfolding tloe_ether_open tloe_ether_alloc_and_init tloe_mac_str2bytes
tloe_ether_open_lem calls scanned dest_mac sock index address es eh ef ei named eb few six long = (
  record {
    sock = some sock;
    sll = record {
      sll_ifindex = index;
      sll_halen = 6;
      sll_addr = (scanned ++ drop (length scanned) dest_mac) ++ replicate 2 0;
    };
    dest_mac = scanned ++ drop (length scanned) dest_mac;
    src_mac = take 6 address;
    ether_type = tloe_ether_type;
  },
  rw (es, eh, ef, ei, lt→ltb 0 calls.if_nametoindex named, eb) refl,
  record {
    dest = omega (
      arith,
      length-append scanned (drop (length scanned) dest_mac),
      length-drop (length scanned) dest_mac,
    );
    src = omega (arith, length-take 6 address);
    type = refl;
  },
  refl,
  refl,
  refl,
  refl,
)
