-- ===== src/Ether.antt =====
-- tloe_ether.h and tloe_ether.c: packets in Ethernet frames. The system's calls are answered from
-- outside, and `buffer` is what the stack held where the code leaves an array uninitialised. The
-- sizes are those of net/ethernet.h; `htons` of 0xAAAA is 0xAAAA in either byte order.
pub mod Carried
use omnixtend_c.Base.{
  ℕ, ◌+◌, ◌-◌, min, Bool, true, false, Option, none, some, List, [], ◌∷◌, ◌++◌, take, drop, length,
  replicate, ltb, leb, ◌==◌, ◌||◌, not, if◌then◌else◌, Outcome, ok, fail, exits, out_of_bounds,
  require, ◌>>=◌, ◌>>◌, ℤ, negsuc,
}
use omnixtend_c.Memory.{le_bytes, le_value}

abbrev pub ether_hdr_len : ℕ
ether_hdr_len = 14

abbrev pub ether_min_len : ℕ
ether_min_len = 64

abbrev pub ether_max_len : ℕ
ether_max_len = 1518

abbrev pub ethermtu : ℕ
ethermtu = 1500

-- 0xAAAA
abbrev pub tloe_ether_type : ℕ
tloe_ether_type = 43690

-- The fields of the address `sll` that the code sets.
pub record SockaddrLl : Type 0 where
  pub sll_ifindex : ℕ
  pub sll_halen : ℕ
  pub sll_addr : List ℕ

pub record TloeEther : Type 0 where
  pub sock : Option ℕ
  pub sll : SockaddrLl
  pub dest_mac : List ℕ
  pub src_mac : List ℕ
  pub ether_type : ℕ

-- How `sendto` returns: with EAGAIN, or with another result.
pub data Answer : Type 0 where
  again : Answer
  result : ℤ → Answer

unfoldable pub payload_taken : ℕ → ℕ
payload_taken payload_size = if leb ethermtu payload_size then ethermtu else payload_size

unfoldable pub send_size : ℕ → ℕ
send_size payload_size =
    let size = ether_hdr_len + payload_size in
    if ltb size ether_min_len
    then ether_min_len
    else if leb ether_max_len size
    then ether_max_len
    else size

-- what `sendto` is given
unfoldable pub ether_frame : TloeEther → List ℕ → List ℕ → List ℕ
unfolding payload_taken send_size
ether_frame eth payload buffer =
    let n = payload_taken (length payload) in
    take (send_size n) (
      eth.dest_mac
      ++ (eth.src_mac
          ++ (le_bytes 2 eth.ether_type ++ (take n payload ++ drop (ether_hdr_len + n) buffer))))

-- The loop around `sendto`, over the answers that are given; `none` if it would go on.
unfoldable pub send_loop : List Answer → Option ℤ
send_loop [] = none
send_loop (again ∷ answers) = send_loop answers
send_loop (result size ∷ answers) = some size

unfoldable pub tloe_ether_send : TloeEther → List ℕ → List ℕ → List Answer → List ℕ × Option ℤ
unfolding ether_frame send_loop
tloe_ether_send eth payload buffer answers = (ether_frame eth payload buffer, send_loop answers)

-- A frame that `recvfrom` gives is cut to the buffer; `none` stands for a negative result, of
-- `recvfrom` or of the function. For a frame that is shorter than its header `copy_size` is
-- negative, which the comparison with the unsigned `payload_size` takes for a large number.
unfoldable pub tloe_ether_recv : List ℕ → ℕ → Option (List ℕ) → Outcome (Option (List ℕ))
tloe_ether_recv buffer payload_size none = ok none
tloe_ether_recv buffer payload_size (some frame) =
    let size = min (length frame) ether_max_len in
    let ef = take size frame ++ drop size buffer in
    let copy_size =
      if ltb size ether_hdr_len || ltb payload_size (size - ether_hdr_len)
      then payload_size
      else size - ether_hdr_len in
    if le_value (take 2 (drop 12 ef)) == tloe_ether_type
    then (require (leb (ether_hdr_len + copy_size) ether_max_len) out_of_bounds
        >> ok (some (take copy_size (drop ether_hdr_len ef))))
    else ok none

unfoldable pub tloe_ether_alloc_and_init : List ℕ → List ℕ → TloeEther
tloe_ether_alloc_and_init dest_mac src_mac = record {
  sock = none;
  sll = record { sll_ifindex = 0; sll_halen = 0; sll_addr = replicate 8 0 };
  dest_mac = dest_mac;
  src_mac = src_mac;
  ether_type = tloe_ether_type;
}

-- The bytes that `sscanf` reads go to the front of the array; the result tells whether all six did.
unfoldable pub tloe_mac_str2bytes : List ℕ → List ℕ → Bool × List ℕ
tloe_mac_str2bytes scanned mac_bytes =
    (length scanned == 6, scanned ++ drop (length scanned) mac_bytes)

-- How the calls of `tloe_ether_open` are answered, `none` and `false` for an error; an index of 0 is
-- the error of `if_nametoindex`.
pub record Calls : Type 0 where
  pub socket : Option ℕ
  pub hwaddr : Option (List ℕ)
  pub fcntl : Bool
  pub ifindex : Option ℕ
  pub if_nametoindex : ℕ
  pub bind : Bool

abbrev called {ℓ} : {A : Type ℓ} → Option A → Outcome A
called none = fail exits
called (some a) = ok a

-- An error ends the program. The result of `tloe_mac_str2bytes` is not looked at.
unfoldable pub tloe_ether_open : Calls → List ℕ → List ℕ → Outcome TloeEther
unfolding tloe_mac_str2bytes tloe_ether_alloc_and_init
tloe_ether_open calls scanned dest_mac = do
  sockfd ← called calls.socket
  let dest_mac = (tloe_mac_str2bytes scanned dest_mac).1
  src_mac ← called calls.hwaddr
  let ether = tloe_ether_alloc_and_init dest_mac (take 6 src_mac)
  require calls.fcntl exits
  index ← called calls.ifindex
  require (ltb 0 calls.if_nametoindex) exits
  require calls.bind exits
  let address : SockaddrLl = record {
    sll_ifindex = index;
    sll_halen = 6;
    sll_addr = dest_mac ++ replicate 2 0;
  }
  ok (record ether { sll = address; sock = some sockfd })

-- The sockets that are closed.
unfoldable pub tloe_ether_close : Option TloeEther → List ℕ
tloe_ether_close none = []
tloe_ether_close (some ether) = elim (ether.sock) [ none ↦ [] | some sock ↦ sock ∷ [] ]

pub record TloeEtherHeader : Type 0 where
  pub dest_mac_addr : List ℕ
  pub src_mac_addr : List ℕ
  pub eth_type : ℕ

unfoldable pub set_tloe_ether : List ℕ → List ℕ → ℕ → TloeEtherHeader
set_tloe_ether dest src eth_type = record {
  dest_mac_addr = take 6 dest;
  src_mac_addr = take 6 src;
  eth_type = eth_type;
}

unfoldable pub get_tloe_ether : TloeEtherHeader
unfolding set_tloe_ether
get_tloe_ether =
    set_tloe_ether (255 ∷ 238 ∷ 221 ∷ 204 ∷ 187 ∷ 170 ∷ []) (17 ∷ 34 ∷ 51 ∷ 68 ∷ 85 ∷ 102 ∷ [])
      tloe_ether_type
