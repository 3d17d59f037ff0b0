-- ===== src/Handler/Storage.antt =====
-- What the handlers of a write and of a read do to the memory.
use omnixtend_c.Base.{
  ℕ, zero, suc, ◌+◌, ◌%◌, ◌^◌, ◌≤◌, ◌<◌, ◌≡◌, refl, ap, ◌∙◌, arith, List, [], ◌∷◌, ne→==, eq→==,
  length, take, drop, take_all, length-drop, ok, ◌⊎◌, inl, inr,
}
use omnixtend_c.Memory.{le_value}
use omnixtend_c.Memory.Laws.{le→leb, read_bytes_lem}
use omnixtend_c.TlMsg.{
  TlMsg, channel_a, a_putfulldata_opcode, a_get_opcode, d_accessack_opcode, d_accessackdata_opcode,
}
use omnixtend_c.Endpoint.{Endpoint}
use omnixtend_c.Handler.{
  Memory, mem_size, load_from, store_at, response_header, respond, mem_offset_of,
  handle_a_putfulldata_opcode, handle_a_get_opcode, tl_handler_table,
}

store_at-before :
    (mem : Memory) (off : ℕ) (bytes : List ℕ) (i : ℕ) → i < off → store_at mem off bytes i ≡ mem i
unfolding store_at
store_at-before mem off [] i h = refl
store_at-before mem off (b ∷ bytes) i h =
    rw (ne→== i off (omega arith)) (store_at-before mem (off + 1) bytes i (omega arith))

store_at-behind :
    (mem : Memory) (off : ℕ) (bytes : List ℕ) (i : ℕ)
    → off + length bytes ≤ i
    → store_at mem off bytes i ≡ mem i
unfolding store_at
store_at-behind mem off [] i h = refl
store_at-behind mem off (b ∷ bytes) i h =
    rw (ne→== i off (omega arith)) (store_at-behind mem (off + 1) bytes i (omega arith))

-- A read sees only the bytes that it covers.
load_from-ext :
    (mem mem' : Memory) (off n : ℕ)
    → ((i : ℕ) → off ≤ i → mem i ≡ mem' i)
    → load_from mem off n ≡ load_from mem' off n
unfolding load_from
load_from-ext mem mem' off zero h = refl
load_from-ext mem mem' off (suc n) h =
    rw (h off (omega arith), load_from-ext mem mem' (off + 1) n (λ i k. h i (omega arith))) refl

load_from-store_at :
    (mem : Memory) (off : ℕ) (bytes : List ℕ)
    → load_from (store_at mem off bytes) off (length bytes) ≡ bytes
unfolding load_from store_at
load_from-store_at mem off [] = refl
load_from-store_at mem off (b ∷ bytes) =
    rw
      (
        eq→== off off refl,
        load_from-ext (store_at mem off (b ∷ bytes)) (store_at mem (off + 1) bytes) (off + 1)
            (length bytes) (λ i k. rw (ne→== i off (omega arith)) refl),
        load_from-store_at mem (off + 1) bytes,
      )
      refl

-- the offset in memory that a request's address means
abbrev pub offset_of : TlMsg → ℕ
offset_of tl = le_value (take 8 tl.payload) % mem_size

mem_offset_lem :
    (tl : TlMsg)
    → 8 ≤ length tl.payload
    → offset_of tl + 2 ^ tl.header.size ≤ mem_size
    → mem_offset_of tl ≡ ok (offset_of tl)
unfolding mem_offset_of
mem_offset_lem tl h k = rw (read_bytes_lem tl.payload 0 8 h, le→leb _ _ k) refl

pub put_lem :
    (e : Endpoint) (mem : Memory) (put : TlMsg)
    → put.header.chan ≡ channel_a
    → put.header.opcode ≡ a_putfulldata_opcode
    → length put.payload ≡ 8 + 2 ^ put.header.size
    → offset_of put + 2 ^ put.header.size ≤ mem_size
    → tl_handler_table put.header.chan put.header.opcode e mem put
      ≡ ok (
        respond e (record {
          header = response_header d_accessack_opcode 0 put.header.source;
          payload = [];
        }),
        store_at mem (offset_of put) (drop 8 put.payload),
      )
unfolding tl_handler_table handle_a_putfulldata_opcode
put_lem e mem put hc ho hl hb =
    rw
      (
        hc,
        ho,
        mem_offset_lem put (omega (arith, hl)) hb,
        read_bytes_lem put.payload 8 (2 ^ put.header.size) (omega (arith, hl)),
        take_all (drop 8 put.payload) (2 ^ put.header.size)
            (omega (arith, hl, length-drop 8 put.payload)),
      )
      refl

pub get_lem :
    (e : Endpoint) (mem : Memory) (get : TlMsg)
    → get.header.chan ≡ channel_a
    → get.header.opcode ≡ a_get_opcode
    → 8 ≤ length get.payload
    → offset_of get + 2 ^ get.header.size ≤ mem_size
    → tl_handler_table get.header.chan get.header.opcode e mem get
      ≡ ok (
        respond e (record {
          header = response_header d_accessackdata_opcode get.header.size get.header.source;
          payload = load_from mem (offset_of get) (2 ^ get.header.size);
        }),
        mem,
      )
unfolding tl_handler_table handle_a_get_opcode
get_lem e mem get hc ho hl hb = rw (hc, ho, mem_offset_lem get hl hb) refl

-- A write (PutFullData on channel A) of as many bytes as its size says, inside the memory, is
-- answered by an acknowledgement to its source. A read (Get on channel A) of the same size and
-- address in the memory that this leaves, by whatever endpoint, is answered by the data written,
-- and a byte in front of or behind the data is as before.
pub write_then_read :
    (e e' : Endpoint) (mem : Memory) (put get : TlMsg) (i : ℕ)
    → put.header.chan ≡ channel_a
    → put.header.opcode ≡ a_putfulldata_opcode
    → length put.payload ≡ 8 + 2 ^ put.header.size
    → offset_of put + 2 ^ put.header.size ≤ mem_size
    → get.header.chan ≡ channel_a
    → get.header.opcode ≡ a_get_opcode
    → get.header.size ≡ put.header.size
    → 8 ≤ length get.payload
    → take 8 get.payload ≡ take 8 put.payload
    → (i < offset_of put) ⊎ (offset_of put + 2 ^ put.header.size ≤ i)
    → (mem' : Memory) × (tl_handler_table put.header.chan put.header.opcode e mem put
        ≡ ok (
          respond e (record {
            header = response_header d_accessack_opcode 0 put.header.source;
            payload = [];
          }),
          mem',
        ))
      × (tl_handler_table get.header.chan get.header.opcode e' mem' get
          ≡ ok (
            respond e' (record {
              header = response_header d_accessackdata_opcode get.header.size get.header.source;
              payload = drop 8 put.payload;
            }),
            mem',
          ))
      × (mem' i ≡ mem i)
write_then_read e e' mem put get i pc po pl pb gc go gs gl ga away = (
  mem',
  put_lem e mem put pc po pl pb,
  get_lem e' mem' get gc go gl (rw (same, gs) pb)
      ∙ ap
          (λ d. ok (
            respond e' (record {
              header = response_header d_accessackdata_opcode get.header.size get.header.source;
              payload = d;
            }),
            mem',
          ))
          loaded,
  outside away,
)
  where
    bytes : List ℕ
    bytes = drop 8 put.payload

    size : length bytes ≡ 2 ^ put.header.size
    size = omega (arith, pl, length-drop 8 put.payload)

    mem' : Memory
    mem' = store_at mem (offset_of put) bytes

    same : offset_of get ≡ offset_of put
    same = ap (λ w. le_value w % mem_size) ga

    loaded : load_from mem' (offset_of get) (2 ^ get.header.size) ≡ bytes
    loaded = rw (same, gs, ← size) (load_from-store_at mem (offset_of put) bytes)

    outside : (i < offset_of put) ⊎ (offset_of put + 2 ^ put.header.size ≤ i) → mem' i ≡ mem i
    outside (inl h) = store_at-before mem (offset_of put) bytes i h
    outside (inr h) = store_at-behind mem (offset_of put) bytes i (rw size h)
