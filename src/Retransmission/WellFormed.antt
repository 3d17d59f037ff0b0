-- ===== src/Retransmission/WellFormed.antt =====
-- `retransmit` and `slide_window` keep what holds of an endpoint.
use omnixtend_c.Base.{
  ℕ, ◌≡◌, sym, ◌∙◌, Bool, true, false, List, [], ◌∷◌, ◌++◌, Outcome, ok, fail, Ensures,
  Ensures-bind, Ensures-skip, Ensures-if, if◌then◌else◌, is_negative,
}
use omnixtend_c.Frame.{Frame, tloe_frame_to_packet}
use omnixtend_c.SeqNum.{tloe_seqnum_cmp}
use omnixtend_c.CircularQueue.{CircularQueue, traverse}
use omnixtend_c.CircularQueue.Contents.{IsValid, contents, length-contents-lt}
use omnixtend_c.CircularQueue.Traverse.{map_accum, Traverses, traverse_lem}
use omnixtend_c.Endpoint.{
  Endpoint, RetransmitBufferElement, tloe_fabric_send, tloe_seqnum_set_seq_num_ack,
}
use omnixtend_c.Endpoint.WellFormed.{IsWellFormed, with_window}
use omnixtend_c.Retransmission.{retransmit_one, retransmit, slide_window}
use omnixtend_c.Retransmission.Window.{slide_from_lem}

module _ {ℓ κ μ} {A : Type ℓ} {S : Type κ} (body : A → S → Outcome (A × S)) (P : S → Type μ)
    (keep : (a : A) (s : S) → P s → Ensures (λ r. P r.1) (body a s)) where
  map_accum-Ensures : (l : List A) (s : S) → P s → Ensures (λ t. P t.1) (map_accum body l s)
  unfolding map_accum
  map_accum-Ensures [] s h = h
  map_accum-Ensures (a ∷ l) s h =
      Ensures-bind (λ r. P r.1) (λ t. P t.1) (body a s) _ (keep a s h)
        (λ r h'.
          Ensures-bind (λ t. P t.1) (λ t. P t.1) (map_accum body l r.1) _
            (map_accum-Ensures l r.1 h') (λ t h''. h''))

  abbrev Traversed : CircularQueue A → CircularQueue A × S → Type (ℓ ⊔ μ)
  Traversed q r = IsValid r.0 × (r.0.size ≡ q.size) × P r.1

  -- The loop over a queue keeps what its body keeps.
  pub traverse-Ensures :
      (q : CircularQueue A) (s : S) → IsValid q → P s → Ensures (Traversed q) (traverse body q s)
  traverse-Ensures q s v h =
      go (map_accum body (contents q) s) (traverse body q s) (map_accum-Ensures (contents q) s h)
        (traverse_lem body q s v)
    where
      go :
          (o : Outcome (List A × S)) (r : Outcome (CircularQueue A × S))
          → Ensures (λ t. P t.1) o
          → Traverses body q o r
          → Ensures (Traversed q) r
      go (fail e) r h t = rw t tt
      go (ok l) r h (q', e, w, c, z, f, b) = rw e (w, z, h)

pub fabric_send-IsWellFormed :
    (e : Endpoint) (p : List ℕ) → IsWellFormed e → IsWellFormed (tloe_fabric_send e p)
unfolding tloe_fabric_send
fabric_send-IsWellFormed e p w = go (e.handle_open)
  where
    go : (b : Bool) → IsWellFormed (if b then record e { wire = e.wire ++ p ∷ [] } else e)
    go true = w
    go false = w

pub retransmit-IsWellFormed :
    (e : Endpoint) (seq_num : ℕ) → IsWellFormed e → Ensures IsWellFormed (retransmit e seq_num)
unfolding retransmit retransmit_one
retransmit-IsWellFormed e seq_num w =
    Ensures-bind _ IsWellFormed (traverse (retransmit_one seq_num) e.retransmit_buffer e) _
      (traverse-Ensures (retransmit_one seq_num) IsWellFormed one e.retransmit_buffer e
        w.window_valid w)
      (λ r h. with_window h.2 h.0 (h.1 ∙ w.window_slots ∙ sym (h.2.window_slots)))
  where
    one :
        (r : RetransmitBufferElement) (e : Endpoint)
        → IsWellFormed e
        → Ensures (λ t. IsWellFormed t.1) (retransmit_one seq_num r e)
    one r e w =
        Ensures-if _ (is_negative (tloe_seqnum_cmp r.tloe_frame.header.seq_num seq_num)) _ _ w (
          Ensures-skip _
            (tloe_frame_to_packet (tloe_seqnum_set_seq_num_ack r.tloe_frame e) r.f_size) _
            (λ p. fabric_send-IsWellFormed e p w))

pub slide_window-IsWellFormed :
    (e : Endpoint) (f : Frame) → IsWellFormed e → IsWellFormed (slide_window e f)
unfolding slide_window
slide_window-IsWellFormed e f w =
    let q = e.retransmit_buffer in
    let (v, c, z) =
      slide_from_lem q.size q f.header.seq_num_ack w.window_valid
        (length-contents-lt q w.window_valid) in
    with_window w v z
