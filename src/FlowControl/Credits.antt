-- ===== src/FlowControl/Credits.antt =====
-- The credits that a sender spends and a receiver grants.
use native.Mathlib.Nat.{pow-suc}
use omnixtend_c.Base.{
  ℕ, suc, ◌+◌, ◌-◌, ap, ◌%◌, ◌^◌, ◌≤◌, ◌<◌, ◌≡◌, ◌≢◌, refl, ◌⊎◌, arith, zero, ◌==◌, if◌then◌else◌,
  ok, fail, out_of_bounds,
}
use omnixtend_c.TlMsg.{TlMsg, channel_num, tlmsg_get_flits_cnt, convert_size_to_flits}
use omnixtend_c.TlMsg.Sizes.{flits-total, total_size-le}
use omnixtend_c.Frame.{FrameHeader}
use omnixtend_c.FlowControl.{
  Flowcontrol, minus_one, update, add32, sub32, fc_credit_inc, fc_credit_dec,
}

-- What a call of `fc_credit_dec` has done when it has spent `n` credits of channel `c`.
pub record Spent (fc : Flowcontrol) (c n : ℕ) (fc' : Flowcontrol) : Type 0 where
  pub covered : n ≤ fc.credits c
  pub paid : fc'.credits c + n ≡ fc.credits c
  pub channels : fc'.credits ≡ update fc.credits c (fc.credits c - n)
  pub returns : fc'.tx_flow_credits ≡ fc.tx_flow_credits

pub flits-lt : (m : TlMsg) → m.header.size < 16 → tlmsg_get_flits_cnt m < minus_one
unfolding convert_size_to_flits
flits-lt m h = omega (arith, flits-total m, total_size-le m h)

abbrev spend : Flowcontrol → ℕ → ℕ → Flowcontrol
spend fc c n = record fc {
  credits = update fc.credits c (sub32 (fc.credits c) n);
  dec_cnt = update fc.dec_cnt c (add32 (fc.dec_cnt c) 1);
  dec_value = update fc.dec_value c (add32 (fc.dec_value c) n);
}

spend-Spent :
    (fc : Flowcontrol) (c n : ℕ)
    → n ≤ fc.credits c
    → fc.credits c < 2 ^ 32
    → Spent fc c n (spend fc c n)
spend-Spent fc c n h k = record {
  covered = h;
  paid = ground arith;
  channels = ap (update fc.credits c) (omega arith);
  returns = refl;
}

module _ (fc : Flowcontrol) (m : TlMsg) (hc : m.header.chan < channel_num) (hs : m.header.size < 16)
    (hb : fc.credits m.header.chan < minus_one) where
  -- For a message on a channel of the arrays other than 0, with a size field of four bits and fewer
  -- than 2 ^ 32 - 1 credits, that has no more flits than the channel has credits, `fc_credit_dec`
  -- returns the number of flits and takes it off the channel, with no wrap and no change to other
  -- channels or to what is owed to the peer.
  pub credit_dec_spends :
      m.header.chan ≢ 0
      → tlmsg_get_flits_cnt m ≤ fc.credits m.header.chan
      → (fc' : Flowcontrol) × (fc_credit_dec fc m ≡ ok (tlmsg_get_flits_cnt m, fc'))
        × Spent fc m.header.chan (tlmsg_get_flits_cnt m) fc'
  unfolding fc_credit_dec
  credit_dec_spends ne le = (
    spend fc m.header.chan (tlmsg_get_flits_cnt m),
    ground (arith, flits-lt m hs),
    spend-Spent fc m.header.chan (tlmsg_get_flits_cnt m) le (omega arith),
  )

  -- For a message on channel 0, or on a channel of the arrays with fewer credits than the message
  -- has flits, with a size field of four bits and fewer than 2 ^ 32 - 1 credits, `fc_credit_dec`
  -- returns -1 and changes nothing.
  pub credit_dec_refuses :
      (m.header.chan ≡ 0) ⊎ (fc.credits m.header.chan < tlmsg_get_flits_cnt m)
      → fc_credit_dec fc m ≡ ok (minus_one, fc)
  unfolding fc_credit_dec
  credit_dec_refuses short = ground (arith, flits-lt m hs)

-- A frame with a channel of 6 or more makes `fc_credit_inc` access memory outside its arrays.
pub credit_inc_out_of_bounds :
    (fc : Flowcontrol) (h : FrameHeader)
    → channel_num ≤ h.chan
    → fc_credit_inc fc h ≡ fail out_of_bounds
unfolding fc_credit_inc
credit_inc_out_of_bounds fc h k = ground arith

-- Credits held and spent against credits given at first and granted since, modulo 2 ^ 32.
abbrev pub Balanced : (ℕ → ℕ) → Flowcontrol → Type 0
Balanced base fc =
    (c : ℕ) → (fc.credits c + fc.dec_value c) % 2 ^ 32 ≡ (base c + fc.inc_value c) % 2 ^ 32

-- A return of `fc_credit_inc` keeps the account: on each channel, credits and the sum of those
-- spent agree with those given at first and the sum of those granted, modulo 2 ^ 32.
pub credit_inc-Balanced :
    (base : ℕ → ℕ) (fc fc' : Flowcontrol) (h : FrameHeader) (r : ℕ)
    → Balanced base fc
    → fc_credit_inc fc h ≡ ok (r, fc')
    → Balanced base fc'
unfolding fc_credit_inc
credit_inc-Balanced base fc fc' h r b e c = ground (arith, b c)

-- A return of `fc_credit_dec` keeps the account of credits held, spent, given at first and granted
-- on each channel, modulo 2 ^ 32, if the message's channel has fewer than 2 ^ 32 credits.
pub credit_dec-Balanced :
    (base : ℕ → ℕ) (fc fc' : Flowcontrol) (m : TlMsg) (r : ℕ)
    → Balanced base fc
    → fc.credits m.header.chan < 2 ^ 32
    → fc_credit_dec fc m ≡ ok (r, fc')
    → Balanced base fc'
unfolding fc_credit_dec
credit_dec-Balanced base fc fc' m r b k e c = ground (arith, b c)

-- What `fc_credit_inc` comes to inside the arrays.
abbrev granted : Flowcontrol → FrameHeader → Flowcontrol
granted fc h = if h.chan == 0 then fc else record fc {
  credits = update fc.credits h.chan (add32 (fc.credits h.chan) (2 ^ h.credit % 2 ^ 32));
  inc_cnt = update fc.inc_cnt h.chan (add32 (fc.inc_cnt h.chan) 1);
  inc_value = update fc.inc_value h.chan (add32 (fc.inc_value h.chan) (2 ^ h.credit % 2 ^ 32));
}

not_minus_one : (n : ℕ) → 2 ^ n % 2 ^ 32 ≢ minus_one
not_minus_one zero = omega arith
not_minus_one (suc n) = omega (arith, pow-suc 2 n)

-- For a frame whose channel is inside the arrays `fc_credit_inc` returns: the channel, if it is not
-- 0, gains 2 ^ credit modulo 2 ^ 32, and the other channels and what is owed to the peer stay.
pub credit_inc_lem :
    (fc : Flowcontrol) (h : FrameHeader)
    → h.chan < channel_num
    → (r : ℕ) × (fc' : Flowcontrol) × (fc_credit_inc fc h ≡ ok (r, fc'))
      × (fc'.credits ≡ (
          if h.chan == 0
          then fc.credits
          else update fc.credits h.chan ((fc.credits h.chan + 2 ^ h.credit % 2 ^ 32) % 2 ^ 32)))
      × (fc'.tx_flow_credits ≡ fc.tx_flow_credits)
unfolding fc_credit_inc
credit_inc_lem fc h k = (
  (if h.chan == 0 then minus_one else 2 ^ h.credit % 2 ^ 32),
  granted fc h,
  ground (arith, not_minus_one h.credit),
  ground arith,
  ground arith,
)
