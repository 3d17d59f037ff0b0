-- ===== src/FlowControl.antt =====
-- flowcontrol.h and flowcontrol.c: credits by channel. The arrays of `flowcontrol_t` have
-- `CHANNEL_NUM` entries; they are functions of the index here, and each access at an index that
-- comes from a frame or a message is checked, since C leaves one outside the array undefined.
-- An `int` or an `unsigned int` is its 32-bit pattern, so that -1 is `minus_one`. The build without
-- `WDE` has `wde ≡ false`.
pub mod Credits
pub mod Outgoing
use omnixtend_c.Base.{
  ℕ, zero, suc, ◌+◌, ◌-◌, ◌%◌, ◌^◌, Bool, true, false, not, ◌&&◌, ◌||◌, ◌==◌, ltb, leb,
  if◌then◌else◌, Outcome, ok, out_of_bounds, undefined, require, ◌>>=◌, ◌>>◌,
}
use omnixtend_c.TlMsg.{
  TlMsg, channel_num, channel_a, channel_b, channel_c, channel_d, channel_e, tlmsg_get_flits_cnt,
}
use omnixtend_c.Frame.{FrameHeader}

pub record Flowcontrol : Type 0 where
  pub credits : ℕ → ℕ
  pub tx_flow_credits : ℕ → ℕ
  pub inc_cnt : ℕ → ℕ
  pub inc_value : ℕ → ℕ
  pub dec_cnt : ℕ → ℕ
  pub dec_value : ℕ → ℕ

abbrev pub credit_init : ℕ
credit_init = 7

abbrev pub credit_default : ℕ
credit_default = 10

abbrev pub minus_one : ℕ
minus_one = 2 ^ 32 - 1

abbrev pub update : (ℕ → ℕ) → ℕ → ℕ → ℕ → ℕ
update f i v j = if i == j then v else f j

abbrev pub in_channels : ℕ → Outcome (Unit {0})
in_channels channel = require (ltb channel channel_num) out_of_bounds

-- an addition and a subtraction that wrap at 32 bits
abbrev pub add32 : ℕ → ℕ → ℕ
add32 a b = (a + b) % 2 ^ 32

abbrev pub sub32 : ℕ → ℕ → ℕ
sub32 a b = (a + 2 ^ 32 - b) % 2 ^ 32

unfoldable pub set_credit : Flowcontrol → ℕ → ℕ → Outcome Flowcontrol
set_credit fc channel credit = do
  in_channels channel
  ok (record fc {
    credits = update fc.credits channel (2 ^ credit % 2 ^ 32);
    tx_flow_credits = update fc.tx_flow_credits channel 0;
  })

-- The loop of `init_flowcontrol` from channel `i` on, with `n` rounds left.
unfoldable pub init_from : ℕ → ℕ → Flowcontrol → Outcome Flowcontrol
init_from zero i fc = ok fc
init_from (suc n) i fc = do
  fc ← set_credit fc i credit_init
  init_from n (i + 1) (record fc {
    inc_cnt = update fc.inc_cnt i 0;
    inc_value = update fc.inc_value i 0;
    dec_cnt = update fc.dec_cnt i 0;
    dec_value = update fc.dec_value i 0;
  })

unfoldable pub init_flowcontrol : Flowcontrol → Outcome Flowcontrol
unfolding init_from set_credit
init_flowcontrol fc = init_from channel_num 0 fc

unfoldable pub is_filled_credit : Bool → Flowcontrol → ℕ → Outcome Bool
is_filled_credit wde fc channel =
    if wde && not (channel == channel_a || channel == channel_c || channel == channel_e)
    then ok false
    else in_channels channel >> ok (ltb (2 ^ credit_init) (fc.credits channel))

unfoldable pub check_all_channels : Bool → Flowcontrol → Bool
check_all_channels wde fc =
    if wde
    then filled channel_a && filled channel_c && filled channel_e
    else filled channel_a
      && filled channel_b
      && filled channel_c
      && filled channel_d
      && filled channel_e
  where
    filled : ℕ → Bool
    filled channel = ltb (2 ^ credit_init) (fc.credits channel)

-- The comparison is of unsigned numbers, so a `credit` of -1 counts as 2 ^ 32 - 1.
unfoldable pub try_dec_credits : Flowcontrol → ℕ → ℕ → Outcome ℕ
try_dec_credits fc tl_chan credit = do
  in_channels tl_chan
  ok (if ltb (fc.credits tl_chan) credit then minus_one else fc.credits tl_chan)

unfoldable pub fc_credit_inc : Flowcontrol → FrameHeader → Outcome (ℕ × Flowcontrol)
fc_credit_inc fc header = do
  let tl_chan = header.chan
  in_channels tl_chan
  let inc_credit = if tl_chan == 0 then minus_one else 2 ^ header.credit % 2 ^ 32
  if inc_credit == minus_one
      then ok (inc_credit, fc)
      else ok (
        inc_credit,
        record fc {
          credits = update fc.credits tl_chan (add32 (fc.credits tl_chan) inc_credit);
          inc_cnt = update fc.inc_cnt tl_chan (add32 (fc.inc_cnt tl_chan) 1);
          inc_value = update fc.inc_value tl_chan (add32 (fc.inc_value tl_chan) inc_credit);
        },
      )

unfoldable pub fc_credit_dec : Flowcontrol → TlMsg → Outcome (ℕ × Flowcontrol)
unfolding try_dec_credits
fc_credit_dec fc tlmsg = do
  let tl_chan = tlmsg.header.chan
  let wanted = if tl_chan == 0 then minus_one else tlmsg_get_flits_cnt tlmsg
  available_credit ← try_dec_credits fc tl_chan wanted
  let dec_credit = if available_credit == minus_one then minus_one else wanted
  if dec_credit == minus_one
      then ok (dec_credit, fc)
      else ok (
        dec_credit,
        record fc {
          credits = update fc.credits tl_chan (sub32 (fc.credits tl_chan) dec_credit);
          dec_cnt = update fc.dec_cnt tl_chan (add32 (fc.dec_cnt tl_chan) 1);
          dec_value = update fc.dec_value tl_chan (add32 (fc.dec_value tl_chan) dec_credit);
        },
      )

unfoldable pub get_credit : Flowcontrol → ℕ → Outcome ℕ
get_credit fc channel = in_channels channel >> ok (fc.credits channel)

unfoldable pub add_channel_flow_credits : Flowcontrol → ℕ → ℕ → Outcome Flowcontrol
add_channel_flow_credits fc channel total_flits = do
  in_channels channel
  ok (record fc {
    tx_flow_credits =
        update fc.tx_flow_credits channel (add32 (fc.tx_flow_credits channel) total_flits);
  })

-- The loop of `select_max_credit_channel` from channel `i` on, with `n` rounds left.
unfoldable pub select_from : (ℕ → ℕ) → ℕ → ℕ → ℕ → ℕ → ℕ
select_from tx zero i max_credit chan = chan
select_from tx (suc n) i max_credit chan =
    let keep = leb (tx i) max_credit in
    select_from tx n (i + 1) (if keep then max_credit else tx i) (if keep then chan else i)

unfoldable pub select_max_credit_channel : Flowcontrol → ℕ
unfolding select_from
select_max_credit_channel fc = select_from fc.tx_flow_credits 5 1 (fc.tx_flow_credits 0) 0

-- `__builtin_clz`, the zeros above the highest one, counted down from bit `n` - 1; the builtin is
-- undefined at 0.
unfoldable pub clz_from : ℕ → ℕ → ℕ
clz_from zero value = 0
clz_from (suc n) value = if leb (2 ^ n) value then 0 else 1 + clz_from n value

unfoldable pub get_largest_pow : ℕ → Outcome ℕ
unfolding clz_from
get_largest_pow value = require (ltb 0 value) undefined >> ok (31 - clz_from 32 value)

unfoldable pub get_outgoing_credits : Flowcontrol → ℕ → Outcome (ℕ × Flowcontrol)
get_outgoing_credits fc chan = do
  in_channels chan
  credit ← get_largest_pow (fc.tx_flow_credits chan)
  ok (
    credit,
    record fc {
      tx_flow_credits =
          update fc.tx_flow_credits chan (sub32 (fc.tx_flow_credits chan) (2 ^ credit % 2 ^ 32));
    },
  )
