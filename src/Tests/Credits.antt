-- ===== src/Tests/Credits.antt =====
-- An endpoint with 100 credits on each channel, which owes 11.
use omnixtend_c.Base.{ℕ, ◌+◌, ◌-◌, ◌^◌, ◌<◌, ◌≡◌, refl, arith, inr, ok}
use omnixtend_c.TlMsg.{
  tlmsg_get_flits_cnt, tlmsg_get_header_size, tlmsg_get_data_size, convert_size_to_flits,
}
use omnixtend_c.FlowControl.{
  Flowcontrol, minus_one, update, fc_credit_inc, fc_credit_dec, get_outgoing_credits,
}
use omnixtend_c.FlowControl.Credits.{
  Spent, Balanced, credit_dec_spends, credit_dec_refuses, credit_inc_lem, credit_inc-Balanced,
  credit_dec-Balanced,
}
use omnixtend_c.FlowControl.Outgoing.{outgoing_lem}
use omnixtend_c.Tests.Data.{put, flow, frame_header}

credit_dec_spends_example :
    (fc : Flowcontrol) × (fc_credit_dec flow put ≡ ok (tlmsg_get_flits_cnt put, fc))
    × Spent flow 1 (tlmsg_get_flits_cnt put) fc
unfolding tlmsg_get_flits_cnt tlmsg_get_header_size tlmsg_get_data_size convert_size_to_flits
credit_dec_spends_example =
    credit_dec_spends flow put (omega arith) (omega arith) (omega arith) (omega arith) (omega arith)

abbrev poor : Flowcontrol
poor = record flow { credits = λ c. 2 }

credit_dec_refuses_example : fc_credit_dec poor put ≡ ok (minus_one, poor)
unfolding tlmsg_get_flits_cnt tlmsg_get_header_size tlmsg_get_data_size convert_size_to_flits
credit_dec_refuses_example =
    credit_dec_refuses poor put (omega arith) (omega arith) (omega arith) (inr (omega arith))

credit_inc_lem_example :
    (r : ℕ) × (fc : Flowcontrol) × (fc_credit_inc flow (frame_header 3 4) ≡ ok (r, fc))
    × (fc.credits ≡ update flow.credits 1 116)
    × (fc.tx_flow_credits ≡ flow.tx_flow_credits)
credit_inc_lem_example = credit_inc_lem flow (frame_header 3 4) (omega arith)

flow-Balanced : Balanced flow.credits flow
flow-Balanced c = refl

abbrev richer : Flowcontrol
richer = record flow {
  credits = update flow.credits 1 116;
  inc_cnt = update flow.inc_cnt 1 1;
  inc_value = update flow.inc_value 1 16;
}

credit_inc-Balanced_example : Balanced flow.credits richer
unfolding fc_credit_inc
credit_inc-Balanced_example =
    credit_inc-Balanced flow.credits flow richer (frame_header 3 4) 16 flow-Balanced refl

abbrev poorer : Flowcontrol
poorer = record flow {
  credits = update flow.credits 1 97;
  dec_cnt = update flow.dec_cnt 1 1;
  dec_value = update flow.dec_value 1 3;
}

credit_dec-Balanced_example : Balanced flow.credits poorer
unfolding fc_credit_dec tlmsg_get_flits_cnt tlmsg_get_header_size tlmsg_get_data_size
    convert_size_to_flits
credit_dec-Balanced_example =
    credit_dec-Balanced flow.credits flow poorer put 3 flow-Balanced (omega arith) refl

outgoing_lem_example :
    (r : ℕ) × (fc : Flowcontrol) × (get_outgoing_credits flow 2 ≡ ok (r, fc))
    × (r < 32)
    × (fc.tx_flow_credits 2 + 2 ^ r ≡ 11)
    × (fc.tx_flow_credits 2 < 2 ^ r)
    × (fc.tx_flow_credits ≡ update flow.tx_flow_credits 2 (11 - 2 ^ r))
    × (fc.credits ≡ flow.credits)
outgoing_lem_example = outgoing_lem flow 2 (omega arith) (omega arith) (omega arith)
