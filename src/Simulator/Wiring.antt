-- ===== src/Simulator/Wiring.antt =====
-- tloe_ns_thread.c, tloe_mq.c, tloe_endpoint.c: the queues of the simulator's ports and of the
-- endpoints that are started on them.
use omnixtend_c.Base.{
  ℕ, ◌≤◌, ◌≡◌, ap, refl, sym, ◌∙◌, arith, true, false, some, List, [], ◌∷◌, ◌++◌, length,
  length-append, take, take_all, ok,
}
use omnixtend_c.Mq.{Mqueue, TloeMq, tloe_mq_open, suffix_a, suffix_b, role_master, role_slave}
use omnixtend_c.Mq.Names.{View, IsPosix, is_queue_name, is_queue_name-append, tloe_mq_open_lem}
use omnixtend_c.Arguments.{
  option_p, option_m, option_s, Arguments, parse_arguments, parse_options, parse_option,
  check_arguments, check_fabric_type_conflict, fabric_mq,
}
use omnixtend_c.Simulator.Ports.{thread_init}

abbrev pub on_queue : List ℕ → ℕ → List ℕ → Arguments
on_queue name master role = record {
  fabric_type = some fabric_mq;
  master = some master;
  optarg_a = name;
  optarg_b = role;
}

short_name : (name : List ℕ) → length name ≤ 63 → take 63 name ≡ name
short_name name h = take_all name 63 h

parse_master :
    (name : List ℕ)
    → length name ≤ 63
    → parse_arguments 64 64 (option_p name ∷ option_m ∷ []) ≡ some (on_queue name 1 role_master)
unfolding parse_arguments parse_options parse_option check_arguments check_fabric_type_conflict
parse_master name h = ap (λ n. some (on_queue n 1 role_master)) (short_name name h)

parse_slave :
    (name : List ℕ)
    → length name ≤ 63
    → parse_arguments 64 64 (option_p name ∷ option_s ∷ []) ≡ some (on_queue name 0 role_slave)
unfolding parse_arguments parse_options parse_option check_arguments check_fabric_type_conflict
parse_slave name h = ap (λ n. some (on_queue n 0 role_slave)) (short_name name h)

-- What each end sends is what the other receives.
pub record IsWired {D : Type 0} (queue_of : D → List ℕ) (x y : TloeMq D) : Type 0 where
  pub there : queue_of x.mq_tx ≡ queue_of y.mq_rx
  pub back : queue_of y.mq_tx ≡ queue_of x.mq_rx

-- On a system as POSIX and Linux describe it, with room for eight more descriptors and with no
-- queue that its permissions close to the processes: for a queue name of at most 61 bytes, a slash
-- and characters that are none behind it, the simulator's thread opens its ports, creating their
-- queues; then endpoints started with `-p` and that name with `-a` and `-m`, and with `-b` and
-- `-s`, which create none, open theirs, and each endpoint's two queues are those of its port, with
-- sending and receiving exchanged.
pub ports-IsWired :
    {W D : Type 0} (os : Mqueue W D) (v : View W D) (posix : IsPosix os v) (queue_name : List ℕ)
    (w : W)
    → is_queue_name queue_name ≡ true
    → length queue_name ≤ 61
    → v.Free 8 w
    → (a b master slave : TloeMq D) × (for_master for_slave : Arguments) × (w1 w2 w3 : W)
      × (thread_init os queue_name w ≡ ok (record { ep_port_a = some a; ep_port_b = some b }, w1))
      × (parse_arguments 64 64 (option_p (queue_name ++ suffix_a) ∷ option_m ∷ [])
          ≡ some for_master)
      × (parse_arguments 64 64 (option_p (queue_name ++ suffix_b) ∷ option_s ∷ []) ≡ some for_slave)
      × (tloe_mq_open os for_master.optarg_a for_master.optarg_b false w1 ≡ ok (master, w2))
      × (tloe_mq_open os for_slave.optarg_a for_slave.optarg_b false w2 ≡ ok (slave, w3))
      × IsWired v.queue_of master a
      × IsWired v.queue_of slave b
unfolding thread_init
ports-IsWired os v posix queue_name w named short free =
    let name_a = queue_name ++ suffix_a in
    let name_b = queue_name ++ suffix_b in
    let la : length name_a ≤ 63 = omega (arith, length-append queue_name suffix_a) in
    let lb : length name_b ≤ 63 = omega (arith, length-append queue_name suffix_b) in
    let na = is_queue_name-append queue_name suffix_a named refl (omega (arith, short)) in
    let nb = is_queue_name-append queue_name suffix_b named refl (omega (arith, short)) in
    let (a, w0, open_a, pa) =
      tloe_mq_open_lem os v posix name_a role_slave true 6 w (omega (arith, la))
        (is_queue_name-append name_a suffix_a na refl (omega (arith, la)))
        (is_queue_name-append name_a suffix_b na refl (omega (arith, la))) free in
    let (b, w1, open_b, pb) =
      tloe_mq_open_lem os v posix name_b role_master true 4 w0 (omega (arith, lb))
        (is_queue_name-append name_b suffix_a nb refl (omega (arith, lb)))
        (is_queue_name-append name_b suffix_b nb refl (omega (arith, lb))) (pa.free) in
    let (master, w2, open_m, pm) =
      tloe_mq_open_lem os v posix name_a role_master false 2 w1 (omega (arith, la))
        (pb.others (name_a ++ suffix_a) (pa.there_a)) (pb.others (name_a ++ suffix_b) (pa.there_b))
        (pb.free) in
    let (slave, w3, open_s, ps) =
      tloe_mq_open_lem os v posix name_b role_slave false 0 w2 (omega (arith, lb))
        (pm.others (name_b ++ suffix_a) (pb.there_a)) (pm.others (name_b ++ suffix_b) (pb.there_b))
        (pm.free) in
    (
      a,
      b,
      master,
      slave,
      on_queue name_a 1 role_master,
      on_queue name_b 0 role_slave,
      w1,
      w2,
      w3,
      rw (short_name name_a la, short_name name_b lb, open_a, open_b) refl,
      parse_master name_a la,
      parse_slave name_b lb,
      open_m,
      open_s,
      record { there = pm.sends ∙ sym pa.receives; back = pa.sends ∙ sym pm.receives },
      record { there = ps.sends ∙ sym pb.receives; back = pb.sends ∙ sym ps.receives },
    )
