-- ===== src/Tests/Media.antt =====
-- Message queues that keep all packets in one list, an Ethernet interface, and command lines.
use omnixtend_c.Base.{
  ℕ, ◌≡◌, ◌≢◌, ◌⊎◌, refl, arith, true, false, inr, none, some, List, [], ◌∷◌, ◌++◌, replicate, ltb,
  lt→ltb, if◌then◌else◌, ok, All, suc, ◌+◌, ◌-◌, ◌≤◌, Bool, Bool-cases, inl, Option, ◌&&◌, ◌||◌,
  ◌==◌, ne→==, eq→==,
}
use omnixtend_c.Fifo
use omnixtend_c.Ether.{TloeEther, tloe_ether_type, ether_frame, tloe_ether_recv}
use omnixtend_c.Ether.Carried.{ether_roundtrip}
use omnixtend_c.Arguments.{
  Opt, option_i, option_d, option_p, option_m, option_s, Arguments, fabric_ether, parse_arguments,
  parse_options, parse_option, check_arguments, check_fabric_type_conflict,
}
use omnixtend_c.Arguments.Options.{Belongs}
use omnixtend_c.Arguments.Accepted.{parse_arguments_accepts, parse_arguments_sound}
use omnixtend_c.Mq.{Mqueue, TloeMq, tloe_mq_open, tloe_mq_msg_size, str_eq, suffix_a, suffix_b}
use omnixtend_c.Mq.Names.{View, IsPosix, IsOpened, Openable, is_queue_name}
use omnixtend_c.Simulator.Ports.{thread_init, tloe_ns_flush_ports}
use omnixtend_c.Simulator.Wiring.{IsWired, ports-IsWired}
use omnixtend_c.Simulator.Flush.{RefusesSmall, flush_ports_keeps}

-- The queues there are, how many descriptors can still be had, and all packets that wait.
record World : Type 0 where
  names : List (List ℕ)
  free : ℕ
  packets : List (List ℕ)

abbrev there : List ℕ → List (List ℕ) → Bool
there name [] = false
there name (other ∷ names) = str_eq name other || there name names

-- A descriptor is the name of its queue; a receive into a small buffer fails.
abbrev open_queue : List ℕ → Bool → World → Option (List ℕ) × World
open_queue name create w =
    if w.free == 0
    then (none, w)
    else if there name w.names
    then (some name, record w { free = w.free - 1 })
    else if create && is_queue_name name
    then (some name, record w { names = name ∷ w.names; free = w.free - 1 })
    else (none, w)

abbrev receive_packet : List ℕ → ℕ → World → Option (List ℕ) × World
receive_packet mq size w =
    if ltb size tloe_mq_msg_size
    then (none, w)
    else ((Fifo.pop w.packets).0, record w { packets = (Fifo.pop w.packets).1 })

abbrev os : Mqueue World (List ℕ)
os = record {
  mq_open = open_queue;
  mq_send = λ mq packet w. (true, record w { packets = w.packets ++ packet ∷ [] });
  mq_receive = receive_packet;
  mq_close = λ mq w. record w { free = w.free + 1 };
  Attr = Unit;
  nonblocking = λ a. a;
  mq_getattr = λ mq w. some tt;
  mq_setattr = λ mq a w. (true, w);
}

abbrev view : View World (List ℕ)
view = record {
  queue_of = λ mq. mq;
  Exists = λ name w. there name w.names ≡ true;
  Free = λ n w. n ≤ w.free;
}

str_eq-same : (name : List ℕ) → str_eq name name ≡ true
str_eq-same [] = refl
str_eq-same (c ∷ cs) = rw (eq→== c c refl) (str_eq-same cs)

behind-first : (b c : Bool) → c ≡ true → (b || c) ≡ true
behind-first true c h = refl
behind-first false c h = h

found :
    (name : List ℕ) (create : Bool) (n : ℕ) (w : World)
    → there name w.names ≡ true
    → suc n ≤ w.free
    → (d : List ℕ) × (w' : World) × IsOpened os view name create n w d w'
found name create n w h free = (
  name,
  record w { free = w.free - 1 },
  record {
    run = rw (ne→== w.free 0 (omega arith), h) refl;
    names = refl;
    there = h;
    others = λ other k. k;
    free = omega arith;
  },
)

made :
    (name : List ℕ) (n : ℕ) (w : World)
    → there name w.names ≡ false
    → is_queue_name name ≡ true
    → suc n ≤ w.free
    → (d : List ℕ) × (w' : World) × IsOpened os view name true n w d w'
made name n w h named free = (
  name,
  record w { names = name ∷ w.names; free = w.free - 1 },
  record {
    run = rw (ne→== w.free 0 (omega arith), h, named) refl;
    names = refl;
    there = rw (str_eq-same name) refl;
    others = λ other k. behind-first (str_eq other name) (there other w.names) k;
    free = omega arith;
  },
)

os-IsPosix : IsPosix os view
os-IsPosix = record { opens = go }
  where
    go :
        (name : List ℕ) (create : Bool) (n : ℕ) (w : World)
        → Openable os view name create w
        → view.Free (suc n) w
        → (d : List ℕ) × (w' : World) × IsOpened os view name create n w d w'
    go name false n w h free = found name false n w h free
    go name true n w h free = elim (Bool-cases (there name w.names)) [
      | inl old ↦ found name true n w old free
      | inr new ↦ made name n w new h free
    ]

abbrev empty_world : World
empty_world = record { names = []; free = 8; packets = [] }

abbrev one_packet : World
one_packet = record { names = []; free = 0; packets = (7 ∷ []) ∷ [] }

os-RefusesSmall : RefusesSmall os (λ mq w. w.packets)
os-RefusesSmall = record {
  receive = λ mq size w h. rw (lt→ltb size tloe_mq_msg_size h) refl;
  setattr = λ mq mq' a w. refl;
}

abbrev port : TloeMq (List ℕ)
port = record { mq_tx = 113 ∷ suffix_a; mq_rx = 113 ∷ suffix_b }

flush_ports_keeps_example :
    (tloe_ns_flush_ports os 1 false port port one_packet).packets ≡ (7 ∷ []) ∷ []
flush_ports_keeps_example =
    flush_ports_keeps os (λ mq w. w.packets) os-RefusesSmall 0 false port port (113 ∷ suffix_a)
      one_packet

-- the queue name `/q`
ports-IsWired_example :
    (a b master slave : TloeMq (List ℕ)) × (for_master for_slave : Arguments) × (w1 w2 w3 : World)
    × (thread_init os (47 ∷ 113 ∷ []) empty_world
        ≡ ok (record { ep_port_a = some a; ep_port_b = some b }, w1))
    × (parse_arguments 64 64 (option_p (47 ∷ 113 ∷ suffix_a) ∷ option_m ∷ []) ≡ some for_master)
    × (parse_arguments 64 64 (option_p (47 ∷ 113 ∷ suffix_b) ∷ option_s ∷ []) ≡ some for_slave)
    × (tloe_mq_open os for_master.optarg_a for_master.optarg_b false w1 ≡ ok (master, w2))
    × (tloe_mq_open os for_slave.optarg_a for_slave.optarg_b false w2 ≡ ok (slave, w3))
    × IsWired (λ mq. mq) master a
    × IsWired (λ mq. mq) slave b
ports-IsWired_example =
    ports-IsWired os view os-IsPosix (47 ∷ 113 ∷ []) empty_world refl (omega arith) (omega arith)

-- `-i e -m -d 0 -s`, of which the last role counts.
abbrev command_line : List Opt
command_line = option_i (101 ∷ []) ∷ option_m ∷ option_d (48 ∷ []) ∷ option_s ∷ []

abbrev ethernet_slave : Arguments
ethernet_slave = record {
  fabric_type = some fabric_ether;
  master = some 0;
  optarg_a = 101 ∷ [];
  optarg_b = 48 ∷ [];
}

parse_arguments_accepts_example : parse_arguments 64 64 command_line ≡ some ethernet_slave
parse_arguments_accepts_example =
    parse_arguments_accepts 64 64 fabric_ether 0 command_line (refl, (tt, (refl, (tt, tt)))) refl
      refl (inr (refl, refl))

parse_arguments_sound_example :
    (t m : ℕ) × (some fabric_ether ≡ some t)
    × (some 0 ≡ some m)
    × All (Belongs t) command_line
    × ((t ≢ fabric_ether) ⊎ ((false ≡ false) × (false ≡ false)))
unfolding parse_arguments parse_options parse_option check_arguments check_fabric_type_conflict
parse_arguments_sound_example = parse_arguments_sound 64 64 command_line ethernet_slave refl

abbrev ether : TloeEther
ether = record {
  sock = some 3;
  sll = record { sll_ifindex = 2; sll_halen = 6; sll_addr = replicate 8 1 };
  dest_mac = replicate 6 1;
  src_mac = replicate 6 2;
  ether_type = tloe_ether_type;
}

-- Sixty bytes are not padded.
ether_roundtrip_example :
    tloe_ether_recv
      (replicate 1518 5)
      1500
      (some (ether_frame ether (replicate 60 9) (replicate 1518 0)))
    ≡ ok (some (replicate 60 9))
ether_roundtrip_example =
    ether_roundtrip ether (record { dest = refl; src = refl; type = refl }) (replicate 60 9)
      (replicate 1518 0) (replicate 1518 5) 1500 (omega arith) refl (omega arith) (omega arith)
