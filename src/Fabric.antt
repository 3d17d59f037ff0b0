-- ===== src/Fabric.antt =====
-- tloe_fabric.h and tloe_fabric.c: the choice of the medium. The functions of a medium act on a world
-- `W` and on handles `H`, to which a `void *` points; those of the message queues are tloe_mq.c's.
-- Strings are as in tloe_mq.c.
use omnixtend_c.Base.{
  ℕ, Bool, true, false, Option, none, some, List, [], ◌==◌, if◌then◌else◌, Outcome, ok, ◌>>=◌,
}
use omnixtend_c.Arguments.{fabric_ether, fabric_mq}
use omnixtend_c.Mq.{Mqueue, TloeMq, tloe_mq_send, tloe_mq_recv, tloe_mq_open, tloe_mq_close}

-- The function pointers of a `tloe_fabric_ops_t`. The size that `send` returns is only looked at for
-- an error.
pub record Medium (W H : Type 0) : Type 0 where
  pub send : H → List ℕ → W → Bool × W
  pub recv : H → ℕ → W → Outcome (Option (List ℕ) × W)
  pub open_ : List ℕ → List ℕ → Bool → W → Outcome (H × W)
  pub close : H → W → W

-- The wrappers of the message queues.
abbrev pub mq_ops : {W D : Type 0} → Mqueue W D → Medium W (TloeMq D)
mq_ops os = record {
  send = tloe_mq_send os;
  recv = tloe_mq_recv os;
  open_ = tloe_mq_open os;
  close = λ mq w. tloe_mq_close os (some mq) w;
}

-- `fabric_ops` of an endpoint; the functions are NULL before `tloe_fabric_init`.
pub record FabricOps (W H : Type 0) : Type 0 where
  pub functions : Option (Medium W H)
  pub handle : Option H
  pub type : ℕ
  pub dev_name : List ℕ
  pub dev_opt : List ℕ

abbrev initial : {W H : Type 0} → Medium W H → ℕ → FabricOps W H
initial medium type = record {
  functions = some medium;
  handle = none;
  type = type;
  dev_name = [];
  dev_opt = [];
}

module _ {W H : Type 0} where
  -- `true` for the result 0.
  unfoldable pub tloe_fabric_init :
      Medium W H → Medium W H → FabricOps W H → ℕ → Bool × FabricOps W H
  tloe_fabric_init ether mq ops media_type =
      if media_type == fabric_ether
      then (true, initial ether fabric_ether)
      else if media_type == fabric_mq
      then (true, initial mq fabric_mq)
      else (false, ops)

  unfoldable pub tloe_fabric_send : FabricOps W H → List ℕ → W → Bool × W
  tloe_fabric_send ops packet w = elim (ops.functions) [
    | none ↦ (false, w)
    | some medium ↦ elim (ops.handle) [
      | none ↦ (false, w)
      | some handle ↦ medium.send handle packet w
    ]
  ]

  unfoldable pub tloe_fabric_recv : FabricOps W H → ℕ → W → Outcome (Option (List ℕ) × W)
  tloe_fabric_recv ops len w = elim (ops.functions) [
    | none ↦ ok (none, w)
    | some medium ↦ elim (ops.handle) [
      | none ↦ ok (none, w)
      | some handle ↦ medium.recv handle len w
    ]
  ]

  -- `true` for the result 0. Neither medium gives a NULL.
  unfoldable pub tloe_fabric_open :
      FabricOps W H → List ℕ → List ℕ → Bool → W → Outcome (Bool × FabricOps W H × W)
  tloe_fabric_open ops dev_name dev_opt qp w = elim (ops.functions) [
    | none ↦ ok (false, ops, w)
    | some medium ↦ medium.open_ dev_name dev_opt qp w >>= λ r.
        ok (true, record ops { dev_name = dev_name; dev_opt = dev_opt; handle = some r.0 }, r.1)
  ]

  unfoldable pub tloe_fabric_close : FabricOps W H → W → FabricOps W H × W
  tloe_fabric_close ops w = elim (ops.functions) [
    | none ↦ (ops, w)
    | some medium ↦ elim (ops.handle) [
      | none ↦ (ops, w)
      | some handle ↦ (record ops { handle = none }, medium.close handle w)
    ]
  ]
