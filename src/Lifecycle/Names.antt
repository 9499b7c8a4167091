-- ===== src/Lifecycle/Names.antt =====
-- A node keeps the name that it is initialised with (c/src/raft.c, `raft_node_init`).
use raft_rx.Prelude.{ℕ, ◌≡◌, Bool, true, false, refl, ◌∙◌, ap, arith, if◌then◌else◌}
use raft_rx.Types.{Node, NodeConfig, Application}
use raft_rx.Members.{refresh_peers}
use raft_rx.Storage.{Disk, node_load}
use raft_rx.Storage.Names.{node_load-config}
use raft_rx.Lifecycle.{
  node_init, zeroed, discard_if_learner, bootstrapped, repair_threshold, needs_bootstrap,
}

module _ {S : Type 0} where
  repair_threshold-config : (n : Node S) → (repair_threshold n).config ≡ n.config
  unfolding repair_threshold
  repair_threshold-config n = ground arith

  discard_if_learner-config : (n : Node S) → (discard_if_learner n).config ≡ n.config
  unfolding discard_if_learner
  discard_if_learner-config n = ground arith

  -- The node before its peers are refreshed.
  initial : NodeConfig → Application S → S → Disk → Node S
  initial config application user d =
      discard_if_learner (repair_threshold (node_load (zeroed config application user) d))

  initial-config :
      (config : NodeConfig) (application : Application S) (user : S) (d : Disk)
      → (initial config application user d).config ≡ config
  unfolding initial zeroed
  initial-config config application user d =
      let n = node_load (zeroed config application user) d in
      discard_if_learner-config (repair_threshold n)
      ∙ repair_threshold-config n
      ∙ node_load-config (zeroed config application user) d

  bootstrapped-config :
      (n : Node S) (b : Bool) → (if b then bootstrapped n else n).config ≡ n.config
  unfolding bootstrapped
  bootstrapped-config n true = refl
  bootstrapped-config n false = refl

  pub node_init-node_id :
      (config : NodeConfig) (application : Application S) (user : S) (d : Disk) (now : ℕ)
      → (node_init config application user d now).config.node_id ≡ config.node_id
  unfolding node_init refresh_peers initial
  node_init-node_id config application user d now =
      let n1 = initial config application user d in
      ap (λ (c : NodeConfig). c.node_id)
        (bootstrapped-config n1 (needs_bootstrap n1) ∙ initial-config config application user d)
