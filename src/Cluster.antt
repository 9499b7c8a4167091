-- ===== src/Cluster.antt =====
-- A cluster in one process (c/src/raft.c): `raft_cluster_init`, `raft_cluster_enable_realtime_clock`,
-- `raft_cluster_add_node`, `raft_cluster_tick`, `raft_cluster_leader`. The rxnet runtime is the
-- parameter `Machines`; a node is its position in the array.
pub mod Nodes
use raft_rx.Prelude.{
  ℕ, zero, suc, ◌+◌, ◌*◌, ◌/◌, Bool, true, false, Option, none, some, List, [], ◌∷◌, ◌++◌,
  if◌then◌else◌, leb, length,
}
use raft_rx.Types.{Node, NodeConfig, Application, max_nodes}
use raft_rx.Members.{is_leader}
use raft_rx.Storage.{Disk}
use raft_rx.Lifecycle.{node_init}
use raft_rx.Memory.{Memory, init, register_node}

-- raft_cluster_t, with the runtime that it points to.
pub record Cluster (S R : Type 0) : Type 0 where
  pub nodes : List (Node S)
  pub clock_ms : ℕ
  pub transport : Memory
  pub realtime_clock : Bool
  pub runtime : R

-- rx_fsm_runtime_add_machine, for the node at a position and a period, and rx_fsm_tick, which runs the
-- machines that are due; true is 0.
pub record Machines (S R : Type 0) : Type 0 where
  pub add_machine : R → ℕ → ℕ → R × Bool
  pub run_due : Cluster S R → Cluster S R × Bool

-- The loop of `raft_cluster_leader`.
module _ {S : Type 0} where
  unfoldable pub leader_from : ℕ → List (Node S) → Option ℕ
  leader_from i [] = none
  leader_from i (n ∷ ns) = let rest = leader_from (i + 1) ns in if is_leader n then some i else rest

module _ {S R : Type 0} where
  unfoldable pub cluster_init : R → Cluster S R
  cluster_init runtime = record {
    nodes = [];
    clock_ms = 0;
    transport = init;
    realtime_clock = false;
    runtime = runtime;
  }

  -- CLOCK_MONOTONIC reads `sec` and `nsec`.
  unfoldable pub enable_realtime_clock : Cluster S R → ℕ → ℕ → Cluster S R
  enable_realtime_clock c sec nsec = record c {
    clock_ms = sec * 1000 + nsec / 1000000;
    realtime_clock = true;
  }

  unfoldable pub cluster_leader : Cluster S R → Option ℕ
  unfolding leader_from
  cluster_leader c = leader_from 0 c.nodes

module _ {S R : Type 0} (machines : Machines S R) where
  -- The disk is what `root_dir` holds; the result is `none` for NULL.
  unfoldable pub add_node :
      Cluster S R → NodeConfig → Disk → Application S → S → ℕ → Cluster S R × Option ℕ
  add_node c config d application user period_us =
      let at = length c.nodes in
      if leb max_nodes at
      then (c, none)
      else (let node = node_init config application user d c.clock_ms in
          let (runtime, added) = machines.add_machine c.runtime at period_us in
          (
            record c {
              nodes = c.nodes ++ node ∷ [];
              transport = (register_node c.transport config.node_id).0;
              runtime = runtime;
            },
            if added then some at else none,
          ))

  unfoldable pub cluster_tick : Cluster S R → ℕ → Cluster S R × Bool
  cluster_tick c advance_ms = machines.run_due (record c { clock_ms = c.clock_ms + advance_ms })
