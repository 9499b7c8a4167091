-- ===== src/Lifecycle.antt =====
-- The life of a node (c/src/raft.c): `raft_node_init`, `raft_node_stop`, `raft_node_start`,
-- `raft_node_reset_for_join`, `raft_node_submit_command`.
pub mod Names
use raft_rx.Prelude.{
  ℕ, ◌+◌, ◌*◌, Bool, true, false, not, ◌&&◌, ◌||◌, none, some, List, [], ◌∷◌, map, Text,
  if◌then◌else◌, ltb, ◌==◌, length, replicate, take,
}
use raft_rx.Types.{
  Node, NodeConfig, Application, ClusterConfiguration, Command, follower, stable, joint, max_id,
  max_log, max_nodes, max_peers, copy, no_entry,
}
use raft_rx.Members.{
  configuration_is_joint, configuration_set_stable, refresh_peers, self_is_member,
}
use raft_rx.Timeout.{next_election_timeout}
use raft_rx.Storage.{Disk, node_load, node_save}
use raft_rx.Phases.{Transport, Host}

abbrev no_configuration : ClusterConfiguration
no_configuration = record { old_members = []; new_members = []; index = 0 }

-- The members that a node bootstraps with: those given, or itself and its peers.
bootstrap_members : NodeConfig → List Text
bootstrap_members c =
    if ltb 0 (length c.initial_members)
    then c.initial_members
    else take max_nodes (map (copy max_id) (c.node_id ∷ c.peers))

-- A node's memory set to zero, then the fields that `raft_node_init` sets before it loads.
module _ {S : Type 0} where
  zeroed : NodeConfig → Application S → S → Node S
  zeroed config application user = record {
    config = config;
    application = application;
    user = user;
    snapshot_buf = [];
    state = follower;
    current_term = 0;
    voted_for = [];
    log = replicate max_log no_entry;
    log_count = 0;
    snapshot_last_included_index = 0;
    snapshot_last_included_term = 0;
    commit_index = 0;
    last_applied = 0;
    leader_id = [];
    compaction_threshold = max_log;
    running = true;
    config_state = no_configuration;
    membership_state = stable;
    requested_membership = [];
    requested_membership_pending = false;
    joint_config_index = some 0;
    final_config_index = some 0;
    votes_received = [];
    next_index = replicate max_peers 0;
    match_index = replicate max_peers 0;
    outbox = [];
    pending_append_entries = [];
    pending_vote_requests = [];
    pending_votes = [];
    persist_dirty = false;
    election_deadline_ms = 0;
    heartbeat_deadline_ms = 0;
  }

  -- A learner discards what an earlier run has left.
  discard_if_learner : Node S → Node S
  discard_if_learner n =
      if n.config.learner
      then record n {
        config_state = no_configuration;
        log_count = 0;
        commit_index = 0;
        last_applied = 0;
        snapshot_last_included_index = 0;
        snapshot_last_included_term = 0;
        current_term = 0;
        voted_for = [];
        persist_dirty = true;
      }
      else n

  needs_bootstrap : Node S → Bool
  needs_bootstrap n =
      length n.config_state.old_members == 0 && (not n.config.learner && n.log_count == 0)

  bootstrapped : Node S → Node S
  bootstrapped n = record n {
    config_state = configuration_set_stable (bootstrap_members n.config) 0;
  }

  repair_threshold : Node S → Node S
  repair_threshold n =
      if n.compaction_threshold == 0 then record n { compaction_threshold = max_log } else n

  unfoldable pub node_init : NodeConfig → Application S → S → Disk → ℕ → Node S
  unfolding zeroed discard_if_learner bootstrap_members needs_bootstrap bootstrapped
      repair_threshold
  node_init config application user d now =
      let n1 =
        discard_if_learner (repair_threshold (node_load (zeroed config application user) d)) in
      let n2 = if needs_bootstrap n1 then bootstrapped n1 else n1 in
      let n3 = refresh_peers (record n2 {
        membership_state = if configuration_is_joint n2.config_state then joint else stable;
      }) in
      record n3 {
        election_deadline_ms =
            now
            + next_election_timeout n3 now
            + (if ltb 0 n3.current_term then 2 * config.election_timeout_ms else 0);
        heartbeat_deadline_ms = now + config.heartbeat_interval_ms;
        state = follower;
      }

  unfoldable pub node_start : Node S → Disk → ℕ → Node S
  unfolding bootstrap_members needs_bootstrap bootstrapped
  node_start n d now =
      let n1 = node_load n d in
      let n2 = if needs_bootstrap n1 then refresh_peers (bootstrapped n1) else n1 in
      let n3 = record n2 { running = true; state = follower } in
      record n3 {
        election_deadline_ms =
            now + next_election_timeout n3 now + 2 * n3.config.election_timeout_ms;
      }

  unfoldable pub node_stop : Node S → Node S
  node_stop n = record n {
    running = false;
    outbox = [];
    pending_append_entries = [];
    pending_vote_requests = [];
    pending_votes = [];
    state = follower;
  }

  forget : Node S → Node S
  forget n = record n {
    config_state = no_configuration;
    log = replicate max_log no_entry;
    log_count = 0;
    commit_index = 0;
    last_applied = 0;
    snapshot_last_included_index = 0;
    snapshot_last_included_term = 0;
    current_term = 0;
    voted_for = [];
    leader_id = [];
    votes_received = [];
    pending_append_entries = [];
    pending_vote_requests = [];
    pending_votes = [];
    outbox = [];
    config = record n.config { learner = true };
    membership_state = stable;
  }

  unfoldable pub reset_for_join : Node S → Disk → ℕ → Node S × Disk
  unfolding forget
  reset_for_join n d now =
      let n1 = record (refresh_peers (forget n)) { running = true; state = follower } in
      let n2 = record n1 {
        election_deadline_ms =
            now + next_election_timeout n1 now + 2 * n1.config.election_timeout_ms;
        heartbeat_deadline_ms = now + n1.config.heartbeat_interval_ms;
        persist_dirty = true;
      } in
      (record n2 { persist_dirty = false }, node_save n2 d)

module _ {T : Type 0} (tr : Transport T) where
  unfoldable pub enable : T → Bool → T
  enable l on = elim tr.set_enabled [ none ↦ l | some f ↦ f l on ]

module _ {S T : Type 0} (tr : Transport T) where
  unfoldable pub stop : Host S T → Host S T
  stop h = record h { node = node_stop h.node; link = enable tr h.link false }

  unfoldable pub start : Host S T → ℕ → Host S T
  start h now = record h { node = node_start h.node h.disk now; link = enable tr h.link true }

  -- The result is true for 0 and false for -1.
  unfoldable pub submit_command : Host S T → Command → Host S T × Bool
  submit_command h c =
      if not h.node.running || not (self_is_member h.node)
      then (h, false)
      else (let (l, done) = tr.submit_command h.link c in (record h { link = l }, done))
