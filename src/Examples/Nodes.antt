-- ===== src/Examples/Nodes.antt =====
-- The nodes and messages of the examples: three members "n1", "n2" and "n3", and the key-value store
-- as the application.
use raft_rx.LogIndex.{last_log_index}
use raft_rx.Prelude.{ℕ, true, false, none, List, [], ◌∷◌, codes, replicate, set, arith, refl, Text}
use raft_rx.Types.{
  Node, Application, Message, Command, LogEntry, max_log, max_peers, follower, candidate, leader,
  stable, no_entry, request_vote, new_message,
}
use raft_rx.Follower.Invariant.{IsWellFormed, LogShape, LogShape-set}
use raft_rx.Kv.{Pair, kv_application}

abbrev pub State : Type 0
State = List Pair

abbrev pub set_x : Text → Command
set_x v = record { op = codes "set"; key = codes "x"; value = v }

abbrev pub entry_of : ℕ → ℕ → LogEntry
entry_of i t = record { index = i; term = t; leader_id = codes "n1"; command = set_x (codes "1") }

-- A follower with an empty log.
abbrev pub idle_with : {S : Type 0} → Application S → S → Node S
idle_with application user = record {
  config = record {
    node_id = codes "n1";
    peers = codes "n2" ∷ codes "n3" ∷ [];
    initial_members = [];
    learner = false;
    election_timeout_ms = 150;
    heartbeat_interval_ms = 50;
  };
  application = application;
  user = user;
  snapshot_buf = [];
  state = follower;
  current_term = 1;
  voted_for = [];
  log = replicate max_log no_entry;
  log_count = 0;
  snapshot_last_included_index = 0;
  snapshot_last_included_term = 0;
  commit_index = 0;
  last_applied = 0;
  leader_id = [];
  compaction_threshold = 1;
  running = true;
  config_state = record {
    old_members = codes "n1" ∷ codes "n2" ∷ codes "n3" ∷ [];
    new_members = [];
    index = 0;
  };
  membership_state = stable;
  requested_membership = [];
  requested_membership_pending = false;
  joint_config_index = none;
  final_config_index = none;
  votes_received = [];
  next_index = replicate max_peers 1;
  match_index = replicate max_peers 0;
  outbox = [];
  pending_append_entries = [];
  pending_vote_requests = [];
  pending_votes = [];
  persist_dirty = false;
  election_deadline_ms = 100;
  heartbeat_deadline_ms = 0;
}

abbrev pub idle_node : Node State
idle_node = idle_with kv_application []

-- Its log with the entries 1 and 2 of term 1.
abbrev pub two_entries : List LogEntry
two_entries = set (set (replicate max_log no_entry) 0 (entry_of 1 1)) 1 (entry_of 2 1)

-- A leader whose peer "n2" has both entries; the first is committed.
abbrev pub leader_node : Node State
leader_node = record idle_node {
  state = leader;
  votes_received = codes "n1" ∷ codes "n2" ∷ [];
  log = two_entries;
  log_count = 2;
  commit_index = 1;
  match_index = set (replicate max_peers 0) 0 2;
}

-- A candidate with the vote of "n2".
abbrev pub candidate_node : Node State
candidate_node = record idle_node {
  state = candidate;
  current_term = 2;
  voted_for = codes "n1";
  votes_received = codes "n1" ∷ codes "n2" ∷ [];
}

-- A follower to which a candidate has written.
abbrev pub vote_request_message : Message
vote_request_message = record (new_message request_vote) {
  term = 2;
  source = codes "n3";
  target = codes "n1";
}

abbrev pub voter_node : Node State
voter_node = record idle_node { pending_vote_requests = vote_request_message ∷ [] }

empty_log : LogShape (replicate max_log no_entry) 0 0
empty_log = record { slots = refl; room = omega arith; indexed = λ i lt. absurd (omega arith) }

two_entries-LogShape : LogShape two_entries 2 0
two_entries-LogShape =
    LogShape-set _ 1 0 (entry_of 2 1)
      (LogShape-set _ 0 0 (entry_of 1 1) empty_log refl (omega arith)) refl (omega arith)

pub idle_node-IsWellFormed : IsWellFormed idle_node
unfolding last_log_index
idle_node-IsWellFormed = record {
  has_log = empty_log;
  applied_low = omega arith;
  applied_high = omega arith;
  committed = omega arith;
}

pub leader_node-IsWellFormed : IsWellFormed leader_node
unfolding last_log_index
leader_node-IsWellFormed = record {
  has_log = two_entries-LogShape;
  applied_low = omega arith;
  applied_high = omega arith;
  committed = omega arith;
}
