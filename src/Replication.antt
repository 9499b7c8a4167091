-- ===== src/Replication.antt =====
-- Replication on the leader's side (c/src/raft.c): what it sends to a peer, which indexes a majority
-- holds, and how far it commits.
pub mod Safe
pub mod Marks
pub mod Commit
pub mod Batch
pub mod Terms
use raft_rx.Prelude.{
  ℕ, zero, suc, ◌+◌, ◌-◌, Bool, true, false, not, ◌&&◌, ◌||◌, Option, none, some, List, [], ◌∷◌,
  Text, same, if◌then◌else◌, ltb, leb, ◌==◌, length, get_or, set,
}
use raft_rx.Types.{
  Node, Message, LogEntry, ClusterConfiguration, append_entries, new_message, max_id, max_batch,
  max_peers, copy,
}
use raft_rx.LogIndex.{last_log_index, log_base_index, entry_at, term_at_index, leader_at_index}
use raft_rx.Members.{configuration_is_joint, member_majority, tally, peer_index, is_leader_role}
use raft_rx.Election.{handle_term_update}
use raft_rx.Outbox.{queue_message}

module _ {S : Type 0} where
  -- The index that the next batch for the peer starts at, before it is raised to the base.
  unfoldable pub next_index_of : Node S → Text → ℕ
  next_index_of n peer = elim (peer_index n peer) [
    | none ↦ last_log_index n + 1
    | some i ↦ get_or n.next_index i 0
  ]

  unfoldable pub batch_start : Node S → Text → ℕ
  unfolding next_index_of
  batch_start n peer =
      let next = next_index_of n peer in
      if ltb next (log_base_index n) then log_base_index n else next

  -- The loop that copies entries, with the rounds left in the batch.
  unfoldable pub batch_from : Node S → ℕ → ℕ → List LogEntry
  batch_from n zero i = []
  batch_from n (suc left) i =
      let rest = batch_from n left (i + 1) in
      if leb i (last_log_index n) then entry_at n i ∷ rest else []

  unfoldable pub append_entries_for : Node S → Text → Message
  append_entries_for n peer =
      let next = batch_start n peer in
      let prev = next - 1 in
      record (new_message append_entries) {
        term = n.current_term;
        prev_log_index = prev;
        prev_log_term = term_at_index n prev;
        prev_log_leader_id = copy max_id (leader_at_index n prev);
        leader_commit = n.commit_index;
        source = copy max_id n.config.node_id;
        target = copy max_id peer;
        entries = batch_from n max_batch next;
      }

  unfoldable pub send_append_entries_to : Node S → Text → Node S
  unfolding append_entries_for
  send_append_entries_to n peer = queue_message n (append_entries_for n peer)

  unfoldable pub send_to_each : Node S → List Text → Node S
  send_to_each n [] = n
  send_to_each n (p ∷ ps) = send_to_each (send_append_entries_to n p) ps

  unfoldable pub broadcast_append_entries : Node S → Node S
  unfolding send_to_each
  broadcast_append_entries n = send_to_each n n.config.peers

  -- Whether the node knows that a member has the log up to the index.
  unfoldable pub has_replicated : Node S → ℕ → Text → Bool
  has_replicated n index m =
      if same m n.config.node_id
      then leb index (last_log_index n)
      else (elim (peer_index n m) [ none ↦ false | some i ↦ leb index (get_or n.match_index i 0) ])

  unfoldable pub replicated_on_members : Node S → ℕ → List Text → Bool
  replicated_on_members n index members =
      leb (member_majority (length members)) (tally (has_replicated n index) members)

  unfoldable pub is_committed_under_current_configuration : Node S → ℕ → Bool
  is_committed_under_current_configuration n index =
      if replicated_on_members n index n.config_state.old_members
      then (if configuration_is_joint n.config_state
          then replicated_on_members n index n.config_state.new_members
          else true)
      else false

  all_caught_up : Node S → ℕ → List Text → Bool
  all_caught_up n target [] = true
  all_caught_up n target (m ∷ ms) =
      let rest = all_caught_up n target ms in
      if same m n.config.node_id then rest else (elim (peer_index n m) [
        | none ↦ false
        | some i ↦ (if ltb (get_or n.match_index i 0) target then false else rest)
      ])

  unfoldable pub joint_members_are_caught_up : Node S → Bool
  unfolding all_caught_up
  joint_members_are_caught_up n =
      if configuration_is_joint n.config_state
      then all_caught_up n (last_log_index n) n.config_state.new_members
      else false

  -- The loop of `node_advance_commit_index`, which goes down to the commit index: `left` rounds are
  -- left, and `idx` is that many above it.
  advance_from : Node S → ℕ → Node S
  advance_from n zero = n
  advance_from n (suc left) =
      let rest = advance_from n left in
      let idx = n.commit_index + suc left in
      if not (term_at_index n idx == n.current_term)
      then rest
      else (if is_committed_under_current_configuration n idx
          then record n { commit_index = idx; persist_dirty = true }
          else rest)

  pub advance_commit_index : Node S → Node S
  unfolding advance_from
  advance_commit_index n = advance_from n (last_log_index n - n.commit_index)

  unfoldable pub acknowledged : Node S → ℕ → Message → Node S
  acknowledged n peer m = record n {
    match_index = set n.match_index peer m.match_index;
    next_index = set n.next_index peer (m.match_index + 1);
  }

  unfoldable pub step_back : Node S → ℕ → Node S
  step_back n peer =
      if ltb (log_base_index n) (get_or n.next_index peer 0)
      then record n { next_index = set n.next_index peer (get_or n.next_index peer 0 - 1) }
      else n

  unfoldable pub handle_append_entries_response : Node S → Message → Node S
  unfolding acknowledged step_back
  handle_append_entries_response n message =
      let n1 = handle_term_update n message in
      if not (is_leader_role n1.state) || not (message.term == n1.current_term)
      then n1
      else (elim (peer_index n1 message.source) [
        | none ↦ n1
        | some peer ↦
            (if message.success
              then advance_commit_index (acknowledged n1 peer message)
              else send_append_entries_to (step_back n1 peer) message.source)
      ])
