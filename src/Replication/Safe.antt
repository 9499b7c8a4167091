-- ===== src/Replication/Safe.antt =====
-- The log of a leader across the answers of its peers (c/src/raft.c): `node_advance_commit_index` and
-- `node_handle_append_entries_response`.
use raft_rx.Prelude.{◌≤◌, ◌≡◌, not, ◌||◌, ◌==◌, inl, inr, arith, Bool-cases, Option-cases, dec_lt}
use raft_rx.Types.{Node, Message}
use raft_rx.LogIndex.{last_log_index}
use raft_rx.Members.{is_leader_role, peer_index}
use raft_rx.Election.{handle_term_update}
use raft_rx.Replication.{
  handle_append_entries_response, advance_commit_index, acknowledged, step_back,
  send_append_entries_to,
}
use raft_rx.Replication.Commit.{advance_commit_index-Advanced}
use raft_rx.Follower.Invariant.{
  IsWellFormed, handle_term_update-IsWellFormed, queue_message-IsWellFormed,
}

module _ {S : Type 0} where
  -- What the invariant reads.
  pub record SameLog (n n' : Node S) : Type 0 where
    pub log : n'.log ≡ n.log
    pub log_count : n'.log_count ≡ n.log_count
    pub snapshot : n'.snapshot_last_included_index ≡ n.snapshot_last_included_index
    pub applied : n'.last_applied ≡ n.last_applied
    pub committed : n'.commit_index ≡ n.commit_index

  pub SameLog-IsWellFormed : (n n' : Node S) → SameLog n n' → IsWellFormed n → IsWellFormed n'
  unfolding last_log_index
  SameLog-IsWellFormed n n' k v = ground (arith, v.has_log)

  pub advance_commit_index-IsWellFormed :
      (n : Node S) → IsWellFormed n → IsWellFormed (advance_commit_index n)
  unfolding last_log_index
  advance_commit_index-IsWellFormed n v =
      let a = advance_commit_index-Advanced n v.committed in
      let n' = advance_commit_index n in
      let within : n'.commit_index ≤ last_log_index n =
        elim (dec_lt n.commit_index n'.commit_index) [
          | yes more ↦ (a.moved more).0
          | no same ↦ omega (arith, v.committed)
        ] in
      record {
        has_log = rw a.frame v.has_log;
        applied_low = rw a.frame v.applied_low;
        applied_high = rw a.frame v.applied_high;
        committed = rw a.frame within;
      }

  pub handle_append_entries_response-IsWellFormed :
      (n : Node S) (m : Message)
      → IsWellFormed n
      → IsWellFormed (handle_append_entries_response n m)
  unfolding handle_append_entries_response acknowledged step_back send_append_entries_to
      handle_term_update
  handle_append_entries_response-IsWellFormed n m v =
      let n1 = handle_term_update n m in
      let v1 = handle_term_update-IsWellFormed n m v in
      elim (Bool-cases (not (is_leader_role n1.state) || not (m.term == n1.current_term))) [
        | inl ignored ↦ rw ignored v1
        | inr taken ↦ elim (Option-cases (peer_index n1 m.source)) [
          | inl unknown ↦ rw (taken, unknown) v1
          | inr (peer, known) ↦ elim (Bool-cases m.success) [
            | inl good ↦
                rw (taken, known, good)
                  (advance_commit_index-IsWellFormed (acknowledged n1 peer m)
                    (SameLog-IsWellFormed n1 _ (ground arith) v1))
            | inr bad ↦
                rw (taken, known, bad)
                  (queue_message-IsWellFormed _ _
                    (SameLog-IsWellFormed n1 (step_back n1 peer) (ground arith) v1))
          ]
        ]
      ]
