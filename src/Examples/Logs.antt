-- ===== src/Examples/Logs.antt =====
-- Replication, application and compaction of a log at concrete nodes.
use raft_rx.Prelude.{ℕ, ◌≤◌, ◌≡◌, ◌⊎◌, [], ◌∷◌, codes, arith, refl, Text-discrete, ℕ_discrete}
use raft_rx.Types.{Message, append_entries, new_message, copy}
use raft_rx.LogIndex.{
  last_log_index, entry_at, physical_index, log_base_index, term_at_index, leader_at_index,
}
use raft_rx.Members.{peer_index, index_of}
use raft_rx.Follower.{append_entries_from_leader, fits_after}
use raft_rx.Follower.Steps.{Agrees, HoldsAll}
use raft_rx.Follower.Matching.{append_entries_from_leader-HoldsAll}
use raft_rx.Replication.{append_entries_for, batch_start, batch_from, next_index_of}
use raft_rx.Replication.Batch.{append_entries_for-Agrees}
use raft_rx.Apply.{apply_committed}
use raft_rx.Apply.Committed.{Applied, apply_committed-Applied}
use raft_rx.Compaction.{compactible_index, do_compact}
use raft_rx.Compaction.Keeps.{Compacted, do_compact-Compacted}
use raft_rx.Storage.{no_disk}
use raft_rx.Examples.Nodes.{
  idle_node, leader_node, entry_of, leader_node-IsWellFormed, idle_node-IsWellFormed,
}

-- The leader's two entries.
abbrev entries_message : Message
entries_message = record (new_message append_entries) {
  term = 1;
  source = codes "n2";
  target = codes "n1";
  entries = entry_of 1 1 ∷ entry_of 2 1 ∷ [];
}

append_entries_from_leader-HoldsAll_example :
    let n' = (append_entries_from_leader idle_node entries_message).0 in
    HoldsAll n' (entry_of 1 1 ∷ entry_of 2 1 ∷ [])
    × (2 ≤ last_log_index n')
    × (n'.snapshot_last_included_index ≡ 0)
    × ((i : ℕ) → i ≤ 0 → entry_at n' i ≡ entry_at idle_node i)
unfolding append_entries_from_leader fits_after last_log_index
append_entries_from_leader-HoldsAll_example =
    append_entries_from_leader-HoldsAll idle_node entries_message idle_node-IsWellFormed refl
      (refl, (refl, tt)) (omega arith)

append_entries_for-Agrees_example :
    let f' =
      (append_entries_from_leader idle_node (append_entries_for leader_node (codes "n2"))).0 in
    (2 ≤ last_log_index f') × Agrees (entry_at leader_node 2) (entry_at f' 2)
unfolding append_entries_from_leader append_entries_for batch_start batch_from last_log_index
    log_base_index peer_index index_of fits_after entry_at physical_index term_at_index
    leader_at_index copy Text-discrete ℕ_discrete next_index_of
append_entries_for-Agrees_example =
    append_entries_for-Agrees leader_node idle_node (codes "n2") 2 leader_node-IsWellFormed.has_log
      (omega arith) (omega arith) idle_node-IsWellFormed refl (omega arith) (omega arith)
      (omega arith) (omega arith)

apply_committed-Applied_example : Applied leader_node 1 (apply_committed leader_node)
apply_committed-Applied_example = apply_committed-Applied leader_node

do_compact-Compacted_example :
    ((compactible_index leader_node ≤ 0)
      × (do_compact leader_node no_disk ≡ (leader_node, no_disk)))
    ⊎ ((compactible_index leader_node ≤ 0)
        × Compacted leader_node (compactible_index leader_node) (do_compact leader_node no_disk).0)
do_compact-Compacted_example = do_compact-Compacted leader_node no_disk leader_node-IsWellFormed
