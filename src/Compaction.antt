-- ===== src/Compaction.antt =====
-- Log compaction (c/src/raft.c): `node_compactible_index`, `node_should_compact`, `node_do_compact`.
pub mod Keeps
use raft_rx.Prelude.{
  ℕ, ◌+◌, ◌-◌, Bool, true, false, not, ◌&&◌, Option, none, some, List, [], ◌∷◌, ◌++◌, Text,
  if◌then◌else◌, ltb, leb, take, drop,
}
use raft_rx.Types.{Node, LogEntry, max_snapshot_size}
use raft_rx.LogIndex.{last_log_index, term_at_index}
use raft_rx.Members.{is_leader_role}
use raft_rx.Storage.{Disk, save_snapshot}

-- The least of a number and the match indexes of the peers.
pub lowest : ℕ → List Text → List ℕ → ℕ
lowest low [] matches = low
lowest low (p ∷ ps) [] = low
lowest low (p ∷ ps) (m ∷ matches) = lowest (if ltb m low then m else low) ps matches

-- memmove(log, log + from, …) of `count` entries: the slots after them keep what they held.
pub shift_down : List LogEntry → ℕ → ℕ → List LogEntry
shift_down log from count = take count (drop from log) ++ drop count log

module _ {S : Type 0} where
  unfoldable pub compactible_index : Node S → ℕ
  compactible_index n =
      if is_leader_role n.state
      then lowest n.last_applied n.config.peers n.match_index
      else n.last_applied

  unfoldable pub should_compact : Node S → Bool
  should_compact n =
      ltb 0 n.compaction_threshold
      && leb n.compaction_threshold (compactible_index n - n.snapshot_last_included_index)

  take_snapshot : Node S → Node S
  take_snapshot n = record n {
    snapshot_buf = elim n.application.snapshot [ none ↦ [] | some f ↦ f n.user max_snapshot_size ];
  }

  truncate_prefix : Node S → ℕ → Node S
  truncate_prefix n keep_from =
      if leb n.log_count keep_from then record n { log_count = 0 } else record n {
        log = shift_down n.log keep_from (n.log_count - keep_from);
        log_count = n.log_count - keep_from;
      }

  -- After the early returns: the state in memory, with the log cut up to the target.
  unfoldable pub compact_to : Node S → ℕ → Node S
  unfolding take_snapshot truncate_prefix
  compact_to n target =
      let term = term_at_index n target in
      let n1 = truncate_prefix (take_snapshot n) (target - n.snapshot_last_included_index) in
      record n1 {
        snapshot_last_included_index = target;
        snapshot_last_included_term = term;
        persist_dirty = true;
      }

  -- The snapshot is on disk before the state in memory changes.
  unfoldable pub do_compact : Node S → Disk → Node S × Disk
  unfolding take_snapshot
  do_compact n d =
      let target = compactible_index n in
      if leb target n.snapshot_last_included_index
      then (n, d)
      else (if ltb (last_log_index n) target then (n, d) else (
        compact_to n target,
        save_snapshot (take_snapshot n) target (term_at_index n target) d,
      ))
